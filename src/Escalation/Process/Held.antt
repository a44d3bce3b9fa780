-- ===== src/Escalation/Process/Held.antt =====
-- A run of processEscalations does not disturb an alert that a user suppressed or acknowledged.
use wfmcontrol_m.Prelude.{
  ℕ, ◌≤◌, String, ◌≡◌, refl, ◌∙◌, ltb, ◌≢◌, Bool, true, false, Option, none, some, List, [], ◌∷◌,
  arith, ap, ◌==◌, eq_iff, All, All-append, Bool-cases, inl, inr, map, sym, filter, ◌⊎◌, any,
}
use wfmcontrol_m.Table.{update, update_each, has_key}
use wfmcontrol_m.Table.Laws.{All-update, has_key-update, has_key-append, fresh-ne}
use wfmcontrol_m.Escalation.{
  Alerts, EscalatedAlert, acknowledged, suppressed, is_open_for, resolve, system_escalation_actor,
}
use wfmcontrol_m.Escalation.Notify.{
  mark_sent, auto_acknowledge, process_auto_escalation, eligible, selected, AutoClock, SendClock,
}
use wfmcontrol_m.Escalation.Notify.Laws.{process_auto_escalation-keeps}
use wfmcontrol_m.Escalation.Process.{
  PendingAlert, World, find_open, newer, refresh_existing, process_alert, process_alerts,
  write_alert, is_pending, resolve_absent, process_escalations, update_counts, end_suppression,
  end_acknowledgement, suppression_expired, auto_ack_expired,
}
use wfmcontrol_m.Escalation.Process.Frame.{refresh_existing-keeps}
use wfmcontrol_m.Escalation.Process.Tracking.{IsFresh}

-- An unresolved alert of client `c` that is held at `now`: by a suppression that has not run out, or by
-- an acknowledgement of a user other than the system actor.
pub record IsHeld (now : ℕ) (c : String) (r : EscalatedAlert) : Type 0 where
  pub client : r.client_id ≡ c
  pub unresolved : r.resolved_at ≡ none
  pub hold :
      ((until : ℕ) × (r.status ≡ suppressed) × (r.suppress_until ≡ some until) × (now ≤ until))
      ⊎ ((user : String) × (r.status ≡ acknowledged)
          × (r.acknowledged_by ≡ some user)
          × (user ≢ system_escalation_actor))

-- What such an alert keeps of the alert `o` that it was.
pub record SameHold (o r : EscalatedAlert) : Type 0 where
  pub client : r.client_id ≡ o.client_id
  pub resolved : r.resolved_at ≡ o.resolved_at
  pub status : r.status ≡ o.status
  pub acknowledged_by : r.acknowledged_by ≡ o.acknowledged_by
  pub acknowledged_at : r.acknowledged_at ≡ o.acknowledged_at
  pub suppressed_by : r.suppressed_by ≡ o.suppressed_by
  pub suppressed_at : r.suppressed_at ≡ o.suppressed_at
  pub suppress_until : r.suppress_until ≡ o.suppress_until
  pub suppress_reason : r.suppress_reason ≡ o.suppress_reason
  pub email_sent_at : r.email_sent_at ≡ o.email_sent_at

abbrev pub Stays : EscalatedAlert → Alerts → Type 0
Stays o t = All (λ r. r.id ≡ o.id → SameHold o r) t

-- The row of `o` is there, and is in the state of `o`.
abbrev pub Keeps : EscalatedAlert → Alerts → Type 0
Keeps o t = (has_key (λ (r : EscalatedAlert). r.id) o.id t ≡ true) × Stays o t

abbrev FoundStays : EscalatedAlert → Option EscalatedAlert → Type 0
FoundStays o none = Unit
FoundStays o (some e) = e.id ≡ o.id → SameHold o e

newer-Stays :
    (o r : EscalatedAlert) (later : Option EscalatedAlert)
    → (r.id ≡ o.id → SameHold o r)
    → FoundStays o later
    → (newer r later).id ≡ o.id
    → SameHold o (newer r later)
newer-Stays o r none p h = p
newer-Stays o r (some s) p h = elim (Bool-cases (ltb r.created_at s.created_at)) [
  | inl e ↦ simp e h
  | inr e ↦ simp e p
]

find_open-Stays :
    (o : EscalatedAlert) (c : String) (t : Alerts) → Stays o t → FoundStays o (find_open c t)
unfolding find_open
find_open-Stays o c [] h = tt
find_open-Stays o c (r ∷ t) (p, h) = elim (Bool-cases (is_open_for c r)) [
  | inl e ↦ simp e (newer-Stays o r (find_open c t) p (find_open-Stays o c t h))
  | inr e ↦ simp e (find_open-Stays o c t h)
]

Keeps-update :
    (o : EscalatedAlert) (i : ℕ) (f : EscalatedAlert → EscalatedAlert) (t : Alerts)
    → ((r : EscalatedAlert) → (f r).id ≡ r.id)
    → ((r : EscalatedAlert) → i ≡ o.id → SameHold o r → SameHold o (f r))
    → Keeps o t
    → Keeps o (update (λ r. r.id) i f t)
Keeps-update o i f t same keep (k, h) = (
  has_key-update (λ (r : EscalatedAlert). r.id) f same o.id i t ∙ k,
  All-update (λ (r : EscalatedAlert). r.id) (λ r. r.id ≡ o.id → SameHold o r) i f t
      (λ r e p q. let q' = sym (same r) ∙ q in keep r (sym e ∙ q') (p q')) h,
)

-- A loop over rows with other ids.
abbrev Others : EscalatedAlert → Alerts → Type 0
Others o ss = All (λ s. s.id ≢ o.id) ss

Keeps-update_each :
    (o : EscalatedAlert) (f : EscalatedAlert → EscalatedAlert) (ss t : Alerts)
    → ((r : EscalatedAlert) → (f r).id ≡ r.id)
    → Others o ss
    → Keeps o t
    → Keeps o (update_each (λ r. r.id) f ss t)
unfolding update_each
Keeps-update_each o f [] t same other h = h
Keeps-update_each o f (s ∷ ss) t same (n, other) h =
    Keeps-update_each o f ss (update (λ r. r.id) s.id f t) same other
      (Keeps-update o s.id f t same (λ r e p. absurd (n e)) h)

filter-Others :
    (o : EscalatedAlert) (p : EscalatedAlert → Bool) (t : Alerts)
    → ((r : EscalatedAlert) → r.id ≡ o.id → SameHold o r → p r ≡ false)
    → Stays o t
    → Others o (filter p t)
filter-Others o p [] no_row h = tt
filter-Others o p (r ∷ t) no_row (s, h) = elim (Bool-cases (p r)) [
  | inl e ↦ simp e ((λ q. cc (no_row r q (s q))), filter-Others o p t no_row h)
  | inr e ↦ simp e (filter-Others o p t no_row h)
]

any_absent :
    (i j : ℕ) (ss : Alerts)
    → All (λ s. s.id ≢ i) ss
    → j ≡ i
    → any (λ k. j == k) (map (λ r. r.id) ss) ≡ false
any_absent i j [] n e = refl
any_absent i j (s ∷ ss) (n, ns) e = ground (arith, any_absent i j ss ns e)

module _ (w : World) (codes : List (String × String)) (c : String) (o : EscalatedAlert)
    (held : IsHeld w.now c o) where
  held_not_expired : (e : EscalatedAlert) → SameHold o e → suppression_expired w.now e ≡ false
  unfolding suppression_expired
  held_not_expired e s = ground arith

  held_ack_not_expired :
      (e : EscalatedAlert) → SameHold o e → auto_ack_expired w.cfg w.now e ≡ false
  unfolding auto_ack_expired
  held_ack_not_expired e s = elim held.hold [
    | inl (until, st, u, n) ↦ ground arith
    | inr (user, st, by, n) ↦ ground (arith, eq_iff user system_escalation_actor)
  ]

  Keeps-refresh_existing :
      (a : PendingAlert) (e : EscalatedAlert) (t : Alerts)
      → (e.id ≡ o.id → SameHold o e)
      → Keeps o t
      → Keeps o (refresh_existing w a e t)
  Keeps-refresh_existing a e t s h =
      refresh_existing-keeps (Keeps o) w a e t
        (λ u k. Keeps-update o e.id (update_counts w.now a) u (λ r. refl) (λ r x p. ground arith) k)
        (λ x u k.
          Keeps-update o e.id end_suppression u (λ r. refl)
            (λ r q p. absurd (cc (held_not_expired e (s q)))) k)
        (λ x u k.
          Keeps-update o e.id end_acknowledgement u (λ r. refl)
            (λ r q p. absurd (cc (held_ack_not_expired e (s q)))) k)
        h

  Keeps-write_alert :
      (fresh : IsFresh w) (a : PendingAlert) (t : Alerts) (found : Option EscalatedAlert)
      → FoundStays o found
      → Keeps o t
      → Keeps o (write_alert w codes a t found)
  unfolding write_alert
  Keeps-write_alert fresh a t none s (k, h) = (
    has_key-append (λ (r : EscalatedAlert). r.id) o.id t _ k,
    All-append (λ r. r.id ≡ o.id → SameHold o r) t _ h
        (
          (λ e. absurd (fresh-ne (λ (r : EscalatedAlert). r.id) (w.fresh t) o.id t (fresh t) k e)),
          tt,
        ),
  )
  Keeps-write_alert fresh a t (some e) s h = Keeps-refresh_existing a e t s h

  Keeps-process_alerts :
      (fresh : IsFresh w) (pending : List PendingAlert) (t : Alerts)
      → Keeps o t
      → Keeps o (process_alerts w codes pending t)
  unfolding process_alerts process_alert
  Keeps-process_alerts fresh [] t h = h
  Keeps-process_alerts fresh (a ∷ rest) t h =
      Keeps-process_alerts fresh rest (process_alert w codes a t) (
        Keeps-write_alert fresh a t (find_open a.client_id t) (find_open-Stays o a.client_id t h.1)
          h)

  Keeps-resolve_absent :
      (pending : List PendingAlert) (t : Alerts)
      → is_pending pending c ≡ true
      → Keeps o t
      → Keeps o (resolve_absent w.now pending t)
  unfolding resolve_absent
  Keeps-resolve_absent pending t here h =
      Keeps-update_each o (resolve w.now) _ t (λ r. refl)
        (filter-Others o _ t
          (λ r q s. ground (arith, ap (is_pending pending) (s.client ∙ held.client))) h.1)
        h

  not_eligible : (k : AutoClock) (r : EscalatedAlert) → SameHold o r → eligible w.cfg k r ≡ false
  unfolding eligible
  not_eligible k r s = ground arith

  not_selected :
      (k : SendClock) (ss : Alerts) (r : EscalatedAlert)
      → Others o ss
      → r.id ≡ o.id
      → SameHold o r
      → selected w.cfg k (map (λ r. r.id) ss) r ≡ false
  unfolding selected
  not_selected k [] r n e s = ground arith
  not_selected k (a ∷ ss) r n e s = ground (arith, any_absent o.id r.id (a ∷ ss) n e)

  Keeps-process_auto_escalation :
      (t : Alerts)
      → Keeps o t
      → Keeps o (process_auto_escalation w.cfg w.auto w.mailer w.recipients t)
  Keeps-process_auto_escalation t h =
      let others =
        filter-Others o (eligible w.cfg w.auto) t (λ r q s. not_eligible w.auto r s) h.1 in
      process_auto_escalation-keeps (Keeps o) (λ s. s.id ≢ o.id)
        (λ now emails ss u q p. Keeps-update_each o (mark_sent now emails) ss u (λ r. refl) q p)
        (λ k ss u q p. Keeps-update_each o (auto_acknowledge k) ss u (λ r. refl) q p) w.cfg w.auto
        w.mailer w.recipients t others
        (filter-Others o _ t (λ r q s. not_selected w.auto.send _ r others q s) h.1) h

-- An alert of a pending client that a user suppressed, while the suppression has not run out, or
-- that a user acknowledged, stays in the table with its status, hold and email time, whatever the
-- run does. The database hands out ids that are not in use.
pub process_escalations-holds :
    (w : World) (codes : List (String × String)) (pending : List PendingAlert) (t : Alerts)
    (c : String) (o : EscalatedAlert)
    → IsFresh w
    → IsHeld w.now c o
    → is_pending pending c ≡ true
    → Keeps o t
    → Keeps o (process_escalations w codes pending t)
unfolding process_escalations
process_escalations-holds w codes pending t c o fresh held here h =
    Keeps-process_auto_escalation w codes c o held _ (
      Keeps-resolve_absent w codes c o held pending _ here
        (Keeps-process_alerts w codes c o held fresh pending t h))
