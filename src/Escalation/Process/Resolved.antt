-- ===== src/Escalation/Process/Resolved.antt =====
-- A run leaves every resolved alert in the state OPEN.
use wfmcontrol_m.Prelude.{
  ℕ, String, ◌≡◌, refl, ◌∙◌, ap, sym, Bool, true, Option, none, some, List, [], ◌∷◌, arith, ◌⊎◌,
  All, All-append, Bool-cases, inl, inr, filter, map, any, ◌==◌, is_none,
}
use wfmcontrol_m.Table.{update, update_each}
use wfmcontrol_m.Table.Laws.{All-update, All-update_each, chosen-filter, IsKeyed-update_each}
use wfmcontrol_m.Escalation.{Alerts, EscalatedAlert, Settings, open_status, is_unresolved, resolve}
use wfmcontrol_m.Escalation.Notify.{
  mark_sent, auto_acknowledge, process_auto_escalation, eligible, selected, AutoClock, SendClock,
  Transport, Recipient,
}
use wfmcontrol_m.Escalation.Notify.Laws.{process_auto_escalation-keeps}
use wfmcontrol_m.Escalation.Process.{
  PendingAlert, World, find_open, process_alert, process_alerts, write_alert, resolve_absent,
  process_escalations, update_counts, end_suppression, end_acknowledgement,
}
use wfmcontrol_m.Escalation.Process.Frame.{refresh_existing-keeps}
use wfmcontrol_m.Escalation.Process.Tracking.{IsFresh, IsTable, IsTable-process_alerts}

is_none→none {ℓ} : {A : Type ℓ} (o : Option A) → is_none o ≡ true → o ≡ none
is_none→none none h = refl
is_none→none (some a) h = cc

abbrev pub IsResolvedOpen : EscalatedAlert → Type 0
IsResolvedOpen r = (r.resolved_at ≡ none) ⊎ (r.status ≡ open_status)

-- The resolved alerts of the table are in the state OPEN.
abbrev pub ResolvedOpen : Alerts → Type 0
ResolvedOpen t = All IsResolvedOpen t

ResolvedOpen-update :
    (i : ℕ) (f : EscalatedAlert → EscalatedAlert) (t : Alerts)
    → ((r : EscalatedAlert) → IsResolvedOpen r → IsResolvedOpen (f r))
    → ResolvedOpen t
    → ResolvedOpen (update (λ r. r.id) i f t)
ResolvedOpen-update i f t keep =
    All-update (λ (r : EscalatedAlert). r.id) IsResolvedOpen i f t (λ r e p. keep r p)

module _ (w : World) (codes : List (String × String)) where
  ResolvedOpen-write_alert :
      (a : PendingAlert) (t : Alerts) (found : Option EscalatedAlert)
      → ResolvedOpen t
      → ResolvedOpen (write_alert w codes a t found)
  unfolding write_alert
  ResolvedOpen-write_alert a t none h = All-append IsResolvedOpen t _ h (inl refl, tt)
  ResolvedOpen-write_alert a t (some e) h =
      refresh_existing-keeps ResolvedOpen w a e t
        (λ u p. ResolvedOpen-update e.id (update_counts w.now a) u (λ r q. q) p)
        (λ x u p. ResolvedOpen-update e.id end_suppression u (λ r q. inr refl) p)
        (λ x u p. ResolvedOpen-update e.id end_acknowledgement u (λ r q. inr refl) p) h

  ResolvedOpen-process_alerts :
      (pending : List PendingAlert) (t : Alerts)
      → ResolvedOpen t
      → ResolvedOpen (process_alerts w codes pending t)
  unfolding process_alerts process_alert
  ResolvedOpen-process_alerts [] t h = h
  ResolvedOpen-process_alerts (a ∷ rest) t h =
      ResolvedOpen-process_alerts rest (process_alert w codes a t)
        (ResolvedOpen-write_alert a t (find_open a.client_id t) h)

ResolvedOpen-update_each :
    (now : ℕ) (ss t : Alerts)
    → ResolvedOpen t
    → ResolvedOpen (update_each (λ r. r.id) (resolve now) ss t)
unfolding update_each
ResolvedOpen-update_each now [] t h = h
ResolvedOpen-update_each now (s ∷ ss) t h =
    ResolvedOpen-update_each now ss _ (ResolvedOpen-update s.id (resolve now) t (λ r q. inr refl) h)

-- The ids of the unresolved alerts of a table.
abbrev unresolved_id : Alerts → ℕ → Bool
unresolved_id t i = any (λ j. i == j) (map (λ (r : EscalatedAlert). r.id) (filter is_unresolved t))

-- A row under one of those ids is unresolved, and any resolved row is OPEN.
abbrev Sound : Alerts → EscalatedAlert → Type 0
Sound t r = IsResolvedOpen r × (unresolved_id t r.id ≡ is_unresolved r)

Sound-of :
    (t u : Alerts)
    → ResolvedOpen u
    → All (λ (r : EscalatedAlert). unresolved_id t r.id ≡ is_unresolved r) u
    → All (Sound t) u
Sound-of t [] h k = tt
Sound-of t (r ∷ u) (p, h) (q, k) = ((p, q), Sound-of t u h k)

ResolvedOpen-of : (t u : Alerts) → All (Sound t) u → ResolvedOpen u
ResolvedOpen-of t [] h = tt
ResolvedOpen-of t (r ∷ u) ((p, q), h) = (p, ResolvedOpen-of t u h)

-- What a query selects with a test that only unresolved rows pass.
filter-unresolved :
    (t u : Alerts) (p : EscalatedAlert → Bool)
    → ((r : EscalatedAlert) → p r ≡ true → is_unresolved r ≡ true)
    → All (Sound t) u
    → All (λ r. unresolved_id t r.id ≡ true) (filter p u)
filter-unresolved t [] p only h = tt
filter-unresolved t (r ∷ u) p only ((x, y), h) = elim (Bool-cases (p r)) [
  | inl e ↦ simp e (y ∙ only r e, filter-unresolved t u p only h)
  | inr e ↦ simp e (filter-unresolved t u p only h)
]

eligible-unresolved :
    (cfg : Settings) (k : AutoClock) (r : EscalatedAlert)
    → eligible cfg k r ≡ true
    → is_unresolved r ≡ true
unfolding eligible
eligible-unresolved cfg k r h = ground arith

selected-unresolved :
    (cfg : Settings) (k : SendClock) (ids : List ℕ) (r : EscalatedAlert)
    → selected cfg k ids r ≡ true
    → is_unresolved r ≡ true
unfolding selected
selected-unresolved cfg k [] r h = ground arith
selected-unresolved cfg k (i ∷ ids) r h = ground arith

pub ResolvedOpen-process_auto_escalation :
    (cfg : Settings) (k : AutoClock) (mailer : Option Transport) (rs : List Recipient) (t : Alerts)
    → IsTable t
    → ResolvedOpen t
    → ResolvedOpen (process_auto_escalation cfg k mailer rs t)
ResolvedOpen-process_auto_escalation cfg k mailer rs t keyed h =
    let sound =
      Sound-of t t h (chosen-filter (λ (r : EscalatedAlert). r.id) is_unresolved t keyed) in
    ResolvedOpen-of t _ (
      process_auto_escalation-keeps (All (Sound t)) (λ s. unresolved_id t s.id ≡ true)
        (λ now emails ss u q.
          All-update_each (λ (r : EscalatedAlert). r.id) (Sound t)
            (λ s. unresolved_id t s.id ≡ true) (mark_sent now emails) ss u q (λ s r x e p. p))
        (λ k' ss u q.
          All-update_each (λ (r : EscalatedAlert). r.id) (Sound t)
            (λ s. unresolved_id t s.id ≡ true) (auto_acknowledge k') ss u q
            (λ s r x e p.
              (inl (is_none→none r.resolved_at (sym p.1 ∙ ap (unresolved_id t) e ∙ x)), p.1)))
        cfg k mailer rs t (filter-unresolved t t (eligible cfg k) (eligible-unresolved cfg k) sound)
        (filter-unresolved t t _ (selected-unresolved cfg k.send _) sound) sound)

IsTable-update_each :
    (f : EscalatedAlert → EscalatedAlert) (ss t : Alerts)
    → ((r : EscalatedAlert) → (f r).id ≡ r.id)
    → IsTable t
    → IsTable (update_each (λ r. r.id) f ss t)
IsTable-update_each f ss t same h = IsKeyed-update_each (λ (r : EscalatedAlert). r.id) f same ss t h

All-Unit : (ss : Alerts) → All (λ (r : EscalatedAlert). Unit {0}) ss
All-Unit [] = tt
All-Unit (s ∷ ss) = (tt, All-Unit ss)

module _ (w : World) (codes : List (String × String)) (fresh : IsFresh w)
    (pending : List PendingAlert) (t : Alerts) (keyed : IsTable t) where
  IsTable-resolve_absent : IsTable (resolve_absent w.now pending (process_alerts w codes pending t))
  unfolding resolve_absent
  IsTable-resolve_absent =
      IsTable-update_each (resolve w.now) _ _ (λ r. refl)
        (IsTable-process_alerts w codes fresh pending t keyed)

  -- Ids stay distinct over a run.
  pub IsTable-process_escalations : IsTable (process_escalations w codes pending t)
  unfolding process_escalations
  IsTable-process_escalations =
      process_auto_escalation-keeps IsTable (λ r. Unit)
        (λ now emails ss u _ p. IsTable-update_each (mark_sent now emails) ss u (λ r. refl) p)
        (λ k ss u _ p. IsTable-update_each (auto_acknowledge k) ss u (λ r. refl) p) w.cfg w.auto
        w.mailer w.recipients _ (All-Unit _) (All-Unit _) IsTable-resolve_absent

  -- A run keeps the resolved alerts OPEN: it writes another state only to unresolved ones.
  pub process_escalations-ResolvedOpen :
      ResolvedOpen t → ResolvedOpen (process_escalations w codes pending t)
  unfolding process_escalations
  process_escalations-ResolvedOpen h =
      ResolvedOpen-process_auto_escalation w.cfg w.auto w.mailer w.recipients _
        IsTable-resolve_absent
        (unfold resolve_absent in
          ResolvedOpen-update_each w.now _ _ (ResolvedOpen-process_alerts w codes pending t h))
