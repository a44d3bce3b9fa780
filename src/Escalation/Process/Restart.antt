-- ===== src/Escalation/Process/Restart.antt =====
-- A client that has no unresolved alert before a run starts its escalation time at that run.
use wfmcontrol_m.Prelude.{
  ℕ, String, ◌≡◌, refl, true, Option, none, some, List, [], ◌∷◌, arith, ◌∙◌, All, All-append,
  Bool-cases, inl, inr,
}
use wfmcontrol_m.Table.{update, update_each}
use wfmcontrol_m.Table.Laws.{All-update}
use wfmcontrol_m.Escalation.{Alerts, EscalatedAlert, is_open_for, resolve}
use wfmcontrol_m.Escalation.Notify.{mark_sent, auto_acknowledge}
use wfmcontrol_m.Escalation.Notify.Laws.{process_auto_escalation-keeps}
use wfmcontrol_m.Escalation.Process.{
  PendingAlert, World, find_open, process_alert, process_alerts, write_alert, resolve_absent,
  process_escalations, update_counts, end_suppression, end_acknowledgement,
}
use wfmcontrol_m.Escalation.Process.Frame.{refresh_existing-keeps}
use wfmcontrol_m.Escalation.Process.Tracking.{open_count}

-- Every unresolved alert of the client was first seen at `now`.
abbrev pub StartsAt : String → ℕ → Alerts → Type 0
StartsAt c now t = All (λ r. is_open_for c r ≡ true → r.first_seen_at ≡ now) t

StartsAt-of_none : (c : String) (now : ℕ) (t : Alerts) → open_count c t ≡ 0 → StartsAt c now t
StartsAt-of_none c now [] h = tt
StartsAt-of_none c now (r ∷ t) h = elim (Bool-cases (is_open_for c r)) [
  | inl e ↦ absurd (ground arith)
  | inr e ↦ ((λ q. cc), StartsAt-of_none c now t (ground arith))
]

module _ (c : String) (now : ℕ) where
  StartsAt-update :
      (i : ℕ) (f : EscalatedAlert → EscalatedAlert) (t : Alerts)
      → ((r : EscalatedAlert) → is_open_for c (f r) ≡ true → is_open_for c r ≡ true)
      → ((r : EscalatedAlert) → (f r).first_seen_at ≡ r.first_seen_at)
      → StartsAt c now t
      → StartsAt c now (update (λ r. r.id) i f t)
  StartsAt-update i f t opens same =
      All-update (λ (r : EscalatedAlert). r.id)
        (λ r. is_open_for c r ≡ true → r.first_seen_at ≡ now) i f t
        (λ r e p q. same r ∙ p (opens r q))

  StartsAt-update_each :
      (f : EscalatedAlert → EscalatedAlert) (ss t : Alerts)
      → ((r : EscalatedAlert) → is_open_for c (f r) ≡ true → is_open_for c r ≡ true)
      → ((r : EscalatedAlert) → (f r).first_seen_at ≡ r.first_seen_at)
      → StartsAt c now t
      → StartsAt c now (update_each (λ r. r.id) f ss t)
  unfolding update_each
  StartsAt-update_each f [] t opens same h = h
  StartsAt-update_each f (s ∷ ss) t opens same h =
      StartsAt-update_each f ss (update (λ r. r.id) s.id f t) opens same
        (StartsAt-update s.id f t opens same h)

module _ (c : String) (w : World) (codes : List (String × String)) where
  StartsAt-write_alert :
      (a : PendingAlert) (t : Alerts) (found : Option EscalatedAlert)
      → StartsAt c w.now t
      → StartsAt c w.now (write_alert w codes a t found)
  unfolding write_alert
  StartsAt-write_alert a t none h =
      All-append (λ r. is_open_for c r ≡ true → r.first_seen_at ≡ w.now) t _ h ((λ q. refl), tt)
  StartsAt-write_alert a t (some e) h =
      refresh_existing-keeps (StartsAt c w.now) w a e t
        (λ u p. StartsAt-update c w.now e.id (update_counts w.now a) u (λ r q. q) (λ r. refl) p)
        (λ x u p. StartsAt-update c w.now e.id end_suppression u (λ r q. q) (λ r. refl) p)
        (λ x u p. StartsAt-update c w.now e.id end_acknowledgement u (λ r q. q) (λ r. refl) p) h

  StartsAt-process_alerts :
      (pending : List PendingAlert) (t : Alerts)
      → StartsAt c w.now t
      → StartsAt c w.now (process_alerts w codes pending t)
  unfolding process_alerts process_alert
  StartsAt-process_alerts [] t h = h
  StartsAt-process_alerts (a ∷ rest) t h =
      StartsAt-process_alerts rest (process_alert w codes a t)
        (StartsAt-write_alert a t (find_open a.client_id t) h)

All-Unit : (ss : Alerts) → All (λ (r : EscalatedAlert). Unit {0}) ss
All-Unit [] = tt
All-Unit (s ∷ ss) = (tt, All-Unit ss)

-- A client with no unresolved alert before the run has, after it, only unresolved alerts whose
-- firstSeenAt is the time of the run.
pub process_escalations-StartsAt :
    (w : World) (codes : List (String × String)) (pending : List PendingAlert) (t : Alerts)
    (c : String)
    → open_count c t ≡ 0
    → StartsAt c w.now (process_escalations w codes pending t)
unfolding process_escalations resolve_absent
process_escalations-StartsAt w codes pending t c h =
    process_auto_escalation-keeps (StartsAt c w.now) (λ r. Unit)
      (λ now emails ss u _ p.
        StartsAt-update_each c w.now (mark_sent now emails) ss u (λ r q. q) (λ r. refl) p)
      (λ k ss u _ p.
        StartsAt-update_each c w.now (auto_acknowledge k) ss u (λ r q. q) (λ r. refl) p)
      w.cfg w.auto w.mailer w.recipients _ (All-Unit _) (All-Unit _)
      (StartsAt-update_each c w.now (resolve w.now) _ (process_alerts w codes pending t)
        (λ r q. ground arith) (λ r. refl)
        (StartsAt-process_alerts c w codes pending t (StartsAt-of_none c w.now t h)))
