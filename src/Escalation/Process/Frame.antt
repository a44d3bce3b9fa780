-- ===== src/Escalation/Process/Frame.antt =====
-- A property of the table that each write of `refresh_existing` keeps is kept by all of them.
use wfmcontrol_m.Prelude.{◌≡◌, true, Bool-cases, inl, inr}
use wfmcontrol_m.Table.{update}
use wfmcontrol_m.Escalation.{Alerts, EscalatedAlert}
use wfmcontrol_m.Escalation.Process.{
  PendingAlert, World, refresh_existing, update_counts, end_suppression, end_acknowledgement,
  suppression_expired, auto_ack_expired,
}

pub refresh_existing-keeps :
    (P : Alerts → Type 0) (w : World) (a : PendingAlert) (e : EscalatedAlert) (t : Alerts)
    → ((u : Alerts) → P u → P (update (λ r. r.id) e.id (update_counts w.now a) u))
    → (suppression_expired w.now e ≡ true
        → (u : Alerts) → P u
        → P (update (λ r. r.id) e.id end_suppression u))
    → (auto_ack_expired w.cfg w.now e ≡ true
        → (u : Alerts) → P u
        → P (update (λ r. r.id) e.id end_acknowledgement u))
    → P t
    → P (refresh_existing w a e t)
unfolding refresh_existing
refresh_existing-keeps P w a e t counts supp ack h =
    let counted = counts t h in
    elim (Bool-cases (auto_ack_expired w.cfg w.now e)) [
      | inl x ↦ elim (Bool-cases (suppression_expired w.now e)) [
        | inl y ↦ rw (x, y) (ack x _ (supp y _ counted))
        | inr y ↦ rw (x, y) (ack x _ counted)
      ]
      | inr x ↦ elim (Bool-cases (suppression_expired w.now e)) [
        | inl y ↦ rw (x, y) (supp y _ counted)
        | inr y ↦ rw (x, y) counted
      ]
    ]
