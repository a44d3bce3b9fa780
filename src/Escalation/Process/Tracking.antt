-- ===== src/Escalation/Process/Tracking.antt =====
-- processEscalations keeps the table in step with the clients that are pending.
use wfmcontrol_m.Prelude.{
  ℕ, ◌≤◌, String, true, Bool-cases, inl, inr, ◌≡◌, refl, ◌≢◌, ◌&&◌, not, Option, none, some, List,
  [], ◌∷◌, ◌++◌, arith, ◌==◌, str_eq, eq_iff, if◌then◌else◌, All, All-append, count, count-append,
  ap, ◌∙◌, map, sym,
}
use wfmcontrol_m.Table.{IsKeyed}
use wfmcontrol_m.Table.Laws.{count-update, IsKeyed-update, update_each-filter}
use wfmcontrol_m.Escalation.{Alerts, EscalatedAlert, is_open_for, is_unresolved, resolve}
use wfmcontrol_m.Escalation.Notify.Laws.{count-process_auto_escalation}
use wfmcontrol_m.Escalation.Process.Frame.{refresh_existing-keeps}
use wfmcontrol_m.Escalation.Process.{
  PendingAlert, World, find_open, refresh_existing, process_alert, process_alerts, is_pending,
  resolve_absent, process_escalations, write_alert, update_counts, end_suppression,
  end_acknowledgement, new_alert,
}

-- The number of unresolved alerts of a client.
abbrev pub open_count : String → Alerts → ℕ
open_count c t = count (is_open_for c) t

abbrev pub IsTable : Alerts → Type 0
IsTable t = IsKeyed (λ r. r.id) t

-- The database hands out ids that are not in use.
abbrev pub IsFresh : World → Type 0
IsFresh w = (t : Alerts) → All (λ r. r.id ≢ w.fresh t) t

abbrev Finds : String → Alerts → Option EscalatedAlert → Type 0
Finds c t none = open_count c t ≡ 0
Finds c t (some e) = 1 ≤ open_count c t

find_open-Finds : (c : String) (t : Alerts) → Finds c t (find_open c t)
unfolding find_open
find_open-Finds c [] = refl
find_open-Finds c (r ∷ t) = ground (arith, find_open-Finds c t)

open_count-refresh_existing :
    (c : String) (w : World) (a : PendingAlert) (e : EscalatedAlert) (t : Alerts)
    → open_count c (refresh_existing w a e t) ≡ open_count c t
open_count-refresh_existing c w a e t =
    refresh_existing-keeps (λ u. open_count c u ≡ open_count c t) w a e t
      (λ u p.
        count-update (λ r. r.id) (is_open_for c) e.id (update_counts w.now a) u (λ r. refl) ∙ p)
      (λ x u p. count-update (λ r. r.id) (is_open_for c) e.id end_suppression u (λ r. refl) ∙ p)
      (λ x u p. count-update (λ r. r.id) (is_open_for c) e.id end_acknowledgement u (λ r. refl) ∙ p)
      refl

module _ (w : World) (codes : List (String × String)) where
  open_count-write_alert :
      (c : String) (a : PendingAlert) (t : Alerts) (o : Option EscalatedAlert)
      → Finds a.client_id t o
      → open_count c (write_alert w codes a t o)
        ≡ (if str_eq a.client_id c && open_count c t == 0 then 1 else open_count c t)
  unfolding write_alert
  open_count-write_alert c a t none h = ground (
    arith,
    eq_iff a.client_id c,
    count-append (is_open_for c) t (new_alert w codes a (w.fresh t) ∷ []),
  )
  open_count-write_alert c a t (some e) h =
      ground (arith, eq_iff a.client_id c, open_count-refresh_existing c w a e t)

  -- The loop opens an alert for each pending client that has none, and only for those.
  open_count-process_alerts :
      (c : String) (pending : List PendingAlert) (t : Alerts)
      → open_count c (process_alerts w codes pending t)
        ≡ (if is_pending pending c && open_count c t == 0 then 1 else open_count c t)
  unfolding process_alerts process_alert
  open_count-process_alerts c [] t = refl
  open_count-process_alerts c (a ∷ rest) t = ground (
    arith,
    open_count-write_alert c a t (find_open a.client_id t) (find_open-Finds a.client_id t),
    open_count-process_alerts c rest (process_alert w codes a t),
  )

  module _ (fresh : IsFresh w) where
    IsTable-append :
        (t : Alerts) (r : EscalatedAlert)
        → All (λ s. s.id ≢ r.id) t
        → IsTable t
        → IsTable (t ++ r ∷ [])
    IsTable-append [] r n h = (tt, tt)
    IsTable-append (s ∷ t) r (n, ns) (m, h) =
        (All-append (λ u. u.id ≢ s.id) t (r ∷ []) m (λ e. n (sym e), tt), IsTable-append t r ns h)

    IsTable-refresh_existing :
        (a : PendingAlert) (e : EscalatedAlert) (t : Alerts)
        → IsTable t
        → IsTable (refresh_existing w a e t)
    IsTable-refresh_existing a e t h =
        refresh_existing-keeps IsTable w a e t
          (λ u p. IsKeyed-update (λ r. r.id) (update_counts w.now a) (λ r. refl) e.id u p)
          (λ x u p. IsKeyed-update (λ r. r.id) end_suppression (λ r. refl) e.id u p)
          (λ x u p. IsKeyed-update (λ r. r.id) end_acknowledgement (λ r. refl) e.id u p) h

    IsTable-write_alert :
        (a : PendingAlert) (t : Alerts) (o : Option EscalatedAlert)
        → IsTable t
        → IsTable (write_alert w codes a t o)
    unfolding write_alert
    IsTable-write_alert a t none h = IsTable-append t _ (fresh t) h
    IsTable-write_alert a t (some e) h = IsTable-refresh_existing a e t h

    pub IsTable-process_alerts :
        (pending : List PendingAlert) (t : Alerts)
        → IsTable t
        → IsTable (process_alerts w codes pending t)
    unfolding process_alerts process_alert
    IsTable-process_alerts [] t h = h
    IsTable-process_alerts (a ∷ rest) t h =
        IsTable-process_alerts rest (process_alert w codes a t)
          (IsTable-write_alert a t (find_open a.client_id t) h)

open_count-map-resolve :
    (c : String) (now : ℕ) (pending : List PendingAlert) (t : Alerts)
    → open_count c (
        map
          (λ r.
            if is_unresolved r && not (is_pending pending r.client_id) then resolve now r else r)
          t)
      ≡ (if is_pending pending c then open_count c t else 0)
open_count-map-resolve c now pending [] = ground arith
open_count-map-resolve c now pending (r ∷ t) =
    ground (arith, eq_iff r.client_id c, open_count-map-resolve c now pending t)

open_count-resolve_absent :
    (c : String) (now : ℕ) (pending : List PendingAlert) (t : Alerts)
    → IsTable t
    → open_count c (resolve_absent now pending t)
      ≡ (if is_pending pending c then open_count c t else 0)
unfolding resolve_absent
open_count-resolve_absent c now pending t h =
    ap (open_count c) (update_each-filter (λ r. r.id) (resolve now) (λ r. refl) _ t h)
    ∙ open_count-map-resolve c now pending t

-- After a run, every pending client has exactly one unresolved alert, if it had at most one before,
-- and every other client has none, however many it had. The ids of the table are distinct, and the
-- database hands out ids that are not in use.
pub process_escalations-tracks :
    (w : World) (codes : List (String × String)) (pending : List PendingAlert) (t : Alerts)
    (c : String)
    → IsFresh w
    → IsTable t
    → (is_pending pending c ≡ true → open_count c t ≤ 1)
    → open_count c (process_escalations w codes pending t) ≡ (if is_pending pending c then 1 else 0)
unfolding process_escalations
process_escalations-tracks w codes pending t c fresh h one =
    let kept =
      count-process_auto_escalation (is_open_for c) (λ now emails r. refl) (λ k r. refl) w.cfg
        w.auto w.mailer w.recipients
        (resolve_absent w.now pending (process_alerts w codes pending t)) in
    let resolved =
      open_count-resolve_absent c w.now pending (process_alerts w codes pending t)
        (IsTable-process_alerts w codes fresh pending t h) in
    elim (Bool-cases (is_pending pending c)) [
      | inl e ↦
          let at_most = one e in
          ground (arith, e, kept, resolved, open_count-process_alerts w codes c pending t)
      | inr e ↦ ground (arith, e, kept, resolved)
    ]
