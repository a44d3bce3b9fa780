-- ===== src/DbMonitor/Laws.antt =====
-- What the two routes do to the escalated alerts.
use wfmcontrol_m.Prelude.{
  ◌≤◌, ◌<◌, String, ◌≡◌, refl, ◌≢◌, Bool, false, ◌&&◌, ◌||◌, ◌∙◌, List, [], ◌∷◌, str_eq, eq_iff,
  ltb, lt→ltb, if◌then◌else◌, any, arith, filter,
}
use wfmcontrol_m.Escalation.{Alerts}
use wfmcontrol_m.Escalation.Process.{World, is_pending}
use wfmcontrol_m.Escalation.Process.Tracking.{
  open_count, IsFresh, IsTable, process_escalations-tracks,
}
use wfmcontrol_m.Escalation.Process.Restart.{StartsAt, process_escalations-StartsAt}
use wfmcontrol_m.DbMonitor.{
  ClientBatch, BatchJobGroup, critical_groups, critical_pending_alerts, total_stale,
  batch_status_all, batch_status_client, contains,
}

-- The client has an entry whose critical jobs have stale pending rows.
abbrev pub has_critical_stale : List String → List ClientBatch → String → Bool
has_critical_stale set clients c =
    any (λ e. str_eq e.client_id c && ltb 0 (total_stale (critical_groups set e))) clients

is_pending-critical_pending_alerts :
    (set : List String) (clients : List ClientBatch) (c : String)
    → is_pending (critical_pending_alerts set clients) c ≡ has_critical_stale set clients c
unfolding critical_pending_alerts
is_pending-critical_pending_alerts set [] c = refl
is_pending-critical_pending_alerts set (e ∷ rest) c =
    ground (arith, is_pending-critical_pending_alerts set rest c)

-- After the poll of all clients a client has exactly one unresolved escalated alert if a critical
-- job of it has stale pending rows, and none otherwise. Before it the client had at most one, the
-- ids were distinct, and the database hands out ids that are not in use.
pub batch_status_all-tracks :
    (w : World) (codes : List (String × String)) (set : List String) (clients : List ClientBatch)
    (t : Alerts) (c : String)
    → IsFresh w
    → IsTable t
    → open_count c t ≤ 1
    → open_count c (batch_status_all w codes set clients t)
      ≡ (if has_critical_stale set clients c then 1 else 0)
unfolding batch_status_all
batch_status_all-tracks w codes set clients t c fresh h one =
    rw (← is_pending-critical_pending_alerts) (
      process_escalations-tracks w codes (critical_pending_alerts set clients) t c fresh h
        (λ e. one))

abbrev pub critical_of : List String → ClientBatch → List BatchJobGroup
critical_of names e = filter (λ g. contains names g.job_type) e.groups

-- The poll of one client with critical jobs that have stale rows resolves the unresolved alert of
-- every other client, whose queues it has not looked at. The other client had at most one such
-- alert, the ids were distinct, and the database hands out ids that are not in use.
pub batch_status_client-resolves_others :
    (w : World) (codes : List (String × String)) (names : List String) (e : ClientBatch)
    (t : Alerts) (c : String)
    → IsFresh w
    → IsTable t
    → open_count c t ≤ 1
    → names ≢ []
    → 0 < total_stale (critical_of names e)
    → e.client_id ≢ c
    → open_count c (batch_status_client w codes names e t) ≡ 0
unfolding batch_status_client
batch_status_client-resolves_others w codes [] e t c fresh h one some_name stale other =
    absurd (some_name refl)
batch_status_client-resolves_others w codes (n ∷ names) e t c fresh h one some_name stale other =
    rw (lt→ltb _ _ stale) (
      process_escalations-tracks w codes _ t c fresh h (λ e. one)
      ∙ let absent : (if str_eq e.client_id c || false then 1 else 0) ≡ 0 =
          ground (arith, eq_iff e.client_id c) in
        absent)

-- After the poll of one client with critical jobs that have stale rows, the next poll of all
-- clients starts the escalation time of every other client anew: each unresolved alert that such a
-- client then has was first seen at that second poll. The other client had at most one unresolved
-- alert, the ids were distinct, and the database hands out ids that are not in use.
pub batch_status_client-restarts_others :
    (w w' : World) (codes : List (String × String)) (names set : List String) (e : ClientBatch)
    (clients : List ClientBatch) (t : Alerts) (c : String)
    → IsFresh w
    → IsTable t
    → open_count c t ≤ 1
    → names ≢ []
    → 0 < total_stale (critical_of names e)
    → e.client_id ≢ c
    → StartsAt c w'.now
        (batch_status_all w' codes set clients (batch_status_client w codes names e t))
unfolding batch_status_all
batch_status_client-restarts_others w w' codes names set e clients t c fresh h one some_name stale
      other =
    process_escalations-StartsAt w' codes (critical_pending_alerts set clients) _ c
      (batch_status_client-resolves_others w codes names e t c fresh h one some_name stale other)
