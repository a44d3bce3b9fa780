-- ===== src/DbMonitor.antt =====
-- backend/src/routes/db-monitor.ts: the two routes that feed the escalation service from the batch
-- queues. `clients` is the batch summary, one entry for each client; a count that is missing is 0.
-- The answers of the routes are not modelled.
pub mod Laws
use Prim.Native.String
use wfmcontrol_m.Prelude.{
  ℕ, String, Bool, ◌&&◌, List, [], ◌∷◌, map, str_eq, ltb, if◌then◌else◌, filter, any, sum, not,
  true, false,
}
use wfmcontrol_m.Escalation.{Alerts, resolve_client_escalation}
use wfmcontrol_m.Escalation.Process.{PendingAlert, World, process_escalations}

pub record BatchJobGroup : Type 0 where
  pub job_type : String
  pub stale_pending : ℕ
  pub pending : ℕ

pub record ClientBatch : Type 0 where
  pub client_id : String
  pub groups : List BatchJobGroup

abbrev pub contains : List String → String → Bool
contains set s = any (λ t. str_eq t s) set

-- `${clientId}::${jobName}`
abbrev pub critical_key : String → String → String
critical_key c job = String.◌++◌ c (String.◌++◌ "::" job)

unfoldable pub critical_groups : List String → ClientBatch → List BatchJobGroup
critical_groups set e = filter (λ g. contains set (critical_key e.client_id g.job_type)) e.groups

abbrev pub total_stale : List BatchJobGroup → ℕ
total_stale gs = sum (map (λ g. g.stale_pending) gs)

abbrev pub total_pending : List BatchJobGroup → ℕ
total_pending gs = sum (map (λ g. g.pending) gs)

-- The clients whose critical jobs have stale pending rows.
unfoldable pub critical_pending_alerts : List String → List ClientBatch → List PendingAlert
critical_pending_alerts set [] = []
critical_pending_alerts set (e ∷ rest) =
    let gs = critical_groups set e in
    let others = critical_pending_alerts set rest in
    if ltb 0 (total_stale gs)
    then record {
      client_id = e.client_id;
      stale_pending_count = total_stale gs;
      total_pending = total_pending gs;
    }
      ∷ others
    else others

-- GET /db-clients/batch-status-all
unfoldable pub batch_status_all :
    World → List (String × String) → List String → List ClientBatch → Alerts → Alerts
batch_status_all w codes set clients t =
    process_escalations w codes (critical_pending_alerts set clients) t

abbrev is_empty : List String → Bool
is_empty [] = true
is_empty (x ∷ xs) = false

-- GET /db-clients/:clientId/batch-status; `names` are the critical jobs of this client
unfoldable pub batch_status_client :
    World → List (String × String) → List String → ClientBatch → Alerts → Alerts
batch_status_client w codes names e t =
    let gs = filter (λ (g : BatchJobGroup). contains names g.job_type) e.groups in
    if not (is_empty names) && ltb 0 (total_stale gs)
    then process_escalations w codes
        (record {
          client_id = e.client_id;
          stale_pending_count = total_stale gs;
          total_pending = total_pending gs;
        }
          ∷ [])
        t
    else if not (ltb 0 (total_stale e.groups))
    then resolve_client_escalation w.now e.client_id t
    else t
