-- ===== src/Sync/Bulk.antt =====
-- syncClient, syncAllCrons and syncAllClients, and the report on the last run of many clients. The
-- surroundings of the sync of each client, its clocks among them, are functions of the client's place in
-- the list. The waits between clients are left out.
pub mod Laws
use wfmcontrol_m.Prelude.{
  ℕ, zero, suc, ◌+◌, Bool, true, false, not, ◌&&◌, Option, none, some, List, [], ◌∷◌, ◌++◌, map,
  any, filter, find, count, length, ltb, leb, ◌==◌, if◌then◌else◌, get_or,
}
use wfmcontrol_m.Text.{Text, text, is_empty}
use wfmcontrol_m.Sync.{Client, SyncStatus, sync_running, sync_success, sync_failed, sync_partial}
use wfmcontrol_m.Sync.Ssh.{Reply, resolved, rejected}
use wfmcontrol_m.Sync.LogCheck.{LogCheckResult}
use wfmcontrol_m.Sync.LogCheck.Store.{LogStore, LogExecution, Remote, check_client_logs}
use wfmcontrol_m.Sync.Discovery.{
  SyncStore, SyncResult, SyncHistory, sync_client_crons, sync_disabled_error, is_running,
}
use wfmcontrol_m.Sync.Discovery.Entry.{CronEnv}

-- The tables, and the flag of the service.
pub record World : Type 0 where
  pub store : SyncStore
  pub executions : List LogExecution
  pub is_syncing : Bool

-- Where the sync of a client runs.
pub record Place : Type 0 where
  pub cron : CronEnv
  pub remote : Remote

pub record Totals : Type 0 where
  pub total : ℕ
  pub succeeded : ℕ
  pub failed : ℕ
  pub skipped : ℕ
  pub results : List SyncResult

unfoldable pub check_after : Place → ℕ → World → World
check_after place id w =
    let checked =
      check_client_logs place.remote (find (λ c. c.id == id) w.store.clients)
        (record { jobs = w.store.jobs; executions = w.executions }) in
    record w {
      store = record (w.store) { jobs = checked.0.jobs };
      executions = checked.0.executions;
    }

abbrev answered : Reply SyncResult → List SyncResult
answered (resolved r) = r ∷ []
answered (rejected e) = []

-- Both errors are logged and dropped.
unfoldable pub sync_client : Place → Bool → ℕ → World → World × Reply (List SyncResult)
sync_client place force id w =
    let done = sync_client_crons place.cron force id w.store in
    (check_after place id (record w { store = done.0 }), resolved (answered done.1))

abbrev failed_result : Client → Text → SyncResult
failed_result c message = record {
  code = c.code;
  status = sync_failed;
  jobs_discovered = 0;
  jobs_created = 0;
  jobs_updated = 0;
  jobs_removed = 0;
  errors = message ∷ [];
  skipped = false;
}

unfoldable pub tally_cron : Client → Reply SyncResult → Totals → Totals
tally_cron c (resolved r) t =
    if r.skipped
    then record t { skipped = suc t.skipped; results = t.results ++ r ∷ [] }
    else record t { succeeded = suc t.succeeded; results = t.results ++ r ∷ [] }
tally_cron c (rejected e) t = record t {
  failed = suc t.failed;
  results = t.results ++ failed_result c e ∷ [];
}

unfoldable pub sync_crons_of :
    (ℕ → Place) → Bool → ℕ → List Client → World → Totals → World × Totals
sync_crons_of places force i [] w t = (w, t)
sync_crons_of places force i (c ∷ cs) w t =
    let done = sync_client_crons (places i).cron force c.id w.store in
    sync_crons_of places force (suc i) cs (record w { store = done.0 }) (tally_cron c done.1 t)

abbrev was_skipped : List SyncResult → Bool
was_skipped rs = any (λ r. r.skipped) rs

unfoldable pub tally_client : Reply (List SyncResult) → Totals → Totals
tally_client (rejected e) t = record t { failed = suc t.failed }
tally_client (resolved rs) t =
    if was_skipped rs
    then record t { skipped = suc t.skipped; results = t.results ++ rs }
    else record t { succeeded = suc t.succeeded; results = t.results ++ rs }

unfoldable pub sync_clients_of :
    (ℕ → Place) → Bool → ℕ → List Client → World → Totals → World × Totals
sync_clients_of places force i [] w t = (w, t)
sync_clients_of places force i (c ∷ cs) w t =
    let done = sync_client (places i) force c.id w in
    sync_clients_of places force (suc i) cs done.0 (tally_client done.1 t)

abbrev pub start_totals : List Client → Totals
start_totals cs = record { total = length cs; succeeded = 0; failed = 0; skipped = 0; results = [] }

abbrev pub active_clients : World → List Client
active_clients w = filter (λ c. c.is_active) w.store.clients

abbrev in_progress_error : Text
in_progress_error = text "A sync operation is already in progress"

-- `finally` clears the flag.
abbrev pub released : World × Totals → World × Reply Totals
released (w, t) = (record w { is_syncing = false }, resolved t)

abbrev pub with_credentials : Option Text → World → World × Totals → World × Reply Totals
with_credentials (some e) w done = (record w { is_syncing = false }, rejected e)
with_credentials none w done = released done

unfoldable pub sync_all_crons : (ℕ → Place) → Bool → World → World × Reply Totals
sync_all_crons places force w =
    let cs = active_clients w in
    let held = record w { is_syncing = true } in
    if not (places 0).cron.sync_enabled
    then (w, rejected sync_disabled_error)
    else if w.is_syncing
    then (w, rejected in_progress_error)
    else with_credentials (places 0).cron.credentials w
        (sync_crons_of places force 0 cs held (start_totals cs))

unfoldable pub sync_all_clients : (ℕ → Place) → Bool → World → World × Reply Totals
sync_all_clients places force w =
    let cs = active_clients w in
    let held = record w { is_syncing = true } in
    if not (places 0).cron.sync_enabled
    then (w, rejected sync_disabled_error)
    else if w.is_syncing
    then (w, rejected in_progress_error)
    else with_credentials (places 0).cron.credentials w
        (sync_clients_of places force 0 cs held (start_totals cs))

-- getRecentCronSyncBatch.
unfoldable pub fail_stale : ℕ → SyncHistory → SyncHistory
fail_stale now h =
    if is_running h.status && ltb (h.created_at + 600000) now
    then record h {
      status = sync_failed;
      errors = text "Sync interrupted — no completion recorded" ∷ [];
      completed_at = some now;
    }
    else h

-- The rows up to the first gap of more than 15 minutes; `last` is the time of the row before.
unfoldable pub batch_from : ℕ → List SyncHistory → List SyncHistory
batch_from last [] = []
batch_from last (h ∷ hs) =
    let rest = batch_from h.created_at hs in
    if ltb (h.created_at + 900000) last then [] else h ∷ rest

unfoldable pub batch_of : List SyncHistory → List SyncHistory
batch_of [] = []
batch_of (h ∷ hs) = h ∷ batch_from h.created_at hs

abbrev pub has_status : ℕ → SyncStatus → Bool
has_status k sync_success = k == 0
has_status k sync_partial = k == 1
has_status k sync_failed = k == 2
has_status k sync_running = k == 3

-- The first error of a failed row, if it is not empty.
abbrev sample_error : SyncHistory → List (ℕ × Text)
sample_error h =
    if has_status 2 h.status
    then elim h.errors [ [] ↦ [] | e ∷ es ↦ if is_empty e then [] else (h.client_id, e) ∷ [] ]
    else []

-- `room` errors at most.
unfoldable pub sample_errors : ℕ → List SyncHistory → List (ℕ × Text)
sample_errors zero hs = []
sample_errors (suc room) [] = []
sample_errors (suc room) (h ∷ hs) =
    let rest = sample_errors room hs in
    let more = sample_errors (suc room) hs in
    elim (sample_error h) [ [] ↦ more | e ∷ es ↦ e ∷ rest ]

abbrev finished : SyncHistory → ℕ
finished h = get_or h.completed_at h.created_at

abbrev later_of : ℕ → ℕ → ℕ
later_of a b = if ltb a b then b else a

unfoldable pub latest : ℕ → List SyncHistory → ℕ
latest t [] = t
latest t (h ∷ hs) = latest (later_of t (finished h)) hs

abbrev earliest : ℕ → List SyncHistory → ℕ
earliest t [] = t
earliest t (h ∷ hs) = earliest h.created_at hs

pub record BatchReport : Type 0 where
  pub started_at : ℕ
  pub finished_at : ℕ
  pub total : ℕ
  pub succeeded : ℕ
  pub partial : ℕ
  pub failed : ℕ
  pub running : ℕ
  pub errors : List (ℕ × Text)

unfoldable pub report_of : SyncHistory → List SyncHistory → BatchReport
report_of h hs =
    let batch = h ∷ hs in
    record {
      started_at = earliest h.created_at hs;
      finished_at = latest (finished h) hs;
      total = length batch;
      succeeded = count (λ r. has_status 0 r.status) batch;
      partial = count (λ r. has_status 1 r.status) batch;
      failed = count (λ r. has_status 2 r.status) batch;
      running = count (λ r. has_status 3 r.status) batch;
      errors = sample_errors 8 batch;
    }

abbrev pub report_on : List SyncHistory → Option BatchReport
report_on [] = none
report_on (h ∷ hs) = some (report_of h hs)

unfoldable pub first_rows : ℕ → List SyncHistory → List SyncHistory
first_rows zero hs = []
first_rows (suc k) [] = []
first_rows (suc k) (h ∷ hs) = h ∷ first_rows k hs

unfoldable pub rows_after : ℕ → List SyncHistory → List SyncHistory
rows_after zero hs = hs
rows_after (suc k) [] = []
rows_after (suc k) (h ∷ hs) = rows_after k hs

-- The table after it, and the answer. `history` has the rows of the type CRON_SYNC, the latest first; the
-- query takes 150 of them.
unfoldable pub get_recent_cron_sync_batch :
    ℕ → List SyncHistory → List SyncHistory × Option BatchReport
get_recent_cron_sync_batch now history =
    let rows = map (fail_stale now) (first_rows 150 history) in
    (rows ++ rows_after 150 history, report_on (batch_of rows))
