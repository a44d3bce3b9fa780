-- ===== src/Scheduler.antt =====
-- engine/scheduler.ts: the cron tasks, the checks after expected runs, and the start of an execution.
-- `next_run` is cron-parser's next time of an expression in a zone (`none` where it throws) and
-- `validate` is node-cron's. A timer is its due time. Times are milliseconds. The maps are lists,
-- newest entry first.
pub mod Laws
use wfmcontrol_m.Prelude.{
  ℕ, ◌+◌, ◌*◌, Bool, true, false, ◌&&◌, ◌||◌, not, Option, none, some, List, [], ◌∷◌, ◌++◌, map,
  filter, any, count, if◌then◌else◌, ◌==◌, leb, ltb, is_some, is_none,
}
use wfmcontrol_m.Text.{Text, text, text_eq, is_empty}
use wfmcontrol_m.Executor.{ExecutionStatus, pending, queued, running}

pub record Job : Type 0 where
  pub id : ℕ
  pub client_id : Text
  pub is_active : Bool
  pub deleted : Bool
  pub cron_expression : Option Text
  pub timezone : Text
  pub server_timezone : Option Text
  pub log_check_enabled : Bool
  pub log_path : Option Text
  pub remote_log_tail_enabled : Bool
  pub max_concurrency : ℕ
  pub max_retries : Option ℕ

pub record PendingCheck : Type 0 where
  pub job_id : ℕ
  pub expected_run_time : ℕ
  pub scheduled_check_time : ℕ

pub record Scheduler : Type 0 where
  pub is_running : Bool
  pub scheduled_tasks : List (ℕ × Text)
  pub pending_status_checks : List PendingCheck

-- Stopping the cron task is deleting it: a task that is not in the map does not fire.
unfoldable pub unschedule_job : ℕ → Scheduler → Scheduler
unschedule_job job s = record s {
  scheduled_tasks = filter (λ t. not (t.0 == job)) s.scheduled_tasks;
}

unfoldable pub schedule_job : (Text → Bool) → ℕ → Text → Scheduler → Scheduler
schedule_job validate job expression s =
    if validate expression
    then record s {
      scheduled_tasks = (job, expression) ∷ filter (λ t. not (t.0 == job)) s.scheduled_tasks;
    }
    else s

abbrev schedule_loaded : (Text → Bool) → Job → Option Text → Scheduler → Scheduler
schedule_loaded validate j none s = s
schedule_loaded validate j (some expression) s =
    if j.is_active && not (is_empty expression) then schedule_job validate j.id expression s else s

-- The query of loadScheduledJobs and its loop, over the table of jobs.
unfoldable pub load_scheduled_jobs : (Text → Bool) → List Job → Scheduler → Scheduler
load_scheduled_jobs validate [] s = s
load_scheduled_jobs validate (j ∷ js) s =
    load_scheduled_jobs validate js (schedule_loaded validate j j.cron_expression s)

unfoldable pub stop : Scheduler → Scheduler
stop s = record { is_running = false; scheduled_tasks = []; pending_status_checks = [] }

-- The settings of a scan: the switch, and two intervals in minutes.
pub record ScanSettings : Type 0 where
  pub sync_enabled : Bool
  pub upcoming_scan_interval_mins : ℕ
  pub post_run_check_delay_mins : ℕ

abbrev pub minutes : ℕ → ℕ
minutes n = n * 60 * 1000

-- The `where` of the query, and the test at the head of the loop.
unfoldable pub is_scanned : Job → Bool
is_scanned j =
    j.is_active
    && not j.deleted
    && is_some j.cron_expression
    && j.log_check_enabled
    && is_some j.log_path
    && j.remote_log_tail_enabled
    && not (is_empty j.client_id)

abbrev or_zone : Text → Text
or_zone zone = if is_empty zone then text "UTC" else zone

abbrev pub zone_of : Job → Text
zone_of j = elim j.server_timezone [
  | none ↦ or_zone j.timezone
  | some zone ↦ if is_empty zone then or_zone j.timezone else zone
]

abbrev pub run_of : (Text → Text → Option ℕ) → Job → Option Text → Option ℕ
run_of next_run j none = none
run_of next_run j (some expression) =
    if is_empty expression then none else next_run expression (zone_of j)

abbrev pub same_check : ℕ → ℕ → PendingCheck → Bool
same_check job run c = c.job_id == job && c.expected_run_time == run

unfoldable pub add_check : ScanSettings → ℕ → ℕ → Option ℕ → List PendingCheck → List PendingCheck
add_check cfg now job none checks = checks
add_check cfg now job (some run) checks =
    if ltb now run
      && leb run (now + minutes cfg.upcoming_scan_interval_mins)
      && not (any (same_check job run) checks)
    then record {
      job_id = job;
      expected_run_time = run;
      scheduled_check_time = run + minutes cfg.post_run_check_delay_mins;
    }
      ∷ checks
    else checks

unfoldable pub scan_jobs :
    ScanSettings → (Text → Text → Option ℕ) → ℕ → List Job → List PendingCheck → List PendingCheck
scan_jobs cfg next_run now [] checks = checks
scan_jobs cfg next_run now (j ∷ js) checks =
    let added = add_check cfg now j.id (run_of next_run j j.cron_expression) checks in
    if is_scanned j
    then scan_jobs cfg next_run now js added
    else scan_jobs cfg next_run now js checks

-- An entry whose check was due more than five minutes ago.
unfoldable pub is_stale : ℕ → PendingCheck → Bool
is_stale now c = ltb (c.scheduled_check_time + minutes 5) now

unfoldable pub scan_upcoming_jobs :
    ScanSettings → (Text → Text → Option ℕ) → ℕ → List Job → Scheduler → Scheduler
scan_upcoming_jobs cfg next_run now jobs s =
    if cfg.sync_enabled
    then record s {
      pending_status_checks =
          filter (λ c. not (is_stale now c))
            (scan_jobs cfg next_run now jobs s.pending_status_checks);
    }
    else s

-- executeStatusCheck, whatever the check gives: its entry is removed.
unfoldable pub execute_status_check : ℕ → ℕ → Scheduler → Scheduler
execute_status_check job run s = record s {
  pending_status_checks = filter (λ c. not (same_check job run c)) s.pending_status_checks;
}

pub record JobExecutionRow : Type 0 where
  pub id : ℕ
  pub job_id : ℕ
  pub status : ExecutionStatus
  pub scheduled_at : ℕ
  pub triggered_by : Text
  pub max_attempts : ℕ

pub data TriggerResult : Type 0 where
  job_not_found : TriggerResult
  job_inactive : TriggerResult
  created : JobExecutionRow → TriggerResult

abbrev pub is_running_status : ExecutionStatus → Bool
is_running_status running = true
is_running_status _ = false

unfoldable pub running_count : ℕ → List JobExecutionRow → ℕ
running_count job rows = count (λ r. r.job_id == job && is_running_status r.status) rows

abbrev pub status_for : ℕ → ℕ → ExecutionStatus
status_for active limit = if leb limit active then queued else pending

abbrev attempts_for : Option ℕ → ℕ
attempts_for none = 1
attempts_for (some retries) = retries + 1

abbrev pub row_for : ℕ → ℕ → Text → Job → List JobExecutionRow → JobExecutionRow
row_for fresh now by j rows = record {
  id = fresh;
  job_id = j.id;
  status = status_for (running_count j.id rows) j.max_concurrency;
  scheduled_at = now;
  triggered_by = by;
  max_attempts = attempts_for j.max_retries;
}

abbrev pub trigger_found :
    ℕ → ℕ → Text → Option Job → List JobExecutionRow → TriggerResult × List JobExecutionRow
trigger_found fresh now by none rows = (job_not_found, rows)
trigger_found fresh now by (some j) rows =
    if j.is_active
    then (created (row_for fresh now by j rows), row_for fresh now by j rows ∷ rows)
    else (job_inactive, rows)

unfoldable pub find_job : ℕ → List Job → Option Job
find_job i [] = none
find_job i (j ∷ js) = if j.id == i then some j else find_job i js

-- Up to the point where a PENDING row is handed to the executor.
unfoldable pub trigger_job_execution :
    ℕ → ℕ → Text → ℕ → List Job → List JobExecutionRow → TriggerResult × List JobExecutionRow
trigger_job_execution fresh now by job jobs rows =
    trigger_found fresh now by (find_job job jobs) rows
