-- ===== src/Tests/Engine.antt =====
-- Executions with retries, and the scheduler.
use wfmcontrol_m.Prelude.{ℕ, arith, ◌≡◌, refl, true, false, Option, none, some, [], ◌∷◌}
use wfmcontrol_m.Prelude.Int.{pos}
use wfmcontrol_m.Text.{Text, text}
use wfmcontrol_m.Executor.{
  Limits, Attempt, Run, ExecutionResult, result_of, finished, pending, cancelled, failed,
  with_process, cancel, end_execution,
}
use wfmcontrol_m.Executor.Retry.{RetryPolicy}
use wfmcontrol_m.Executor.Retry.Laws.{end_execution-cancel}
use wfmcontrol_m.Scheduler.{
  Job, Scheduler, ScanSettings, JobExecutionRow, created, scan_upcoming_jobs, execute_status_check,
  find_job, trigger_job_execution, running_count,
}
use wfmcontrol_m.Scheduler.Laws.{
  HasDistinctChecks, scan_upcoming_jobs-HasDistinctChecks, trigger_job_execution-twice,
}

abbrev limits : Limits
limits = record { max_output_chars = 10; max_error_chars = 4 }

abbrev policy : RetryPolicy
policy = record { max_retries = 2; retry_delay = 30; backoff_multiplier = 2 }

abbrev bad : ExecutionResult
bad = record {
  succeeded = false;
  exit_code = pos 1;
  output = some [];
  error_message = some (text "broken");
  duration = 0;
}

abbrev good : ExecutionResult
good = record {
  succeeded = true;
  exit_code = pos 0;
  output = some [];
  error_message = none;
  duration = 0;
}

abbrev run : Run
run = record {
  row = record {
    status = pending;
    started_at = none;
    completed_at = none;
    duration = none;
    exit_code = none;
    output = none;
    error_message = none;
    attempt = 1;
    max_attempts = 3;
  };
  events = [];
  now = 1000;
}

abbrev killed : Attempt
killed = record { outcome = finished bad; takes_ms = 10 }

end_execution-cancel_example :
    ((cancel with_process 1005 run.row).1.status ≡ cancelled)
    × ((end_execution limits killed
          (record run { row = (cancel with_process 1005 run.row).1 })).row.status
        ≡ failed)
unfolding result_of
end_execution-cancel_example = end_execution-cancel limits killed 1005 run

abbrev job : Job
job = record {
  id = 4;
  client_id = text "ACME";
  is_active = true;
  deleted = false;
  cron_expression = some (text "0 3 * * *");
  timezone = text "UTC";
  server_timezone = none;
  log_check_enabled = true;
  log_path = some (text "/var/log/x");
  remote_log_tail_enabled = true;
  max_concurrency = 1;
  max_retries = none;
}

abbrev scheduler : Scheduler
scheduler = record { is_running = true; scheduled_tasks = []; pending_status_checks = [] }

abbrev scan : ScanSettings
scan = record {
  sync_enabled = true;
  upcoming_scan_interval_mins = 60;
  post_run_check_delay_mins = 30;
}

abbrev at_600 : Text → Text → Option ℕ
at_600 expression zone = some 600

scan_upcoming_jobs-HasDistinctChecks_example :
    HasDistinctChecks
      (scan_upcoming_jobs scan at_600 5 (job ∷ job ∷ []) scheduler).pending_status_checks
    × HasDistinctChecks (execute_status_check 4 600 scheduler).pending_status_checks
scan_upcoming_jobs-HasDistinctChecks_example =
    scan_upcoming_jobs-HasDistinctChecks scan at_600 5 (job ∷ job ∷ []) scheduler 4 600
      (unfold HasDistinctChecks in tt)

trigger_job_execution-twice_example :
    (first second : JobExecutionRow) × ((trigger_job_execution 1 10 (text "kim") 4 (job ∷ []) []).0
      ≡ created first)
    × ((trigger_job_execution 2 11
          (text "lee")
          4
          (job ∷ [])
          (trigger_job_execution 1 10 (text "kim") 4 (job ∷ []) []).1).0
        ≡ created second)
    × (first.status ≡ pending)
    × (second.status ≡ pending)
trigger_job_execution-twice_example =
    trigger_job_execution-twice 1 2 10 11 (text "kim") (text "lee") (job ∷ []) job []
      (unfold find_job in refl) refl (unfold running_count in omega arith)
