-- ===== src/Tests/Services.antt =====
-- The payroll monitor, punch alerts, outages and alert rules.
use wfmcontrol_m.Prelude.{
  ℕ, suc, ◌*◌, ◌≤◌, ◌≡◌, refl, true, false, ◌&&◌, if◌then◌else◌, Option, none, some, List, [], ◌∷◌,
  filter, leb, arith,
}
use wfmcontrol_m.Text.{Text, text, text_eq, trim, trim_start}
use wfmcontrol_m.Escalation.{suppressed}
use wfmcontrol_m.Payroll.Phase.{
  PayRun, Units, interval, evaluate_stalled_generation, classify_monitor_phase, live,
  is_release_started, job_time_on_or_after_pay_week_end, stalled_anchor_ms,
  parse_monitor_timestamp_ms,
}
use wfmcontrol_m.Payroll.{pay_job_kind, to_yyyymmdd, sanitize_week_end}
use wfmcontrol_m.Regex.{test, exec, exec_from, matches}
use wfmcontrol_m.Payroll.Monitor.{
  Row, cell, fetch_pay_generators, sort_by, collect_generators, map_pay_generator_row, PayEnv, rows,
  refused,
}
use wfmcontrol_m.Payroll.Monitor.Snapshot.{
  PayQueries, get_monitor_snapshot, snapshot_of, scan_clients, scan_monitor_client, scan_calendar,
  scan_queue,
}
use wfmcontrol_m.Payroll.Laws.{evaluate_stalled-live, get_monitor_snapshot-stalled, IsRunningOnly}
use wfmcontrol_m.Punch.{UnprocPunchAlert, PunchAlerts, PunchRow, is_eligible, get_alert_statuses}
use wfmcontrol_m.Punch.Laws.{is_eligible-expired}
use wfmcontrol_m.Outage.{fires, times_of, get_fire_times_utc_in_window}
use wfmcontrol_m.Outage.Laws.{first_runs, get_fire_times-first_runs}
use wfmcontrol_m.Alert.{AlertRule, AlertPayload, AlertStore, email, process_alert}
use wfmcontrol_m.Alert.Laws.{process_alert-cooldown}

-- All dates are the first hour.
abbrev parse_date : Text → Option ℕ
parse_date s = some 3600000

abbrev pay_run : PayRun
pay_run = record {
  kind = interval;
  release_due_at = none;
  last_job_time = some (text "20240204");
  pay_week_end_ymd = text "20240203";
  running = false;
  jobs_pending = 0;
}

abbrev units : Units
units = record { total = 3; generated = 1; pending = 2 }

pay_run_stalled : evaluate_stalled_generation parse_date 7200000 30 pay_run units ≡ some 60
unfolding evaluate_stalled_generation is_release_started job_time_on_or_after_pay_week_end
    to_yyyymmdd trim trim_start sanitize_week_end stalled_anchor_ms parse_monitor_timestamp_ms test
    exec exec_from matches
pay_run_stalled = refl

evaluate_stalled-live_example : classify_monitor_phase parse_date 7200000 pay_run units ≡ live
evaluate_stalled-live_example =
    evaluate_stalled-live parse_date 7200000 30 pay_run units 60 pay_run_stalled

abbrev pay_env : PayEnv
pay_env = record {
  upper = λ t. t;
  parser = λ expr tz from. none;
  parse_date = parse_date;
  now = 7200000;
  now_text = text "now";
  grace_mins = 30;
}

abbrev of_columns : List (Text × Text) → Row
of_columns [] key = none
of_columns ((name, value) ∷ columns) key =
    if text_eq name key then some value else of_columns columns key

-- A pay generator that runs, in the week that is over, with two of three units to go.
abbrev queue_row : Row
queue_row = of_columns (
    (text "QUEUE_ID", (text "1"))
    ∷ (text "JOB_TYPE", (text "RTANewPayFileGeneratorJob"))
    ∷ (text "QUEUE_SLEEP", (text "60"))
    ∷ (text "LAST_JOB_TIME", (text "20240204"))
    ∷ (text "JOBS_PENDING", (text "2"))
    ∷ (text "QUEUE_STATUS", (text "R"))
    ∷ (text "DIST_LIST_ID", (text "5"))
    ∷ [])

abbrev week_row : Row
week_row =
    of_columns
      ((text "WEEK_START_DATE", (text "20240128")) ∷ (text "WEEK_END_DATE", (text "20240203")) ∷ [])

abbrev units_row : Row
units_row = of_columns ((text "TOTAL_CNT", (text "3")) ∷ (text "GENERATED_CNT", (text "1")) ∷ [])

abbrev pay_queries : PayQueries
pay_queries = record {
  calendar = rows (week_row ∷ []);
  queue = rows (queue_row ∷ []);
  units = λ id. rows (units_row ∷ []);
  today_utc = text "20240205";
  locale_le = λ a b. true;
}

queue_row_runs : IsRunningOnly pay_queries.queue
unfolding cell trim trim_start
queue_row_runs = (refl, tt)

-- The generation of the row is evaluated, and is live.
pay_snapshot_live :
    (get_monitor_snapshot pay_env
      (λ a b. true)
      (λ c. pay_queries)
      ((text "ACME", text "UTC") ∷ [])).live_count
    ≡ 1
unfolding get_monitor_snapshot snapshot_of scan_clients scan_monitor_client scan_calendar scan_queue
    fetch_pay_generators sort_by collect_generators map_pay_generator_row pay_job_kind cell trim
    trim_start wfmcontrol_m.Text.Search.includes wfmcontrol_m.Payroll.sanitize_dist_list_id
    wfmcontrol_m.Payroll.Monitor.put_generator wfmcontrol_m.Payroll.Monitor.insert_by
    wfmcontrol_m.Payroll.Monitor.Snapshot.scan_generators
    wfmcontrol_m.Payroll.Monitor.Snapshot.monitor_row wfmcontrol_m.Payroll.default_pay_week_end
    wfmcontrol_m.Payroll.Monitor.Snapshot.fetch_periods
    wfmcontrol_m.Payroll.Monitor.Snapshot.period_of to_yyyymmdd wfmcontrol_m.Payroll.last_but_one
    wfmcontrol_m.Payroll.weeks_of wfmcontrol_m.Payroll.unique_from wfmcontrol_m.Payroll.sort_texts
    wfmcontrol_m.Payroll.insert_text wfmcontrol_m.Payroll.Monitor.Snapshot.units_of
    classify_monitor_phase wfmcontrol_m.Payroll.Monitor.Snapshot.row_le
    wfmcontrol_m.Payroll.Monitor.generator_of wfmcontrol_m.Payroll.Monitor.parse_count
    wfmcontrol_m.Payroll.Phase.compute_next_cron_run_iso
    wfmcontrol_m.Payroll.Phase.compute_release_due_at_iso evaluate_stalled_generation
    is_release_started job_time_on_or_after_pay_week_end
    wfmcontrol_m.Payroll.Phase.monitor_release_sort_ms
    wfmcontrol_m.Payroll.Phase.normalize_quartz_cron parse_monitor_timestamp_ms
    wfmcontrol_m.Payroll.Phase.resolve_queue_schedule wfmcontrol_m.Payroll.Phase.schedule_kind
    stalled_anchor_ms wfmcontrol_m.Payroll.before_in wfmcontrol_m.Payroll.rfx_compact_date_time
    sanitize_week_end wfmcontrol_m.Payroll.yyyymmdd_to_iso exec exec_from
    wfmcontrol_m.Regex.group_of matches wfmcontrol_m.Regex.repeat wfmcontrol_m.Regex.repeat_lazily
    test wfmcontrol_m.Text.Decimal.parse_int wfmcontrol_m.Text.Decimal.read_digits
    wfmcontrol_m.Text.Decimal.read_signed wfmcontrol_m.Text.Search.join
    wfmcontrol_m.Text.Search.split_spaces wfmcontrol_m.Text.Search.squeeze
    wfmcontrol_m.Text.split_from
pay_snapshot_live = refl

get_monitor_snapshot-stalled_example :
    (get_monitor_snapshot pay_env
      (λ a b. true)
      (λ c. pay_queries)
      ((text "ACME", text "UTC") ∷ [])).stalled_count
    ≡ 0
get_monitor_snapshot-stalled_example =
    get_monitor_snapshot-stalled pay_env refl (λ a b. true) (λ c. pay_queries)
      ((text "ACME", text "UTC") ∷ []) (λ c. queue_row_runs)

abbrev no_alerts : PunchAlerts
no_alerts = record { rows = []; next_id = 1 }

-- Suppressed until 2000, with a mail at 1000.
abbrev punch_alert : UnprocPunchAlert
punch_alert = record {
  id = 1;
  client_id = text "ACME";
  status = suppressed;
  acknowledged_by = none;
  acknowledged_at = none;
  suppressed_by = some (text "kim");
  suppressed_at = some 1000;
  suppress_until = some 2000;
  suppress_reason = none;
  email_sent_at = some 1000;
}

abbrev punch_row : PunchRow
punch_row = record {
  client_id = text "ACME";
  punch_count = some 200;
  last_update_time = none;
  db_current_time = none;
  error_message = none;
}

is_eligible-expired_example :
    (is_eligible 3000 60
        (get_alert_statuses 3000 (record { rows = punch_alert ∷ []; next_id = 2 })).1
        punch_row
      ≡ true)
    × (is_eligible 3000 60
          (get_alert_statuses 3000
            (get_alert_statuses 3000 (record { rows = punch_alert ∷ []; next_id = 2 })).0).1
          punch_row
        ≡ false)
is_eligible-expired_example =
    is_eligible-expired 3000 60 1000 punch_alert [] 2 punch_row refl refl (omega arith) refl refl

abbrev each_minute : ℕ → ℕ
each_minute i = i * 60000

rises : (i : ℕ) → each_minute i ≤ each_minute (suc i)
rises i = omega arith

get_fire_times-first_runs_example :
    times_of (
      get_fire_times_utc_in_window
        (λ t. t)
        (λ expr tz from. fires each_minute)
        (text "* * * * *")
        (text "UTC")
        0
        60000000)
    ≡ filter (λ t. leb 0 t && leb t 60000000) (first_runs 500 0 each_minute)
get_fire_times-first_runs_example =
    get_fire_times-first_runs (λ t. t) (λ expr tz from. fires each_minute) (text "* * * * *")
      (text "UTC") 0 60000000 each_minute refl rises

abbrev rule : AlertRule
rule = record {
  id = 1;
  is_active = true;
  trigger_type = text "JOB_FAILED";
  job_id = none;
  cooldown_minutes = 5;
  channels = some (email ∷ []);
  webhook_url = none;
  last_triggered_at = none;
}

abbrev payload : AlertPayload
payload = record {
  trigger_type = text "JOB_FAILED";
  severity = text "CRITICAL";
  title = text "failed";
  execution_id = none;
}

abbrev alert_store : AlertStore
alert_store = record { rules = rule ∷ []; events = []; sent = []; next_id = 1 }

process_alert-cooldown_example :
    process_alert
      (λ e. none)
      (λ r c. true)
      2000
      payload
      (process_alert (λ e. none) (λ r c. true) 1000 payload alert_store).0
    ≡ ((process_alert (λ e. none) (λ r c. true) 1000 payload alert_store).0, true)
process_alert-cooldown_example =
    process_alert-cooldown (λ e. none) (λ r c. true) 1000 2000 payload alert_store (tt, tt)
      ((refl, refl), tt) (omega arith, tt)
