-- ===== src/Payroll/Monitor/Snapshot.antt =====
-- payroll-service.ts: the rows of the monitor, and getMonitorSnapshot over all clients. The workers that scan
-- clients at the same time only add their rows, which are sorted at the end; so they are one loop here.
use wfmcontrol_m.Prelude.{
  ℕ, ◌-◌, Bool, not, ◌&&◌, Option, none, some, List, [], ◌∷◌, ◌++◌, map, filter, find, count, ltb,
  ◌==◌, if◌then◌else◌, is_some, ◌⊎◌, inl, inr,
}
use wfmcontrol_m.Text.{Text, text, is_empty}
use wfmcontrol_m.Payroll.{PayPeriod, to_yyyymmdd, default_pay_week_end, text_le}
use wfmcontrol_m.Payroll.Phase.{
  PayRun, Units, evaluate_stalled_generation, PayrollMonitorPhase, live, upcoming, complete,
  unknown_phase, classify_monitor_phase, monitor_release_sort_ms,
}
use wfmcontrol_m.Payroll.Monitor.{
  Row, Answer, cell, parse_count, PayMonitorGenerator, PayEnv, sort_by, fetch_pay_generators, rows,
  refused, thrown,
}

pub record PayrollMonitorRow : Type 0 where
  pub client_id : Text
  pub week_end_date : Text
  pub generator : Option PayMonitorGenerator
  pub units : Units
  pub phase : PayrollMonitorPhase
  pub stalled_minutes : Option ℕ
  pub error_message : Option Text

abbrev no_units : Units
no_units = record { total = 0; generated = 0; pending = 0 }

abbrev run_of : PayMonitorGenerator → Text → PayRun
run_of g ymd = record {
  kind = g.kind;
  release_due_at = g.release_due_at;
  last_job_time = g.last_job_time;
  pay_week_end_ymd = ymd;
  running = g.running;
  jobs_pending = g.jobs_pending;
}

-- The counts of units, or the error that fetchScopedUnitCounts throws.
unfoldable pub units_of : Answer → Units ⊎ Text
units_of (refused e) = inr e
units_of (thrown e) = inr e
units_of (rows []) = inr (text "Failed to query scoped unit counts")
units_of (rows (r ∷ rs)) =
    let total = parse_count r (text "TOTAL_CNT") in
    let generated = parse_count r (text "GENERATED_CNT") in
    inl (record { total = total; generated = generated; pending = total - generated })

abbrev error_row : Text → Text → Option PayMonitorGenerator → Text → PayrollMonitorRow
error_row client ymd g e = record {
  client_id = client;
  week_end_date = ymd;
  generator = g;
  units = no_units;
  phase = unknown_phase;
  stalled_minutes = none;
  error_message = some e;
}

unfoldable pub monitor_row :
    PayEnv → Text → Text → PayMonitorGenerator → Units ⊎ Text → PayrollMonitorRow
monitor_row env client ymd g (inr e) = error_row client ymd (some g) e
monitor_row env client ymd g (inl units) = record {
  client_id = client;
  week_end_date = ymd;
  generator = some g;
  units = units;
  phase = classify_monitor_phase env.parse_date env.now (run_of g ymd) units;
  stalled_minutes =
      evaluate_stalled_generation env.parse_date env.now env.grace_mins (run_of g ymd) units;
  error_message = none;
}

-- `units` asks for the counts of a store group.
unfoldable pub scan_generators :
    PayEnv → (Text → Answer) → Text → Text → List PayMonitorGenerator → List PayrollMonitorRow
scan_generators env units client ymd gs =
    map
      (λ g.
        monitor_row env client ymd g
          (if is_empty ymd then inl no_units else units_of (units g.dist_list_id)))
      gs

abbrev no_generator_error : Text
no_generator_error = text "No regular pay generator rows with PARAM_3 store group in RFX_QUEUE"

abbrev pub rows_or_none :
    PayEnv → (Text → Answer) → Text → Text → List PayMonitorGenerator → List PayrollMonitorRow
rows_or_none env units client ymd [] = error_row client [] none no_generator_error ∷ []
rows_or_none env units client ymd (g ∷ gs) = scan_generators env units client ymd (g ∷ gs)

-- The periods of the calendar; `today_utc` is the day where the rows do not say it.
abbrev today_of : Text → List Row → Text
today_of today_utc [] = today_utc
today_of today_utc (r ∷ rs) =
    let day = to_yyyymmdd (cell r (text "TODAY_YMD")) in if is_empty day then today_utc else day

unfoldable pub period_of : Text → Row → PayPeriod
period_of today r =
    let start = to_yyyymmdd (cell r (text "WEEK_START_DATE")) in
    let end = to_yyyymmdd (cell r (text "WEEK_END_DATE")) in
    record {
      week_start_date = start;
      week_end_date = end;
      is_current =
          not (is_empty start) && not (is_empty end) && text_le start today && text_le today end;
    }

unfoldable pub fetch_periods : Text → List Row → List PayPeriod
fetch_periods today_utc rs =
    filter (λ p. not (is_empty p.week_end_date)) (map (period_of (today_of today_utc rs)) rs)

abbrev current_end : Option PayPeriod → Text
current_end none = []
current_end (some p) = p.week_end_date

abbrev week_end_for : List PayPeriod → Text
week_end_for ps =
    let chosen = default_pay_week_end ps in
    if is_empty chosen then current_end (find (λ p. p.is_current) ps) else chosen

-- The queries of one client.
pub record PayQueries : Type 0 where
  pub calendar : Answer
  pub queue : Answer
  pub units : Text → Answer
  pub today_utc : Text
  pub locale_le : Text → Text → Bool

unfoldable pub scan_queue :
    PayEnv → PayQueries → Text → Text → Text → Answer → List PayrollMonitorRow
scan_queue env q client timezone ymd (rows rs) =
    rows_or_none env q.units client ymd (fetch_pay_generators env q.locale_le timezone ymd rs)
scan_queue env q client timezone ymd (refused e) = rows_or_none env q.units client ymd []
scan_queue env q client timezone ymd (thrown e) = error_row client [] none e ∷ []

unfoldable pub scan_calendar : PayEnv → PayQueries → Text → Text → Answer → List PayrollMonitorRow
scan_calendar env q client timezone (rows rs) =
    scan_queue env q client timezone (week_end_for (fetch_periods q.today_utc rs)) q.queue
scan_calendar env q client timezone (refused e) = error_row client [] none e ∷ []
scan_calendar env q client timezone (thrown e) = error_row client [] none e ∷ []

unfoldable pub scan_monitor_client : PayEnv → PayQueries → Text → Text → List PayrollMonitorRow
scan_monitor_client env q client timezone = scan_calendar env q client timezone q.calendar

abbrev phase_rank : PayrollMonitorPhase → ℕ
phase_rank live = 0
phase_rank upcoming = 1
phase_rank complete = 2
phase_rank unknown_phase = 3

pub record PayrollMonitorSnapshot : Type 0 where
  pub live_count : ℕ
  pub upcoming_count : ℕ
  pub complete_count : ℕ
  pub stalled_count : ℕ
  pub sorted : List PayrollMonitorRow

abbrev stalled_rank : PayrollMonitorRow → ℕ
stalled_rank r = if is_some r.stalled_minutes then 0 else 1

abbrev release_of : (Text → Option ℕ) → PayrollMonitorRow → ℕ
release_of parse_date r = elim r.generator [
  | none ↦ monitor_release_sort_ms parse_date none none
  | some g ↦ monitor_release_sort_ms parse_date g.release_due_at g.last_job_time
]

abbrev group_of_row : PayrollMonitorRow → Text
group_of_row r = elim r.generator [ none ↦ [] | some g ↦ g.dist_list_id ]

-- The comparison of the rows: phase, stalled ones, release, client, store group.
unfoldable pub row_le :
    (Text → Option ℕ) → (Text → Text → Bool) → PayrollMonitorRow → PayrollMonitorRow → Bool
row_le parse_date le a b =
    if not (phase_rank a.phase == phase_rank b.phase)
    then ltb (phase_rank a.phase) (phase_rank b.phase)
    else if not (stalled_rank a == stalled_rank b)
    then ltb (stalled_rank a) (stalled_rank b)
    else if not (release_of parse_date a == release_of parse_date b)
    then ltb (release_of parse_date a) (release_of parse_date b)
    else if not (le a.client_id b.client_id && le b.client_id a.client_id)
    then le a.client_id b.client_id
    else le (group_of_row a) (group_of_row b)

abbrev pub is_stalled : PayrollMonitorRow → Bool
is_stalled r = is_some r.stalled_minutes

unfoldable pub snapshot_of :
    PayEnv → (Text → Text → Bool) → List PayrollMonitorRow → PayrollMonitorSnapshot
snapshot_of env le rs = record {
  live_count = count (λ r. phase_rank r.phase == 0) rs;
  upcoming_count = count (λ r. phase_rank r.phase == 1) rs;
  complete_count = count (λ r. phase_rank r.phase == 2) rs;
  stalled_count = count is_stalled rs;
  sorted = sort_by (row_le env.parse_date le) rs;
}

unfoldable pub scan_clients :
    PayEnv → (Text → PayQueries) → List (Text × Text) → List PayrollMonitorRow
scan_clients env queries [] = []
scan_clients env queries ((client, timezone) ∷ cs) =
    scan_monitor_client env (queries client) client timezone ++ scan_clients env queries cs

unfoldable pub get_monitor_snapshot :
    PayEnv
    → (Text → Text → Bool)
    → (Text → PayQueries)
    → List (Text × Text)
    → PayrollMonitorSnapshot
get_monitor_snapshot env le queries clients = snapshot_of env le (scan_clients env queries clients)
