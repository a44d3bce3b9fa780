-- ===== src/Payroll/Monitor.antt =====
-- payroll-service.ts: the pay generators of a client. What the queries of DB2 give is a parameter: rows of
-- cells, an error that is returned, or one that is thrown. Counts are not negative.
pub mod Snapshot
use wfmcontrol_m.Prelude.{
  ℕ, ◌-◌, Bool, true, false, not, ◌&&◌, Option, none, some, List, [], ◌∷◌, ◌++◌, map, filter, find,
  count, ltb, ◌==◌, if◌then◌else◌, get_or, is_some, ◌⊎◌, inl, inr,
}
use wfmcontrol_m.Prelude.Int.{ℤ, pos, negsuc}
use wfmcontrol_m.Text.{Text, text, text_eq, trim, is_empty}
use wfmcontrol_m.Text.Decimal.{parse_int}
use wfmcontrol_m.Text.Search.{lower}
use wfmcontrol_m.Payroll.{
  PayPeriod, PayJobKind, regular, adjustment, pay_job_kind, sanitize_dist_list_id, to_yyyymmdd,
  default_pay_week_end, text_le,
}
use wfmcontrol_m.Payroll.Phase.{
  PayScheduleKind, cron, interval, unknown, CronParser, resolve_queue_schedule, schedule_kind,
  compute_release_due_at_iso, compute_next_cron_run_iso, PayRun, Units, evaluate_stalled_generation,
  PayrollMonitorPhase, live, upcoming, complete, unknown_phase, classify_monitor_phase,
  monitor_release_sort_ms,
}

-- A row, by the names of its columns; null and a missing column are `none`.
abbrev pub Row : Type 0
Row = Text → Option Text

pub data Answer : Type 0 where
  rows : List Row → Answer
  refused : Text → Answer
  thrown : Text → Answer

abbrev or_else : Option Text → Option Text → Option Text
or_else none o = o
or_else (some t) o = some t

-- The names of columns are in capitals already.
unfoldable pub cell : Row → Text → Text
cell row key = trim (get_or (or_else (row key) (row (map lower key))) [])

abbrev count_of : Option ℤ → ℕ
count_of none = 0
count_of (some (pos n)) = n
count_of (some (negsuc n)) = 0

unfoldable pub parse_count : Row → Text → ℕ
parse_count row key = count_of (parse_int (cell row key))

pub record PayMonitorGenerator : Type 0 where
  pub queue_id : Text
  pub job_type : Text
  pub dist_list_id : Text
  pub schedule : Text
  pub kind : PayScheduleKind
  pub release_due_at : Option Text
  pub next_run_at : Option Text
  pub last_job_time : Option Text
  pub jobs_pending : ℕ
  pub running : Bool

-- What the functions read besides the rows.
pub record PayEnv : Type 0 where
  pub upper : Text → Text
  pub parser : CronParser
  pub parse_date : Text → Option ℕ
  pub now : ℕ
  pub now_text : Text
  pub grace_mins : ℕ

abbrev or_null : Text → Option Text
or_null t = if is_empty t then none else some t

abbrev pub is_regular : Option PayJobKind → Bool
is_regular (some regular) = true
is_regular (some adjustment) = false
is_regular none = false

abbrev when_cron : PayScheduleKind → Option Text → Option Text
when_cron cron o = o
when_cron interval o = none
when_cron unknown o = none

unfoldable pub generator_of : PayEnv → Text → Text → Row → Text → PayMonitorGenerator
generator_of env timezone ymd row dist_list_id =
    let schedule =
      resolve_queue_schedule (cell row (text "EXEC_CRON")) (cell row (text "QUEUE_SLEEP")) in
    let kind = schedule_kind schedule in
    record {
      queue_id = cell row (text "QUEUE_ID");
      job_type = cell row (text "JOB_TYPE");
      dist_list_id = dist_list_id;
      schedule = schedule;
      kind = kind;
      release_due_at =
          if is_empty ymd
          then none
          else when_cron kind (compute_release_due_at_iso env.parser schedule timezone ymd);
      next_run_at =
          when_cron kind (compute_next_cron_run_iso env.parser schedule timezone env.now_text);
      last_job_time = or_null (cell row (text "LAST_JOB_TIME"));
      jobs_pending = parse_count row (text "JOBS_PENDING");
      running = text_eq (env.upper (cell row (text "QUEUE_STATUS"))) (text "R");
    }

abbrev pub generator_for : PayEnv → Text → Text → Row → Option Text → Option PayMonitorGenerator
generator_for env timezone ymd row none = none
generator_for env timezone ymd row (some id) = some (generator_of env timezone ymd row id)

unfoldable pub map_pay_generator_row : PayEnv → Text → Text → Row → Option PayMonitorGenerator
map_pay_generator_row env timezone ymd row =
    if is_regular (pay_job_kind env.upper (cell row (text "JOB_TYPE")))
    then generator_for env timezone ymd row (sanitize_dist_list_id (cell row (text "DIST_LIST_ID")))
    else none

-- The generator of a store group is the one with the most jobs pending, the first of these.
unfoldable pub put_generator :
    PayMonitorGenerator → List PayMonitorGenerator → List PayMonitorGenerator
put_generator g [] = g ∷ []
put_generator g (h ∷ hs) =
    let rest = put_generator g hs in
    if text_eq h.dist_list_id g.dist_list_id
    then if ltb h.jobs_pending g.jobs_pending then g ∷ hs else h ∷ hs
    else h ∷ rest

abbrev pub put_mapped :
    Option PayMonitorGenerator → List PayMonitorGenerator → List PayMonitorGenerator
put_mapped none gs = gs
put_mapped (some g) gs = put_generator g gs

unfoldable pub collect_generators :
    PayEnv → Text → Text → List Row → List PayMonitorGenerator → List PayMonitorGenerator
collect_generators env timezone ymd [] gs = gs
collect_generators env timezone ymd (r ∷ rs) gs =
    collect_generators env timezone ymd rs
      (put_mapped (map_pay_generator_row env timezone ymd r) gs)

-- Sorted by the store group; `le` is the order of localeCompare.
unfoldable pub insert_by {ℓ} : {A : Type ℓ} → (A → A → Bool) → A → List A → List A
insert_by le x [] = x ∷ []
insert_by le x (y ∷ ys) = let rest = insert_by le x ys in if le x y then x ∷ y ∷ ys else y ∷ rest

unfoldable pub sort_by {ℓ} : {A : Type ℓ} → (A → A → Bool) → List A → List A
sort_by le [] = []
sort_by le (x ∷ xs) = insert_by le x (sort_by le xs)

-- An error that is thrown goes on; one that is returned gives no generator.
unfoldable pub fetch_pay_generators :
    PayEnv → (Text → Text → Bool) → Text → Text → List Row → List PayMonitorGenerator
fetch_pay_generators env locale_le timezone ymd rs =
    sort_by (λ a b. locale_le a.dist_list_id b.dist_list_id)
      (collect_generators env timezone ymd rs [])
