-- ===== src/Outage/Impact.antt =====
-- services/outage-impact-service.ts: the jobs that an outage hits, and their runs in it.
use wfmcontrol_m.Prelude.{
  ℕ, suc, Bool, false, ◌&&◌, Option, none, some, List, [], ◌∷◌, ◌++◌, map, any, length, leb,
  if◌then◌else◌, get_or, sum,
}
use mathlib.Core.Option
use wfmcontrol_m.Text.{Text, text, text_eq, is_empty}
use wfmcontrol_m.Outage.{
  Calendar, local_to_utc, Fires, FireTimes, times_of, get_fire_times_utc_in_window,
  has_fire_later_today, fire_times, fire_error,
}

pub record OutageJob : Type 0 where
  pub job_id : ℕ
  pub client_code : Option Text
  pub cron_expression : Option Text
  pub server_timezone : Option Text
  pub client_timezone : Option Text
  pub timezone : Option Text

pub record ImpactRow : Type 0 where
  pub job_id : ℕ
  pub client_code : Text
  pub fire_times : List ℕ
  pub fire_count : ℕ
  pub will_retry_today : Bool

pub data Outcome : Type 0 where
  no_impact : Outcome
  parse_failed : Outcome
  excluded_retry : Outcome
  impacted : ImpactRow → Outcome

abbrev non_empty : Option Text → Option Text → Option Text
non_empty none o = o
non_empty (some t) o = if is_empty t then o else some t

abbrev server_tz : OutageJob → Text
server_tz j =
    get_or (non_empty j.server_timezone (non_empty j.client_timezone (non_empty j.timezone none)))
      (text "UTC")

-- What is read besides the job: `later` is hasFireLaterToday for it.
unfoldable pub outcome_of : Bool → OutageJob → Text → Bool → FireTimes → Outcome
outcome_of no_retry j code later (fire_error e) = parse_failed
outcome_of no_retry j code later (fire_times []) = no_impact
outcome_of no_retry j code later (fire_times (t ∷ ts)) =
    if no_retry && later
    then excluded_retry
    else impacted (record {
      job_id = j.job_id;
      client_code = code;
      fire_times = t ∷ ts;
      fire_count = length (t ∷ ts);
      will_retry_today = later;
    })

-- Jobs without an expression or a client have no impact; `none` is the error that is thrown.
unfoldable pub impact_of :
    (Text → Text)
    → Calendar
    → (Text → Text → ℕ → Fires)
    → Bool
    → ℕ
    → ℕ
    → Text
    → Text
    → OutageJob
    → Text
    → Text
    → Option Outcome
impact_of upper utc cron no_retry start end input_tz start_local j code expr =
    let found = get_fire_times_utc_in_window upper cron expr (server_tz j) start end in
    let retry = has_fire_later_today upper utc cron expr (server_tz j) end input_tz start_local in
    elim (times_of found) [
      | [] ↦ some (outcome_of no_retry j code false found)
      | t ∷ ts ↦ elim retry [
        | none ↦ none
        | some later ↦ some (outcome_of no_retry j code later found)
      ]
    ]

unfoldable pub evaluate_job :
    (Text → Text)
    → Calendar
    → (Text → Text → ℕ → Fires)
    → Bool
    → ℕ
    → ℕ
    → Text
    → Text
    → OutageJob
    → Option Outcome
evaluate_job upper utc cron no_retry start end input_tz start_local j =
    elim (non_empty j.cron_expression none) [
      | none ↦ some no_impact
      | some expr ↦ elim j.client_code [
        | none ↦ some no_impact
        | some code ↦ impact_of upper utc cron no_retry start end input_tz start_local j code expr
      ]
    ]

pub record Impact : Type 0 where
  pub rows : List ImpactRow
  pub excluded_retry_today : ℕ
  pub parse_errors : ℕ

unfoldable pub add_outcome : Outcome → Impact → Impact
add_outcome no_impact w = w
add_outcome parse_failed w = record w { parse_errors = suc w.parse_errors }
add_outcome excluded_retry w = record w { excluded_retry_today = suc w.excluded_retry_today }
add_outcome (impacted r) w = record w { rows = w.rows ++ r ∷ [] }

abbrev add_if : Option Outcome → Option Impact → Option Impact
add_if none w = none
add_if (some o) none = none
add_if (some o) (some w) = some (add_outcome o w)

-- The jobs come ordered by client and name; `evaluate` is evaluateJob.
unfoldable pub impact_loop :
    (OutageJob → Option Outcome) → List OutageJob → Option Impact → Option Impact
impact_loop evaluate [] w = w
impact_loop evaluate (j ∷ js) w = impact_loop evaluate js (add_if (evaluate j) w)

abbrev first_fire : List ℕ → ℕ
first_fire [] = 0
first_fire (t ∷ ts) = t

unfoldable pub insert_row : ImpactRow → List ImpactRow → List ImpactRow
insert_row r [] = r ∷ []
insert_row r (s ∷ rs) =
    let rest = insert_row r rs in
    if leb (first_fire r.fire_times) (first_fire s.fire_times) then r ∷ s ∷ rs else s ∷ rest

unfoldable pub sort_rows : List ImpactRow → List ImpactRow
sort_rows [] = []
sort_rows (r ∷ rs) = insert_row r (sort_rows rs)

abbrev pub distinct_clients : List Text → List ImpactRow → ℕ
distinct_clients seen [] = 0
distinct_clients seen (r ∷ rs) =
    let rest = distinct_clients seen rs in
    let more = distinct_clients (r.client_code ∷ seen) rs in
    if any (λ c. text_eq c r.client_code) seen then rest else suc more

pub record OutageImpactResult : Type 0 where
  pub rows : List ImpactRow
  pub unique_jobs : ℕ
  pub total_fire_times : ℕ
  pub unique_clients : ℕ
  pub excluded_retry_today : ℕ
  pub parse_errors : ℕ

unfoldable pub build_outage_impact_result : Impact → OutageImpactResult
build_outage_impact_result w =
    let sorted = sort_rows w.rows in
    record {
      rows = sorted;
      unique_jobs = length sorted;
      total_fire_times = sum (map (λ r. r.fire_count) sorted);
      unique_clients = distinct_clients [] sorted;
      excluded_retry_today = w.excluded_retry_today;
      parse_errors = w.parse_errors;
    }

abbrev no_impact_yet : Impact
no_impact_yet = record { rows = []; excluded_retry_today = 0; parse_errors = 0 }

abbrev between :
    (ℕ → ℕ → OutageJob → Option Outcome)
    → List OutageJob
    → Option ℕ
    → Option ℕ
    → Option OutageImpactResult
between evaluate jobs none end = none
between evaluate jobs (some start) none = none
between evaluate jobs (some start) (some end) =
    if leb end start
    then none
    else Option.map build_outage_impact_result
        (impact_loop (evaluate start end) jobs (some no_impact_yet))

-- A run that is not cancelled; `none` is an error. `jobs` are those of the query, and the events of the
-- progress are left out.
unfoldable pub compute_outage_impact :
    (Text → Text)
    → Calendar
    → (Text → Text → ℕ → Fires)
    → Bool
    → Text
    → Text
    → Text
    → List OutageJob
    → Option OutageImpactResult
compute_outage_impact upper utc cron no_retry start_local end_local input_tz jobs =
    between (λ start end j. evaluate_job upper utc cron no_retry start end input_tz start_local j)
      jobs (local_to_utc upper utc start_local input_tz) (local_to_utc upper utc end_local input_tz)
