-- ===== src/Payroll/Phase.antt =====
-- constants/payroll.ts: the schedule of a pay generator, and the phase of its run. `parse_date` is
-- Date.parse, `none` for NaN, and `next_run` the cron parser, each as a time in milliseconds, with the ISO
-- text of the time where the source keeps the text.
use wfmcontrol_m.Prelude.{
  ℕ, ◌-◌, ◌/◌, Bool, true, false, not, ◌&&◌, ◌||◌, Option, none, some, [], ◌∷◌, ◌++◌, filter,
  length, ltb, leb, ◌==◌, if◌then◌else◌, get_or,
}
use wfmcontrol_m.Text.{Text, text, trim, is_empty, is_digit, take, drop}
use wfmcontrol_m.Text.Search.{join, split_spaces}
use wfmcontrol_m.Regex.{Regex, ◌⋆◌, ◌⊕◌, group, at_start, lit, digit, exec, test, Match, group_of}
use wfmcontrol_m.Payroll.{
  to_yyyymmdd, sanitize_week_end, yyyymmdd_to_iso, rfx_compact_date_time, all_digits, text_le,
}

pub data PayScheduleKind : Type 0 where
  cron : PayScheduleKind
  interval : PayScheduleKind
  unknown : PayScheduleKind

unfoldable pub resolve_queue_schedule : Text → Text → Text
resolve_queue_schedule exec_cron queue_sleep =
    if not (is_empty (trim exec_cron)) then trim exec_cron else trim queue_sleep

unfoldable pub schedule_kind : Text → PayScheduleKind
schedule_kind schedule =
    let s = trim schedule in if is_empty s then unknown else if all_digits s then interval else cron

-- Six fields are kept, of seven the last one goes, and five get a field for the seconds.
unfoldable pub normalize_quartz_cron : Text → Text
normalize_quartz_cron raw = elim (split_spaces (trim raw)) [
  | a ∷ b ∷ c ∷ d ∷ e ∷ [] ↦ text "0 " ++ join b' ' (a ∷ b ∷ c ∷ d ∷ e ∷ [])
  | a ∷ b ∷ c ∷ d ∷ e ∷ f ∷ [] ↦ join b' ' (a ∷ b ∷ c ∷ d ∷ e ∷ f ∷ [])
  | a ∷ b ∷ c ∷ d ∷ e ∷ f ∷ g ∷ [] ↦ join b' ' (a ∷ b ∷ c ∷ d ∷ e ∷ f ∷ [])
  | _ ↦ trim raw
]

-- The parser, given an expression, a zone and the time from which to look.
abbrev pub CronParser : Type 0
CronParser = Text → Text → Text → Option Text

unfoldable pub compute_next_cron_run_iso : CronParser → Text → Text → Text → Option Text
compute_next_cron_run_iso parser schedule timezone from = elim (schedule_kind schedule) [
  | cron ↦ parser (normalize_quartz_cron schedule) timezone from
  | interval ↦ none
  | unknown ↦ none
]

unfoldable pub compute_release_due_at_iso : CronParser → Text → Text → Text → Option Text
compute_release_due_at_iso parser schedule timezone ymd = elim (schedule_kind schedule) [
  | cron ↦ elim (sanitize_week_end ymd) [
    | none ↦ none
    | some safe ↦
        parser (normalize_quartz_cron schedule) timezone (yyyymmdd_to_iso safe ++ text "T00:00:00")
  ]
  | interval ↦ none
  | unknown ↦ none
]

abbrev at_least_text : Text → Option Text → Bool
at_least_text t none = false
at_least_text t (some w) = text_le w t

unfoldable pub job_time_on_or_after_pay_week_end : Option Text → Text → Bool
job_time_on_or_after_pay_week_end last_job_time ymd =
    let job_ymd = to_yyyymmdd (get_or last_job_time []) in
    not (is_empty job_ymd) && at_least_text job_ymd (sanitize_week_end ymd)

abbrev iso_t : Regex
iso_t =
    at_start
    ⋆ digit
    ⋆ digit
    ⋆ digit
    ⋆ digit
    ⋆ lit "-"
    ⋆ digit
    ⋆ digit
    ⋆ lit "-"
    ⋆ digit
    ⋆ digit
    ⋆ lit "T"

abbrev two_digits : Regex
two_digits = digit ⋆ digit

abbrev iso_space : Regex
iso_space =
    at_start
    ⋆ group 1 (two_digits ⋆ two_digits)
    ⋆ lit "-"
    ⋆ group 2 two_digits
    ⋆ lit "-"
    ⋆ group 3 two_digits
    ⋆ (lit " " ⊕ lit "T")
    ⋆ group 4 two_digits
    ⋆ lit ":"
    ⋆ group 5 two_digits
    ⋆ lit ":"
    ⋆ group 6 two_digits

abbrev part : ℕ → Match → Text
part k m = get_or (group_of k m) []

abbrev utc_text : Match → Text
utc_text m =
    part 1 m
    ++ text "-"
    ++ part 2 m
    ++ text "-"
    ++ part 3 m
    ++ text "T"
    ++ part 4 m
    ++ text ":"
    ++ part 5 m
    ++ text ":"
    ++ part 6 m
    ++ text "Z"

-- `2024-02-04 10:00:00` to `2024-02-04T10:00:00Z`
abbrev with_t : Text → Text
with_t s = take 10 s ++ text "T" ++ drop 11 s ++ text "Z"

abbrev day_text : Text → Text
day_text s =
    take 4 s ++ text "-" ++ take 2 (drop 4 s) ++ text "-" ++ take 2 (drop 6 s) ++ text "T00:00:00Z"

abbrev compact_ms : (Text → Option ℕ) → Text → Text → Option ℕ
compact_ms parse_date s compact =
    if leb 14 (length compact)
    then parse_date (with_t (rfx_compact_date_time s))
    else if leb 8 (length compact)
    then parse_date (day_text compact)
    else none

abbrev spaced_ms : (Text → Option ℕ) → Text → Option Match → Option ℕ
spaced_ms parse_date s (some m) = parse_date (utc_text m)
spaced_ms parse_date s none = compact_ms parse_date s (filter is_digit s)

unfoldable pub parse_monitor_timestamp_ms : (Text → Option ℕ) → Option Text → Option ℕ
parse_monitor_timestamp_ms parse_date raw =
    let s = trim (get_or raw []) in
    if is_empty s
    then none
    else if test iso_t s
    then parse_date s
    else spaced_ms parse_date s (exec iso_space s)

-- What is known of the run of a generator.
pub record PayRun : Type 0 where
  pub kind : PayScheduleKind
  pub release_due_at : Option Text
  pub last_job_time : Option Text
  pub pay_week_end_ymd : Text
  pub running : Bool
  pub jobs_pending : ℕ

pub record Units : Type 0 where
  pub total : ℕ
  pub generated : ℕ
  pub pending : ℕ

-- now >= new Date(due)
abbrev is_due : (Text → Option ℕ) → ℕ → Option Text → Bool
is_due parse_date now none = false
is_due parse_date now (some due) = elim (parse_date due) [ none ↦ false | some t ↦ leb t now ]

-- new Date(due) > now
abbrev is_ahead : (Text → Option ℕ) → ℕ → Option Text → Bool
is_ahead parse_date now none = false
is_ahead parse_date now (some due) = elim (parse_date due) [ none ↦ false | some t ↦ ltb now t ]

abbrev is_interval : PayScheduleKind → Bool
is_interval interval = true
is_interval cron = false
is_interval unknown = false

unfoldable pub is_release_started : (Text → Option ℕ) → ℕ → PayRun → Bool
is_release_started parse_date now r =
    let ran = job_time_on_or_after_pay_week_end r.last_job_time r.pay_week_end_ymd in
    if is_interval r.kind then r.running || ran else is_due parse_date now r.release_due_at || ran

abbrev up_to : ℕ → Option ℕ → Option ℕ
up_to now none = none
up_to now (some t) = if leb t now then some t else none

abbrev later : Option ℕ → Option ℕ → Option ℕ
later none b = b
later (some a) none = some a
later (some a) (some b) = if ltb a b then some b else some a

-- The later of the due time, if it is past, and of the last run, if it is in time.
unfoldable pub stalled_anchor_ms : (Text → Option ℕ) → ℕ → PayRun → Option ℕ
stalled_anchor_ms parse_date now r =
    let due = up_to now (parse_monitor_timestamp_ms parse_date r.release_due_at) in
    let last = parse_monitor_timestamp_ms parse_date r.last_job_time in
    later due
      (if job_time_on_or_after_pay_week_end r.last_job_time r.pay_week_end_ymd then last else none)

-- The minutes since the anchor, if they reach the grace. An anchor ahead of the clock gives a negative
-- number in the source, below any grace; so for a grace of 0 or less it differs, which the settings exclude.
abbrev stalled_after : ℕ → ℕ → Option ℕ → Option ℕ
stalled_after now grace none = none
stalled_after now grace (some anchor) =
    if ltb now anchor
    then none
    else if ltb ((now - anchor) / 60000) grace
    then none
    else some ((now - anchor) / 60000)

-- The minutes, if the generation is stalled.
unfoldable pub evaluate_stalled_generation : (Text → Option ℕ) → ℕ → ℕ → PayRun → Units → Option ℕ
evaluate_stalled_generation parse_date now grace r units =
    if units.pending == 0 || r.running
    then none
    else if not (is_release_started parse_date now r)
    then none
    else stalled_after now grace (stalled_anchor_ms parse_date now r)

pub data PayrollMonitorPhase : Type 0 where
  live : PayrollMonitorPhase
  upcoming : PayrollMonitorPhase
  complete : PayrollMonitorPhase
  unknown_phase : PayrollMonitorPhase

unfoldable pub classify_monitor_phase : (Text → Option ℕ) → ℕ → PayRun → Units → PayrollMonitorPhase
classify_monitor_phase parse_date now r units =
    let started = is_release_started parse_date now r in
    let ahead = is_ahead parse_date now r.release_due_at in
    if ltb 0 units.total && units.pending == 0
    then complete
    else if r.running && (ltb 0 r.jobs_pending || ltb 0 units.pending)
    then live
    else if started && ltb 0 units.pending
    then live
    else if ltb 0 units.pending && not started
    then upcoming
    else if not started && ahead
    then upcoming
    else if units.total == 0 && not started && ahead
    then upcoming
    else unknown_phase

-- Unknown times sort last: Number.MAX_SAFE_INTEGER.
unfoldable pub monitor_release_sort_ms : (Text → Option ℕ) → Option Text → Option Text → ℕ
monitor_release_sort_ms parse_date release_due_at last_job_time =
    get_or (parse_monitor_timestamp_ms parse_date release_due_at)
      (get_or (parse_monitor_timestamp_ms parse_date last_job_time) 9007199254740991)
