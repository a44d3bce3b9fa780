-- ===== src/Escalation/Report.antt =====
-- utils/escalation-report.ts and getQueueBuildupHistory: what the escalation report counts. The calendar
-- is a parameter: a period is its start and its end. `upper` is `toUpperCase`. The client table is
-- a list of upper-case ids with their clusters.
pub mod Laws
use wfmcontrol_m.Prelude.{
  ℕ, ◌+◌, ◌-◌, ◌*◌, ◌/◌, Bool, true, false, ◌&&◌, ◌||◌, not, String, Option, none, some, List, [],
  ◌∷◌, ◌++◌, filter, length, if◌then◌else◌, leb, ltb, str_eq, is_some,
}
use wfmcontrol_m.Escalation.{Alerts, EscalatedAlert, is_acknowledged, is_suppressed}

unfoldable pub is_date_in_range : Option ℕ → ℕ → ℕ → Bool
is_date_in_range none start end = false
is_date_in_range (some t) start end = leb start t && leb t end

unfoldable pub alert_overlaps_period : ℕ → Option ℕ → ℕ → ℕ → Bool
alert_overlaps_period first_seen none start end = if ltb end first_seen then false else true
alert_overlaps_period first_seen (some resolved) start end =
    if ltb end first_seen then false else leb start resolved

unfoldable pub is_open_at_period_end : Option ℕ → ℕ → Bool
is_open_at_period_end none as_of = true
is_open_at_period_end (some resolved) as_of = ltb as_of resolved

-- Math.round, which rounds a half up, of a time in minutes; a negative one becomes 0.
abbrev pub round_mins : ℕ → ℕ
round_mins ms = (ms + 30000) / 60000

abbrev pub end_of : Option ℕ → ℕ → ℕ
end_of none last_seen = last_seen
end_of (some resolved) last_seen = resolved

unfoldable pub compute_duration_mins : ℕ → Option ℕ → ℕ → ℕ
compute_duration_mins first_seen resolved last_seen =
    round_mins (end_of resolved last_seen - first_seen)

pub data Severity : Type 0 where
  critical : Severity
  warning : Severity

unfoldable pub derive_queue_severity : ℕ → Severity
derive_queue_severity stale = if leb 10 stale then critical else warning

abbrev activity : Option ℕ → ℕ → ℕ → String → List String
activity at start end name = if is_date_in_range at start end then name ∷ [] else []

unfoldable pub derive_punch_activities :
    Option ℕ → Option ℕ → Option ℕ → Option ℕ → ℕ → ℕ → List String
derive_punch_activities created acknowledged suppressed emailed start end =
    activity created start end "Tracked"
    ++ activity acknowledged start end "Acknowledged"
    ++ activity suppressed start end "Suppressed"
    ++ activity emailed start end "Notified"

-- The `where` of the query.
unfoldable pub in_history : ℕ → ℕ → EscalatedAlert → Bool
in_history start end r =
    leb r.first_seen_at end && elim r.resolved_at [ none ↦ true | some at ↦ leb start at ]

abbrev cluster_at : String → List (String × String) → Option String
cluster_at code [] = none
cluster_at code ((c, cluster) ∷ rest) = if str_eq c code then some cluster else cluster_at code rest

abbrev or_client : Option String → Option String → String
or_client (some cluster) other = cluster
or_client none (some cluster) = cluster
or_client none none = ""

unfoldable pub cluster_of : (String → String) → List (String × String) → EscalatedAlert → String
cluster_of upper clients r =
    or_client (cluster_at (upper r.server_code) clients) (cluster_at (upper r.client_id) clients)

abbrev pub asked : (String → Bool) → Option String → Bool
asked test none = true
asked test (some s) = if str_eq s "" then true else test s

pub record ReportOptions : Type 0 where
  pub start : ℕ
  pub end : ℕ
  pub as_of : ℕ
  pub cluster : Option String
  pub client_id : Option String

abbrev pub is_wanted :
    (String → String) → List (String × String) → ReportOptions → EscalatedAlert → Bool
is_wanted upper clients o r =
    asked (λ c. str_eq (upper r.client_id) (upper c)) o.client_id
    && asked (λ c. str_eq (cluster_of upper clients r) c) o.cluster

unfoldable pub history_rows :
    (String → String) → List (String × String) → ReportOptions → Alerts → Alerts
history_rows upper clients o t =
    filter (is_wanted upper clients o) (filter (in_history o.start o.end) t)

pub record Summary : Type 0 where
  pub total : ℕ
  pub critical_count : ℕ
  pub warning_count : ℕ
  pub open_count : ℕ
  pub acknowledged_count : ℕ
  pub suppressed_count : ℕ
  pub resolved : ℕ

abbrev pub is_critical : Severity → Bool
is_critical critical = true
is_critical warning = false

-- The counts of the summary; the clusters, the clients and the average are left out.
unfoldable pub summary_of : ℕ → Alerts → Summary
summary_of as_of rows = record {
  total = length rows;
  critical_count =
      length (filter (λ r. is_critical (derive_queue_severity r.stale_pending_count)) rows);
  warning_count =
      length (filter (λ r. not (is_critical (derive_queue_severity r.stale_pending_count))) rows);
  open_count = length (filter (λ r. is_open_at_period_end r.resolved_at as_of) rows);
  acknowledged_count = length (filter (λ r. is_acknowledged r.status) rows);
  suppressed_count = length (filter (λ r. is_suppressed r.status) rows);
  resolved = length (filter (λ r. is_some r.resolved_at) rows);
}
