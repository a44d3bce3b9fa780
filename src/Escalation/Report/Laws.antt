-- ===== src/Escalation/Report/Laws.antt =====
-- The rows and the counts of the report.
use wfmcontrol_m.Prelude.{
  ℕ, ◌+◌, ◌*◌, ◌≤◌, ◌<◌, ◌≡◌, refl, Bool, true, ◌&&◌, not, String, Option, none, some, List, [],
  ◌∷◌, filter, length, leb, arith, is_some,
}
use wfmcontrol_m.Escalation.{Alerts, EscalatedAlert}
use wfmcontrol_m.Escalation.Report.{
  is_open_at_period_end, alert_overlaps_period, compute_duration_mins, end_of, in_history,
  is_wanted, ReportOptions, history_rows, summary_of, derive_queue_severity, is_critical,
}

in_history-overlaps :
    (start end first : ℕ) (resolved : Option ℕ)
    → (leb first end && elim resolved [ none ↦ true | some at ↦ leb start at ])
      ≡ alert_overlaps_period first resolved start end
unfolding alert_overlaps_period
in_history-overlaps start end first none = ground arith
in_history-overlaps start end first (some at) = ground arith

filter_twice :
    (p q s : EscalatedAlert → Bool) (t : Alerts)
    → ((r : EscalatedAlert) → q r ≡ s r)
    → filter p (filter q t) ≡ filter (λ r. s r && p r) t
filter_twice p q s [] h = refl
filter_twice p q s (r ∷ t) h = ground (arith, filter_twice p q s t h, h r)

-- The rows of the report are the alerts of the table that were active at some point of the period, by
-- the test alertOverlapsPeriod, and that are of the client and the cluster asked for.
pub history_rows-overlaps :
    (upper : String → String) (clients : List (String × String)) (o : ReportOptions) (t : Alerts)
    → history_rows upper clients o t
      ≡ filter
          (λ r.
            alert_overlaps_period r.first_seen_at r.resolved_at o.start o.end
            && is_wanted upper clients o r)
          t
unfolding history_rows
history_rows-overlaps upper clients o t =
    filter_twice (is_wanted upper clients o) (in_history o.start o.end)
      (λ r. alert_overlaps_period r.first_seen_at r.resolved_at o.start o.end) t
      (λ r. unfold in_history in in_history-overlaps o.start o.end r.first_seen_at r.resolved_at)

length-filter-not :
    (p : EscalatedAlert → Bool) (t : Alerts)
    → length (filter p t) + length (filter (λ r. not (p r)) t) ≡ length t
length-filter-not p [] = refl
length-filter-not p (r ∷ t) = ground (arith, length-filter-not p t)

open_or_resolved :
    (as_of : ℕ) (t : Alerts)
    → length t
      ≤ length (filter (λ r. is_open_at_period_end r.resolved_at as_of) t)
        + length (filter (λ r. is_some r.resolved_at) t)
unfolding is_open_at_period_end
open_or_resolved as_of [] = omega arith
open_or_resolved as_of (r ∷ t) = ground (arith, open_or_resolved as_of t)

-- The counts of a report add up: every row is critical or a warning and none is both, and every row is
-- still open at the end of the period or resolved.
pub summary_of-counts :
    (as_of : ℕ) (rows : Alerts)
    → ((summary_of as_of rows).critical_count + (summary_of as_of rows).warning_count
        ≡ (summary_of as_of rows).total)
      × ((summary_of as_of rows).total
          ≤ (summary_of as_of rows).open_count + (summary_of as_of rows).resolved)
unfolding summary_of
summary_of-counts as_of rows = (
  length-filter-not (λ r. is_critical (derive_queue_severity r.stale_pending_count)) rows,
  open_or_resolved as_of rows,
)

-- The minutes of an alert differ from the time between its first sight and its end by half a minute at
-- most. The end is not before the first sight.
pub compute_duration_mins-bounds :
    (first : ℕ) (resolved : Option ℕ) (last : ℕ)
    → first ≤ end_of resolved last
    → (60000 * compute_duration_mins first resolved last + first ≤ end_of resolved last + 30000)
      × (end_of resolved last < 60000 * compute_duration_mins first resolved last + first + 30000)
unfolding compute_duration_mins
compute_duration_mins-bounds first resolved last h = (omega (arith, h), omega (arith, h))
