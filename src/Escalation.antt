-- ===== src/Escalation.antt =====
-- backend/src/services/escalation-service.ts: the rows of the table `escalatedAlert`, the tests that
-- the queries and the handlers make on a row, and the operations that write one row or one client.
-- Times are milliseconds since the epoch. A comparison with `Date.now() - d` is written with the
-- delay on the other side, since numbers stop at 0. Configured delays are natural numbers.
-- A JSON list of addresses is kept as the list. Writing a row that is not there throws: `none`.
pub mod Notify
pub mod Process
pub mod Report
use wfmcontrol_m.Prelude.{
  ℕ, String, Bool, true, false, ◌&&◌, ◌+◌, ◌*◌, Option, none, some, List, [], ltb, leb, str_eq,
  if◌then◌else◌, is_none, filter,
}
use wfmcontrol_m.Table.{update, update_each, has_key}

pub data Status : Type 0 where
  open_status acknowledged suppressed : Status

pub record EscalatedAlert : Type 0 where
  pub id : ℕ
  pub client_id : String
  pub server_code : String
  pub stale_pending_count : ℕ
  pub total_pending : ℕ
  pub status : Status
  pub acknowledged_by : Option String
  pub acknowledged_at : Option ℕ
  pub suppressed_by : Option String
  pub suppressed_at : Option ℕ
  pub suppress_until : Option ℕ
  pub suppress_reason : Option String
  pub email_sent_at : Option ℕ
  pub email_recipients : Option (List String)
  pub first_seen_at : ℕ
  pub last_seen_at : ℕ
  pub resolved_at : Option ℕ
  pub created_at : ℕ

abbrev pub Alerts : Type 0
Alerts = List EscalatedAlert

-- The configuration keys that the service reads.
pub record Settings : Type 0 where
  pub escalation_mins : ℕ
  pub notify_cooldown_mins : ℕ
  pub default_suppress_mins : ℕ
  pub auto_escalation_notify_enabled : Bool

abbrev pub minute_ms : ℕ
minute_ms = 60 * 1000

abbrev pub system_escalation_actor : String
system_escalation_actor = "system"

abbrev pub positive_or_hour : ℕ → ℕ
positive_or_hour mins = if ltb 0 mins then mins else 60

abbrev pub get_notify_cooldown_mins : Settings → ℕ
get_notify_cooldown_mins cfg = positive_or_hour cfg.notify_cooldown_mins

abbrev pub get_auto_ack_duration_mins : Settings → ℕ
get_auto_ack_duration_mins cfg = positive_or_hour cfg.default_suppress_mins

abbrev pub is_open_status : Status → Bool
is_open_status open_status = true
is_open_status _ = false

abbrev pub is_acknowledged : Status → Bool
is_acknowledged acknowledged = true
is_acknowledged _ = false

abbrev pub is_suppressed : Status → Bool
is_suppressed suppressed = true
is_suppressed _ = false

abbrev pub is_unresolved : EscalatedAlert → Bool
is_unresolved r = is_none r.resolved_at

abbrev pub is_open_for : String → EscalatedAlert → Bool
is_open_for c r = str_eq r.client_id c && is_unresolved r

-- firstSeenAt <= getEscalationThresholdDate(), read at `now`
unfoldable pub escalated : Settings → ℕ → EscalatedAlert → Bool
escalated cfg now r = leb (r.first_seen_at + cfg.escalation_mins * minute_ms) now

-- never emailed, or emailSentAt < getNotifyCooldownDate(), read at `now`
unfoldable pub notify_due : Settings → ℕ → EscalatedAlert → Bool
notify_due cfg now r = elim r.email_sent_at [
  | none ↦ true
  | some sent ↦ ltb (sent + get_notify_cooldown_mins cfg * minute_ms) now
]

abbrev pub or_null : String → Option String
or_null s = if str_eq s "" then none else some s

abbrev pub resolve : ℕ → EscalatedAlert → EscalatedAlert
resolve now r = record r { resolved_at = some now; status = open_status }

-- getEscalatedAlerts, before the rows are joined with client names and sorted
unfoldable pub get_escalated_alerts : Settings → ℕ → Alerts → Alerts
get_escalated_alerts cfg now t = filter (λ r. is_unresolved r && escalated cfg now r) t

unfoldable pub resolve_client_escalation : ℕ → String → Alerts → Alerts
resolve_client_escalation now c t =
    update_each (λ r. r.id) (resolve now) (filter (is_open_for c) t) t

unfoldable pub acknowledge : ℕ → ℕ → String → Alerts → Option Alerts
acknowledge now alert user t =
    if has_key (λ r. r.id) alert t
    then some (
        update (λ r. r.id) alert
          (λ r. record r {
            status = acknowledged;
            acknowledged_by = some user;
            acknowledged_at = some now;
          })
          t)
    else none

-- The two clock reads of `suppress`, and the reason, where "" stands for a missing one too.
unfoldable pub suppress : ℕ → ℕ → ℕ → String → ℕ → String → Alerts → Option Alerts
suppress until_now at_now alert user duration_minutes reason t =
    if has_key (λ r. r.id) alert t
    then some (
        update (λ r. r.id) alert
          (λ r. record r {
            status = suppressed;
            suppressed_by = some user;
            suppressed_at = some at_now;
            suppress_until = some (until_now + duration_minutes * minute_ms);
            suppress_reason = or_null reason;
          })
          t)
    else none
