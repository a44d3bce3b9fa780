-- ===== src/Escalation/Notify.antt =====
-- sendEscalationEmails and the automatic notice with its acknowledgement.
-- The mail transport is a parameter: from the addresses and the alerts that the message is built
-- from it answers with the accepted and rejected addresses, or throws. `none` is a transporter that
-- is not configured. The order of the rows, which only the message shows, is left out.
pub mod Laws
pub mod Auto
use wfmcontrol_m.Prelude.{
  ℕ, String, Bool, true, false, ◌&&◌, not, Option, none, some, List, [], ◌∷◌, map, ◌==◌,
  if◌then◌else◌, filter, any, length,
}
use wfmcontrol_m.Table.{update_each}
use wfmcontrol_m.Escalation.{
  Alerts, EscalatedAlert, Settings, acknowledged, is_open_status, is_unresolved, escalated,
  notify_due, system_escalation_actor,
}

pub data Delivery : Type 0 where
  delivered : List String → List String → Delivery
  failed : String → Delivery

abbrev pub Transport : Type 0
Transport = List String → Alerts → Delivery

pub record Recipient : Type 0 where
  pub email : String
  pub is_active : Bool

pub data SendError : Type 0 where
  smtp_unconfigured no_recipients all_inactive : SendError
  smtp_failed : String → SendError

pub record Report : Type 0 where
  pub sent : ℕ
  pub skipped : ℕ
  pub failures : ℕ
  pub recipients : List String
  pub rejected : List String
  pub error : Option SendError

-- The clock reads of one send, in the order in which they are made.
pub record SendClock : Type 0 where
  pub now : ℕ
  pub cooldown_now : ℕ
  pub threshold_now : ℕ

abbrev pub refused : SendError → Report
refused e = record {
  sent = 0;
  skipped = 0;
  failures = 0;
  recipients = [];
  rejected = [];
  error = some e;
}

-- `where`: the given ids, or without any, the open alerts past the threshold
unfoldable pub selected : Settings → SendClock → List ℕ → EscalatedAlert → Bool
selected cfg k [] r =
    is_unresolved r
    && notify_due cfg k.cooldown_now r
    && (escalated cfg k.threshold_now r && is_open_status r.status)
selected cfg k (i ∷ ids) r =
    is_unresolved r && notify_due cfg k.cooldown_now r && any (λ j. r.id == j) (i ∷ ids)

abbrev pub mark_sent : ℕ → List String → EscalatedAlert → EscalatedAlert
mark_sent now emails r = record r { email_sent_at = some now; email_recipients = some emails }

-- Steps 6 and 7: one message for all the alerts, then the time on each of them.
unfoldable pub send_to : ℕ → Transport → List String → Alerts → Alerts → Report × Alerts
send_to now transport emails [] t = (
  record { sent = 0; skipped = 1; failures = 0; recipients = emails; rejected = []; error = none },
  t,
)
send_to now transport emails (a ∷ as') t = elim (transport emails (a ∷ as')) [
  | delivered accepted rejected ↦ (
    record {
      sent = length (a ∷ as');
      skipped = 0;
      failures = 0;
      recipients = accepted;
      rejected = rejected;
      error = none;
    },
    update_each (λ r. r.id) (mark_sent now emails) (a ∷ as') t,
  )
  | failed message ↦ (
    record {
      sent = 0;
      skipped = 0;
      failures = length (a ∷ as');
      recipients = [];
      rejected = [];
      error = some (smtp_failed message);
    },
    t,
  )
]

unfoldable pub active_emails : List Recipient → List String
active_emails rs = map (λ r. r.email) (filter (λ r. r.is_active) rs)

abbrev nobody : List Recipient → SendError
nobody [] = no_recipients
nobody (r ∷ rs) = all_inactive

unfoldable pub send_with :
    Settings
    → SendClock
    → Transport
    → List Recipient
    → List String
    → List ℕ
    → Alerts
    → Report × Alerts
send_with cfg k transport rs [] ids t = (refused (nobody rs), t)
send_with cfg k transport rs (e ∷ emails) ids t =
    send_to k.now transport (e ∷ emails) (filter (selected cfg k ids) t) t

unfoldable pub send_escalation_emails :
    Settings → SendClock → Option Transport → List Recipient → List ℕ → Alerts → Report × Alerts
send_escalation_emails cfg k none rs ids t = (refused smtp_unconfigured, t)
send_escalation_emails cfg k (some transport) rs ids t =
    send_with cfg k transport rs (active_emails rs) ids t

-- The clock reads of the automatic notice; the acknowledgements are stamped row by row.
pub record AutoClock : Type 0 where
  pub threshold_now : ℕ
  pub cooldown_now : ℕ
  pub send : SendClock
  pub ack_now : ℕ → ℕ

unfoldable pub eligible : Settings → AutoClock → EscalatedAlert → Bool
eligible cfg k r =
    is_unresolved r
    && is_open_status r.status
    && escalated cfg k.threshold_now r
    && notify_due cfg k.cooldown_now r

abbrev pub auto_acknowledge : AutoClock → EscalatedAlert → EscalatedAlert
auto_acknowledge k r = record r {
  status = acknowledged;
  acknowledged_by = some system_escalation_actor;
  acknowledged_at = some (k.ack_now r.id);
}

unfoldable pub notify_and_ack :
    Settings → AutoClock → Option Transport → List Recipient → Alerts → Alerts → Alerts
notify_and_ack cfg k mailer rs [] t = t
notify_and_ack cfg k mailer rs (a ∷ as') t =
    let (report, t') = send_escalation_emails cfg k.send mailer rs (map (λ r. r.id) (a ∷ as')) t in
    if report.sent == 0 then t' else update_each (λ r. r.id) (auto_acknowledge k) (a ∷ as') t'

unfoldable pub process_auto_escalation :
    Settings → AutoClock → Option Transport → List Recipient → Alerts → Alerts
process_auto_escalation cfg k mailer rs t =
    if cfg.auto_escalation_notify_enabled
    then notify_and_ack cfg k mailer rs (filter (eligible cfg k) t) t
    else t
