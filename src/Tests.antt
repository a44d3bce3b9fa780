-- ===== src/Tests.antt =====
-- Runs of the theorems on concrete data: a module for each part, over the data declared here.
mod Escalations
mod Purges
mod Sessions
mod Engine
mod Admin
mod Syncing
mod Services
use wfmcontrol_m.Prelude.{
  ℕ, suc, ◌+◌, ◌≤◌, ◌≢◌, String, true, none, some, List, [], ◌∷◌, All, arith,
}
use wfmcontrol_m.Escalation.{Alerts, EscalatedAlert, Status, open_status, suppressed, Settings}
use wfmcontrol_m.Escalation.Notify.{AutoClock, SendClock, Delivery, delivered, Transport, Recipient}
use wfmcontrol_m.Escalation.Process.{World, PendingAlert}
use wfmcontrol_m.Escalation.Process.Tracking.{IsFresh}

abbrev pub alert : ℕ → String → Status → EscalatedAlert
alert i c st = record {
  id = i;
  client_id = c;
  server_code = c;
  stale_pending_count = 3;
  total_pending = 4;
  status = st;
  acknowledged_by = none;
  acknowledged_at = none;
  suppressed_by = none;
  suppressed_at = none;
  suppress_until = none;
  suppress_reason = none;
  email_sent_at = none;
  email_recipients = none;
  first_seen_at = 1000;
  last_seen_at = 1000;
  resolved_at = none;
  created_at = 1000;
}

-- ACME is suppressed until 9000000, BOLT is open.
abbrev pub acme : EscalatedAlert
acme = record (alert 1 "ACME" suppressed) {
  suppressed_by = some "kim";
  suppressed_at = some 2000;
  suppress_until = some 9000000;
}

abbrev pub bolt : EscalatedAlert
bolt = alert 2 "BOLT" open_status

abbrev pub two_alerts : Alerts
two_alerts = acme ∷ bolt ∷ []

abbrev pub settings : Settings
settings = record {
  escalation_mins = 60;
  notify_cooldown_mins = 60;
  default_suppress_mins = 60;
  auto_escalation_notify_enabled = true;
}

abbrev pub accept_all : Transport
accept_all emails alerts = delivered emails []

abbrev pub team : List Recipient
team = record { email = "ops@acme.test"; is_active = true } ∷ []

abbrev pub auto_clock : AutoClock
auto_clock = record {
  threshold_now = 5000000;
  cooldown_now = 5000000;
  send = record { now = 5000001; cooldown_now = 5000001; threshold_now = 5000001 };
  ack_now = λ i. 5000002;
}

abbrev pub total_id : Alerts → ℕ
total_id [] = 0
total_id (r ∷ t) = r.id + total_id t

abbrev pub world : World
world = record {
  cfg = settings;
  mailer = some accept_all;
  recipients = team;
  now = 5000000;
  auto = auto_clock;
  fresh = λ t. suc (total_id t);
  created_at = λ i. 5000000;
}

above : (n : ℕ) (t : Alerts) → total_id t ≤ n → All (λ r. r.id ≢ suc n) t
above n [] h = tt
above n (r ∷ t) h = (λ e. omega (arith, h, e), above n t (omega (arith, h)))

pub world-IsFresh : IsFresh world
world-IsFresh t = above (total_id t) t (omega arith)

abbrev pub bolt_pending : List PendingAlert
bolt_pending = record { client_id = "BOLT"; stale_pending_count = 5; total_pending = 9 } ∷ []

abbrev pub acme_pending : List PendingAlert
acme_pending = record { client_id = "ACME"; stale_pending_count = 5; total_pending = 9 } ∷ []
