-- ===== src/Alert.antt =====
-- services/alert-service.ts: the rules that an alert matches, their cooldown, and the notices. What comes of
-- sending a notice is a parameter, and so is the job of an execution. The text of a notice is left out.
-- Times are milliseconds.
pub mod Laws
use wfmcontrol_m.Prelude.{
  ℕ, suc, ◌+◌, ◌*◌, Bool, true, false, not, ◌&&◌, ◌||◌, Option, none, some, List, [], ◌∷◌, ◌++◌,
  filter, ltb, ◌==◌, if◌then◌else◌, get_or,
}
use wfmcontrol_m.Table.{update}
use wfmcontrol_m.Text.{Text, text, text_eq, trim, is_empty}

-- A port, where `none` is a number that is not finite or not positive.
pub record SmtpConfig : Type 0 where
  pub host : Text
  pub port : Option ℕ
  pub tls_enabled : Bool
  pub tls_reject_unauthorized : Bool
  pub user : Text

pub record Endpoint : Type 0 where
  pub host : Text
  pub port : ℕ

abbrev pub loopback : Text
loopback = text "127.0.0.1"

abbrev pub is_local_host : Text → Bool
is_local_host host = text_eq host loopback || text_eq host (text "mailpit")

abbrev pub is_mailpit_endpoint : Text → ℕ → Bool
is_mailpit_endpoint host port = is_local_host host && port == 1025

abbrev host_of : Text → Text
host_of raw =
    if text_eq raw (text "localhost") || text_eq raw (text "::1") || text_eq raw (text "[::1]")
    then loopback
    else raw

abbrev is_positive : Option ℕ → Option ℕ
is_positive none = none
is_positive (some n) = if n == 0 then none else some n

abbrev port_for : Text → Option ℕ → ℕ
port_for host none = if is_local_host host then 1025 else 587
port_for host (some p) = if is_local_host host && p == 587 then 1025 else p

unfoldable pub resolve_smtp_endpoint : SmtpConfig → Option Endpoint
resolve_smtp_endpoint cfg =
    let raw = trim cfg.host in
    if is_empty raw
    then none
    else some (record { host = host_of raw; port = port_for (host_of raw) (is_positive cfg.port) })

pub record TransportOptions : Type 0 where
  pub host : Text
  pub port : ℕ
  pub secure : Bool
  pub require_tls : Bool
  pub ignore_tls : Bool
  pub with_auth : Bool
  pub reject_unauthorized : Bool

-- Without the family of the address and the credentials.
unfoldable pub build_smtp_transport_options : SmtpConfig → Text → ℕ → TransportOptions
build_smtp_transport_options cfg host port =
    let tls = not (is_mailpit_endpoint host port) && cfg.tls_enabled in
    let auth = not (is_empty cfg.user) in
    record {
      host = host;
      port = port;
      secure = port == 465;
      require_tls = tls && not (port == 465);
      ignore_tls = not tls && not auth;
      with_auth = auth;
      reject_unauthorized = tls && cfg.tls_reject_unauthorized;
    }

pub data AlertChannel : Type 0 where
  email : AlertChannel
  slack : AlertChannel
  webhook : AlertChannel
  in_app : AlertChannel
  sms : AlertChannel

-- `channels` is `none` where the column is no JSON, which throws.
pub record AlertRule : Type 0 where
  pub id : ℕ
  pub is_active : Bool
  pub trigger_type : Text
  pub job_id : Option ℕ
  pub cooldown_minutes : ℕ
  pub channels : Option (List AlertChannel)
  pub webhook_url : Option Text
  pub last_triggered_at : Option ℕ

pub record AlertPayload : Type 0 where
  pub trigger_type : Text
  pub severity : Text
  pub title : Text
  pub execution_id : Option ℕ

pub record AlertEvent : Type 0 where
  pub id : ℕ
  pub alert_rule_id : ℕ
  pub execution_id : Option ℕ
  pub severity : Text
  pub title : Text
  pub acknowledged_by : Option Text
  pub acknowledged_at : Option ℕ

pub record AlertStore : Type 0 where
  pub rules : List AlertRule
  pub events : List AlertEvent
  pub sent : List (ℕ × AlertChannel)
  pub next_id : ℕ

abbrev of_job : Option ℕ → Option ℕ → Bool
of_job none j = true
of_job (some r) none = false
of_job (some r) (some j) = r == j

-- The `where` of the query; `job_of` is the job of an execution.
abbrev pub is_matching : (ℕ → Option ℕ) → AlertPayload → AlertRule → Bool
is_matching job_of p r =
    r.is_active
    && text_eq r.trigger_type p.trigger_type
    && elim p.execution_id [ none ↦ true | some e ↦ of_job r.job_id (job_of e) ]

abbrev pub in_cooldown : ℕ → AlertRule → Bool
in_cooldown now r = elim r.last_triggered_at [
  | none ↦ false
  | some t ↦ ltb now (t + r.cooldown_minutes * 60000)
]

abbrev has_url : Option Text → Bool
has_url none = false
has_url (some u) = not (is_empty u)

-- A webhook without an address is not called, and SMS has no case; an error of a channel is logged.
abbrev pub is_sent : (ℕ → AlertChannel → Bool) → AlertRule → AlertChannel → Bool
is_sent delivers r email = delivers r.id email
is_sent delivers r slack = delivers r.id slack
is_sent delivers r webhook = has_url r.webhook_url && delivers r.id webhook
is_sent delivers r in_app = true
is_sent delivers r sms = false

unfoldable pub send_channels :
    (ℕ → AlertChannel → Bool) → AlertRule → List AlertChannel → AlertStore → AlertStore
send_channels delivers r [] s = s
send_channels delivers r (c ∷ cs) s =
    let noted = record s { sent = s.sent ++ (r.id, c) ∷ [] } in
    send_channels delivers r cs (if is_sent delivers r c then noted else s)

abbrev pub mark_triggered : ℕ → AlertRule → AlertRule
mark_triggered now r = record r { last_triggered_at = some now }

-- The event and the time of the rule are written before the notices are sent.
unfoldable pub trigger : ℕ → AlertPayload → AlertRule → AlertStore → AlertStore
trigger now p r s = record s {
  events =
      s.events
      ++ (record {
        id = s.next_id;
        alert_rule_id = r.id;
        execution_id = p.execution_id;
        severity = p.severity;
        title = p.title;
        acknowledged_by = none;
        acknowledged_at = none;
      })
        ∷ [];
  rules = update (λ q. q.id) r.id (mark_triggered now) s.rules;
  next_id = suc s.next_id;
}

-- The loop over the rules that were read; the flag says that it came to its end.
unfoldable pub process_rules :
    (ℕ → AlertChannel → Bool) → ℕ → AlertPayload → List AlertRule → AlertStore → AlertStore × Bool
process_rules delivers now p [] s = (s, true)
process_rules delivers now p (r ∷ rs) s =
    let skipped = process_rules delivers now p rs s in
    let triggered = trigger now p r s in
    let sent =
      process_rules delivers now p rs (send_channels delivers r (get_or r.channels []) triggered) in
    if in_cooldown now r
    then skipped
    else elim r.channels [ none ↦ (triggered, false) | some cs ↦ sent ]

unfoldable pub process_alert :
    (ℕ → Option ℕ) → (ℕ → AlertChannel → Bool) → ℕ → AlertPayload → AlertStore → AlertStore × Bool
process_alert job_of delivers now p s =
    process_rules delivers now p (filter (is_matching job_of p) s.rules) s

unfoldable pub acknowledge_alert : ℕ → ℕ → Text → AlertStore → AlertStore
acknowledge_alert now id user s = record s {
  events =
      update (λ e. e.id) id
        (λ e. record e { acknowledged_by = some user; acknowledged_at = some now }) s.events;
}
