-- ===== src/Escalation/Process.antt =====
-- processEscalations: the table follows the list of clients with stale pending critical jobs.
-- An id of a new row comes from the database: `fresh`, from the table as it stands.
pub mod Frame
pub mod Tracking
pub mod Held
pub mod Resolved
pub mod Restart
use wfmcontrol_m.Prelude.{
  ℕ, String, Bool, true, false, ◌&&◌, not, ◌+◌, ◌*◌, Option, none, some, List, [], ◌∷◌, ◌++◌,
  str_eq, ltb, leb, if◌then◌else◌, filter, any,
}
use wfmcontrol_m.Table.{update, update_each}
use wfmcontrol_m.Escalation.{
  Alerts, EscalatedAlert, Settings, open_status, is_acknowledged, is_suppressed, is_open_for,
  is_unresolved, get_auto_ack_duration_mins, minute_ms, system_escalation_actor, resolve,
}
use wfmcontrol_m.Escalation.Notify.{AutoClock, Transport, Recipient, process_auto_escalation}

pub record PendingAlert : Type 0 where
  pub client_id : String
  pub stale_pending_count : ℕ
  pub total_pending : ℕ

-- What one run gets from outside: the configuration, the mail transport and its recipients, the clock
-- at the start and for the automatic notice, and the database's ids and creation times.
pub record World : Type 0 where
  pub cfg : Settings
  pub mailer : Option Transport
  pub recipients : List Recipient
  pub now : ℕ
  pub auto : AutoClock
  pub fresh : Alerts → ℕ
  pub created_at : ℕ → ℕ

abbrev lookup : String → List (String × String) → Option String
lookup c [] = none
lookup c ((d, code) ∷ codes) = if str_eq d c then some code else lookup c codes

-- clientServerCodes.get(clientId) || clientId
abbrev pub server_code_of : String → List (String × String) → String
server_code_of c codes = elim (lookup c codes) [
  | none ↦ c
  | some code ↦ if str_eq code "" then c else code
]

-- findFirst({ clientId, resolvedAt: null }, createdAt desc); of equal times the first row of the table
abbrev pub newer : EscalatedAlert → Option EscalatedAlert → EscalatedAlert
newer r none = r
newer r (some s) = if ltb r.created_at s.created_at then s else r

unfoldable pub find_open : String → Alerts → Option EscalatedAlert
find_open c [] = none
find_open c (r ∷ t) =
    let later = find_open c t in if is_open_for c r then some (newer r later) else later

unfoldable pub suppression_expired : ℕ → EscalatedAlert → Bool
suppression_expired now e = elim e.suppress_until [
  | none ↦ false
  | some until ↦ is_suppressed e.status && ltb until now
]

abbrev pub acknowledged_by_system : EscalatedAlert → Bool
acknowledged_by_system e = elim e.acknowledged_by [
  | none ↦ false
  | some user ↦ str_eq user system_escalation_actor
]

unfoldable pub auto_ack_expired : Settings → ℕ → EscalatedAlert → Bool
auto_ack_expired cfg now e = elim e.acknowledged_at [
  | none ↦ false
  | some at ↦
      is_acknowledged e.status
      && acknowledged_by_system e
      && leb (at + get_auto_ack_duration_mins cfg * minute_ms) now
]

abbrev pub update_counts : ℕ → PendingAlert → EscalatedAlert → EscalatedAlert
update_counts now a r = record r {
  stale_pending_count = a.stale_pending_count;
  total_pending = a.total_pending;
  last_seen_at = now;
}

abbrev pub end_suppression : EscalatedAlert → EscalatedAlert
end_suppression r = record r {
  status = open_status;
  suppressed_by = none;
  suppressed_at = none;
  suppress_until = none;
}

abbrev pub end_acknowledgement : EscalatedAlert → EscalatedAlert
end_acknowledgement r = record r {
  status = open_status;
  acknowledged_by = none;
  acknowledged_at = none;
}

-- The writes to a row that is there; both tests read it as it was before.
unfoldable pub refresh_existing : World → PendingAlert → EscalatedAlert → Alerts → Alerts
refresh_existing w a e t =
    let counted = update (λ r. r.id) e.id (update_counts w.now a) t in
    let reopened =
      if suppression_expired w.now e
      then update (λ r. r.id) e.id end_suppression counted
      else counted in
    if auto_ack_expired w.cfg w.now e
    then update (λ r. r.id) e.id end_acknowledgement reopened
    else reopened

abbrev pub new_alert : World → List (String × String) → PendingAlert → ℕ → EscalatedAlert
new_alert w codes a i = record {
  id = i;
  client_id = a.client_id;
  server_code = server_code_of a.client_id codes;
  stale_pending_count = a.stale_pending_count;
  total_pending = a.total_pending;
  status = open_status;
  acknowledged_by = none;
  acknowledged_at = none;
  suppressed_by = none;
  suppressed_at = none;
  suppress_until = none;
  suppress_reason = none;
  email_sent_at = none;
  email_recipients = none;
  first_seen_at = w.now;
  last_seen_at = w.now;
  resolved_at = none;
  created_at = w.created_at i;
}

-- The two branches of the loop's body, on what `findFirst` gave.
unfoldable pub write_alert :
    World → List (String × String) → PendingAlert → Alerts → Option EscalatedAlert → Alerts
write_alert w codes a t none = t ++ new_alert w codes a (w.fresh t) ∷ []
write_alert w codes a t (some e) = refresh_existing w a e t

unfoldable pub process_alert : World → List (String × String) → PendingAlert → Alerts → Alerts
process_alert w codes a t = write_alert w codes a t (find_open a.client_id t)

unfoldable pub process_alerts : World → List (String × String) → List PendingAlert → Alerts → Alerts
process_alerts w codes [] t = t
process_alerts w codes (a ∷ as') t = process_alerts w codes as' (process_alert w codes a t)

abbrev pub is_pending : List PendingAlert → String → Bool
is_pending pending c = any (λ a. str_eq a.client_id c) pending

unfoldable pub resolve_absent : ℕ → List PendingAlert → Alerts → Alerts
resolve_absent now pending t =
    update_each (λ r. r.id) (resolve now)
      (filter (λ r. is_unresolved r && not (is_pending pending r.client_id)) t) t

unfoldable pub process_escalations :
    World → List (String × String) → List PendingAlert → Alerts → Alerts
process_escalations w codes pending t =
    process_auto_escalation w.cfg w.auto w.mailer w.recipients
      (resolve_absent w.now pending (process_alerts w codes pending t))
