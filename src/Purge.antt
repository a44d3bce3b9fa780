-- ===== src/Purge.antt =====
-- backend/src/services/purge-service.ts: the nightly purge by retention period.
-- A table is the list of its rows; of the tables that only the date decides, a row is its id and date.
-- `deleteMany` on a table may throw: `throws` gives the message. Times are milliseconds, and the
-- comparison with `now - retainDays * day` has the days on the row's side.
pub mod Laws
pub mod Polls
use wfmcontrol_m.Prelude.{
  ℕ, String, Bool, true, false, ◌&&◌, ◌||◌, ◌+◌, ◌*◌, not, Option, none, some, List, [], ◌∷◌, ◌++◌,
  map, str_eq, ltb, if◌then◌else◌, filter, count, length, sum,
}
use wfmcontrol_m.Prelude.Int.{ℤ, pos, negsuc}
use wfmcontrol_m.Escalation.{Alerts, EscalatedAlert, is_acknowledged, is_suppressed}

pub record Dated : Type 0 where
  pub id : ℕ
  pub date : ℕ

pub record AlertEvent : Type 0 where
  pub id : ℕ
  pub created_at : ℕ
  pub acknowledged : Bool

pub record Database : Type 0 where
  pub sync_history : List Dated
  pub job_execution : List Dated
  pub alert_event : List AlertEvent
  pub escalated_alert : Alerts
  pub audit_log : List Dated
  pub cached_cron_job : List Dated

pub record PurgeConfig : Type 0 where
  pub id : String
  pub label : String
  pub retain_days : ℤ
  pub enabled : Bool
  pub last_purge_at : Option ℕ
  pub last_purge_count : Option ℕ

pub record PurgeResult : Type 0 where
  pub table : String
  pub label : String
  pub deleted : ℕ
  pub skipped : Bool
  pub error : Option String

abbrev pub day_ms : ℕ
day_ms = 24 * 60 * 60 * 1000

-- date < cutoff
abbrev pub older : ℕ → ℕ → ℕ → Bool
older now days date = ltb (date + days * day_ms) now

abbrev pub old_dated : ℕ → ℕ → Dated → Bool
old_dated now days r = older now days r.date

abbrev pub old_event : ℕ → ℕ → AlertEvent → Bool
old_event now days r = older now days r.created_at && r.acknowledged

abbrev pub old_escalation : ℕ → ℕ → EscalatedAlert → Bool
old_escalation now days r = elim r.resolved_at [
  | none ↦ false
  | some at ↦ older now days at && (is_acknowledged r.status || is_suppressed r.status)
]

-- deleteMany: the number of rows deleted, and the rows left
abbrev pub delete_many {ℓ} : {A : Type ℓ} → (A → Bool) → List A → ℕ × List A
delete_many p t = (count p t, filter (λ r. not (p r)) t)

-- The labels of the `switch`.
pub data PurgeTable : Type 0 where
  sync_history job_execution alert_event escalated_alert audit_log cached_cron_job : PurgeTable

unfoldable pub table_of : String → Option PurgeTable
table_of id =
    if str_eq id "syncHistory"
    then some sync_history
    else if str_eq id "jobExecution"
    then some job_execution
    else if str_eq id "alertEvent"
    then some alert_event
    else if str_eq id "escalatedAlert"
    then some escalated_alert
    else if str_eq id "auditLog"
    then some audit_log
    else if str_eq id "cachedCronJob"
    then some cached_cron_job
    else none

-- Its cases.
unfoldable pub delete_old : ℕ → ℕ → PurgeTable → Database → ℕ × Database
delete_old now days sync_history db =
    let (n, t) = delete_many (old_dated now days) db.sync_history in
    (n, record db { sync_history = t })
delete_old now days job_execution db =
    let (n, t) = delete_many (old_dated now days) db.job_execution in
    (n, record db { job_execution = t })
delete_old now days alert_event db =
    let (n, t) = delete_many (old_event now days) db.alert_event in
    (n, record db { alert_event = t })
delete_old now days escalated_alert db =
    let (n, t) = delete_many (old_escalation now days) db.escalated_alert in
    (n, record db { escalated_alert = t })
delete_old now days audit_log db =
    let (n, t) = delete_many (old_dated now days) db.audit_log in (n, record db { audit_log = t })
delete_old now days cached_cron_job db =
    let (n, t) = delete_many (old_dated now days) db.cached_cron_job in
    (n, record db { cached_cron_job = t })

abbrev pub skip : String → String → PurgeResult
skip id label = record { table = id; label = label; deleted = 0; skipped = true; error = none }

-- The `try` block, for a label that the switch knows or not.
unfoldable pub purge_table :
    (String → Option String)
    → ℕ
    → String
    → String
    → ℕ
    → Option PurgeTable
    → Database
    → PurgeResult × Database
purge_table throws now id label days none db = (skip id label, db)
purge_table throws now id label days (some table) db = elim (throws id) [
  | none ↦
      let (n, db') = delete_old now days table db in
      (record { table = id; label = label; deleted = n; skipped = false; error = none }, db')
  | some message ↦
      (record { table = id; label = label; deleted = 0; skipped = false; error = some message }, db)
]

unfoldable pub run_one :
    (String → Option String) → ℕ → String → String → ℤ → Bool → Database → PurgeResult × Database
run_one throws now id label (pos days) enabled db =
    if enabled then purge_table throws now id label days (table_of id) db else (skip id label, db)
run_one throws now id label (negsuc n) enabled db = (skip id label, db)

-- The loop of `runAll`; `clock` gives the two reads of each round, for the cutoff and for the record.
unfoldable pub run_configs :
    (String → Option String)
    → (ℕ → ℕ × ℕ)
    → ℕ
    → List PurgeConfig
    → Database
    → List PurgeResult × List PurgeConfig × Database
run_configs throws clock round [] db = ([], [], db)
run_configs throws clock round (cfg ∷ rest) db =
    let (cut, stamp) = clock round in
    let (result, db') = run_one throws cut cfg.id cfg.label cfg.retain_days cfg.enabled db in
    let (results, cfgs, db'') = run_configs throws clock (round + 1) rest db' in
    (
      result ∷ results,
      record cfg { last_purge_at = some stamp; last_purge_count = some result.deleted } ∷ cfgs,
      db'',
    )

pub record PurgeRunSummary : Type 0 where
  pub results : List PurgeResult
  pub total_deleted : ℕ

unfoldable pub run_all :
    (String → Option String)
    → (ℕ → ℕ × ℕ)
    → List PurgeConfig
    → Database
    → PurgeRunSummary × List PurgeConfig × Database
run_all throws clock cfgs db =
    let (results, cfgs', db') = run_configs throws clock 0 cfgs db in
    (record { results = results; total_deleted = sum (map (λ r. r.deleted) results) }, cfgs', db')

-- getRowCounts, added up
unfoldable pub total_rows : Database → ℕ
total_rows db =
    length db.sync_history
    + length db.job_execution
    + length db.alert_event
    + length db.escalated_alert
    + length db.audit_log
    + length db.cached_cron_job
