-- ===== src/Purge/Laws.antt =====
-- What a purge deletes.
use wfmcontrol_m.Prelude.{
  ℕ, ◌+◌, String, ◌≡◌, refl, ◌∙◌, Bool, true, false, not, Option, none, some, List, [], ◌∷◌, map,
  filter, length, sum, arith, inl, inr, Option-cases,
}
use wfmcontrol_m.Prelude.Int.{ℤ, pos, negsuc}
use wfmcontrol_m.Escalation.{Alerts}
use wfmcontrol_m.Escalation.Process.Resolved.{ResolvedOpen}
use wfmcontrol_m.Purge.{
  AlertEvent, Database, PurgeConfig, PurgeTable, sync_history, job_execution, alert_event,
  escalated_alert, audit_log, cached_cron_job, table_of, delete_old, purge_table, run_one,
  run_configs, run_all, total_rows, old_dated, old_event, old_escalation, delete_many,
}

length-delete_many {ℓ} :
    {A : Type ℓ} (p : A → Bool) (t : List A)
    → (delete_many p t).0 + length (delete_many p t).1 ≡ length t
length-delete_many p [] = refl
length-delete_many p (r ∷ t) = ground (arith, length-delete_many p t)

delete_old-total_rows :
    (now days : ℕ) (table : PurgeTable) (db : Database)
    → (delete_old now days table db).0 + total_rows (delete_old now days table db).1 ≡ total_rows db
unfolding delete_old total_rows
delete_old-total_rows now days sync_history db =
    omega (arith, length-delete_many (old_dated now days) db.sync_history)
delete_old-total_rows now days job_execution db =
    omega (arith, length-delete_many (old_dated now days) db.job_execution)
delete_old-total_rows now days alert_event db =
    omega (arith, length-delete_many (old_event now days) db.alert_event)
delete_old-total_rows now days escalated_alert db =
    omega (arith, length-delete_many (old_escalation now days) db.escalated_alert)
delete_old-total_rows now days audit_log db =
    omega (arith, length-delete_many (old_dated now days) db.audit_log)
delete_old-total_rows now days cached_cron_job db =
    omega (arith, length-delete_many (old_dated now days) db.cached_cron_job)

-- A relation between the database before and after a deletion, with the count, that a deletion of any
-- table satisfies, holds of the purge of one entry and of a whole run.
module _ (R : Database → ℕ → Database → Type 0) (unchanged : (db : Database) → R db 0 db)
    (deletes : (now days : ℕ) (table : PurgeTable) (db : Database)
      → R db (delete_old now days table db).0 (delete_old now days table db).1) where
  purge_table-R :
      (throws : String → Option String) (now : ℕ) (id label : String) (days : ℕ)
      (table : Option PurgeTable) (db : Database)
      → let (result, db') = purge_table throws now id label days table db in R db result.deleted db'
  unfolding purge_table
  purge_table-R throws now id label days none db = unchanged db
  purge_table-R throws now id label days (some table) db = elim (Option-cases (throws id)) [
    | inl e ↦ rw (e, purge_table) (deletes now days table db)
    | inr (m, e) ↦ rw (e, purge_table) (unchanged db)
  ]

  pub run_one-R :
      (throws : String → Option String) (now : ℕ) (id label : String) (days : ℤ) (enabled : Bool)
      (db : Database)
      → let (result, db') = run_one throws now id label days enabled db in R db result.deleted db'
  unfolding run_one
  run_one-R throws now id label (pos days) true db =
      purge_table-R throws now id label days (table_of id) db
  run_one-R throws now id label (pos days) false db = unchanged db
  run_one-R throws now id label (negsuc n) enabled db = unchanged db

  module _ (compose : (a b c : Database) (m n : ℕ) → R a m b → R b n c → R a (m + n) c) where
    run_configs-R :
        (throws : String → Option String) (clock : ℕ → ℕ × ℕ) (round : ℕ) (cfgs : List PurgeConfig)
        (db : Database)
        → let (results, cfgs', db') = run_configs throws clock round cfgs db in
          R db (sum (map (λ r. r.deleted) results)) db'
    unfolding run_configs
    run_configs-R throws clock round [] db = unchanged db
    run_configs-R throws clock round (cfg ∷ rest) db =
        let cut = (clock round).0 in
        let one = run_one throws cut cfg.id cfg.label cfg.retain_days cfg.enabled db in
        compose db one.1 _ one.0.deleted _
          (run_one-R throws cut cfg.id cfg.label cfg.retain_days cfg.enabled db)
          (run_configs-R throws clock (round + 1) rest one.1)

    pub run_all-R :
        (throws : String → Option String) (clock : ℕ → ℕ × ℕ) (cfgs : List PurgeConfig)
        (db : Database)
        → let (summary, cfgs', db') = run_all throws clock cfgs db in R db summary.total_deleted db'
    unfolding run_all
    run_all-R throws clock cfgs db = run_configs-R throws clock 0 cfgs db

-- The total that a run reports is the number of rows that it removed, whatever is disabled, unknown or
-- throws.
pub run_all-total_rows :
    (throws : String → Option String) (clock : ℕ → ℕ × ℕ) (cfgs : List PurgeConfig) (db : Database)
    → let (summary, cfgs', db') = run_all throws clock cfgs db in
      summary.total_deleted + total_rows db' ≡ total_rows db
run_all-total_rows =
    run_all-R (λ a n b. n + total_rows b ≡ total_rows a) (λ db. omega arith) delete_old-total_rows
      (λ a b c m n p q. omega arith)

filter-not-old_event :
    (now days : ℕ) (t : List AlertEvent)
    → filter (λ r. not r.acknowledged) (delete_many (old_event now days) t).1
      ≡ filter (λ r. not r.acknowledged) t
filter-not-old_event now days [] = refl
filter-not-old_event now days (r ∷ t) = ground (arith, filter-not-old_event now days t)

abbrev pub unacknowledged : Database → List AlertEvent
unacknowledged db = filter (λ r. not r.acknowledged) db.alert_event

delete_old-unacknowledged :
    (now days : ℕ) (table : PurgeTable) (db : Database)
    → unacknowledged (delete_old now days table db).1 ≡ unacknowledged db
unfolding delete_old
delete_old-unacknowledged now days alert_event db = filter-not-old_event now days db.alert_event
delete_old-unacknowledged now days _ db = refl

-- A run keeps every alert event that is not acknowledged, in order.
pub run_all-unacknowledged :
    (throws : String → Option String) (clock : ℕ → ℕ × ℕ) (cfgs : List PurgeConfig) (db : Database)
    → unacknowledged (run_all throws clock cfgs db).2 ≡ unacknowledged db
run_all-unacknowledged =
    run_all-R (λ a n b. unacknowledged b ≡ unacknowledged a) (λ db. refl) delete_old-unacknowledged
      (λ a b c m n p q. q ∙ p)

delete_many-ResolvedOpen :
    (now days : ℕ) (t : Alerts) → ResolvedOpen t → (delete_many (old_escalation now days) t).1 ≡ t
delete_many-ResolvedOpen now days [] h = refl
delete_many-ResolvedOpen now days (r ∷ t) (p, h) =
    ground (arith, delete_many-ResolvedOpen now days t h)

abbrev KeepsEscalations : Database → ℕ → Database → Type 0
KeepsEscalations a n b = ResolvedOpen a.escalated_alert → b.escalated_alert ≡ a.escalated_alert

delete_old-escalated_alert :
    (now days : ℕ) (table : PurgeTable) (db : Database)
    → KeepsEscalations db (delete_old now days table db).0 (delete_old now days table db).1
unfolding delete_old
delete_old-escalated_alert now days escalated_alert db h =
    delete_many-ResolvedOpen now days db.escalated_alert h
delete_old-escalated_alert now days _ db h = refl

-- Where every resolved alert is OPEN no run deletes an escalated alert, whatever the retention.
pub run_all-escalated_alert :
    (throws : String → Option String) (clock : ℕ → ℕ × ℕ) (cfgs : List PurgeConfig) (db : Database)
    → ResolvedOpen db.escalated_alert
    → (run_all throws clock cfgs db).2.escalated_alert ≡ db.escalated_alert
run_all-escalated_alert =
    run_all-R KeepsEscalations (λ db h. refl) delete_old-escalated_alert
      (λ a b c m n p q h. q (rw (p h) h) ∙ p h)
