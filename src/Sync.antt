-- ===== src/Sync.antt =====
-- services/sync-service.ts: the crontabs of the clients' servers, read over SSH, as rows of the table of
-- jobs, and the checks of the logs of these jobs. Here are the rows that the service reads and writes.
-- The description, the category and the tags of a job are left out: the service writes them once, as
-- constants and the name of the client, and never reads them. Of a remote command, what it prints is a
-- parameter, and so is the parser of cron expressions.
pub mod CronLine
pub mod Timezone
pub mod Ssh
pub mod LogCheck
pub mod Discovery
pub mod Bulk
pub mod ZoneScan
use wfmcontrol_m.Prelude.{ℕ, Bool, Option, List}
use wfmcontrol_m.Prelude.Int.{ℤ}
use wfmcontrol_m.Text.{Text}

pub data LogStatus : Type 0 where
  success : LogStatus
  failed : LogStatus
  not_run : LogStatus
  stale : LogStatus
  unknown : LogStatus

pub data JobType : Type 0 where
  script : JobType
  shell_command : JobType
  http : JobType
  sql : JobType
  file_transfer : JobType
  forecast : JobType
  schedule_gen : JobType
  data_pipeline : JobType

-- `deleted` is `deleteStatus != null`; a time of a log is in seconds, the others in milliseconds.
pub record Job : Type 0 where
  pub id : ℕ
  pub name : Text
  pub client_id : Option ℕ
  pub job_type : JobType
  pub source_system : Text
  pub source_identifier : Option Text
  pub cron_expression : Option Text
  pub command : Option Text
  pub log_path : Option Text
  pub log_check_enabled : Bool
  pub server_timezone : Option Text
  pub timezone : Text
  pub next_run_time : Option ℕ
  pub next_run_local : Option Text
  pub is_active : Bool
  pub deleted : Bool
  pub last_run_status : Option LogStatus
  pub last_run_at : Option ℤ
  pub last_log_check_at : Option ℕ

pub data SyncStatus : Type 0 where
  sync_running : SyncStatus
  sync_success : SyncStatus
  sync_failed : SyncStatus
  sync_partial : SyncStatus

pub record AppServer : Type 0 where
  pub id : ℕ
  pub dns : Text
  pub timezone : Option Text
  pub tz_last_attempt_at : Option ℕ
  pub last_cron_fetch_at : Option ℕ
  pub last_cron_fetch_status : Option SyncStatus
  pub cron_job_count : Option ℕ

-- With `servers`, the servers of the client in Prod that are active: what the service includes.
pub record Client : Type 0 where
  pub id : ℕ
  pub code : Text
  pub timezone : Text
  pub remote_log_tail_enabled : Bool
  pub is_active : Bool
  pub cluster : Option Text
  pub last_cron_attempt_at : Option ℕ
  pub last_cron_sync_at : Option ℕ
  pub last_cron_cache_at : Option ℕ
  pub servers : List AppServer
