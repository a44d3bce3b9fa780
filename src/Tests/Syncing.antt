-- ===== src/Tests/Syncing.antt =====
-- Paths, crontabs and their logs, and the runs over many clients.
use wfmcontrol_m.Prelude.{
  ◌≡◌, refl, ◌↔◌, ◌≢◌, true, false, not, ◌||◌, none, some, [], ◌∷◌, All, any, count,
}
use wfmcontrol_m.Text.{Text, text, split, split_from, text_eq, trim, trim_start}
use wfmcontrol_m.Text.Search.{includes, strip_end, strip_start, join}
use wfmcontrol_m.Regex.{test, exec, exec_from, matches}
use wfmcontrol_m.RemotePath.{validate_remote_log_path, is_plain_path, log_extension, shell_quote}
use wfmcontrol_m.RemotePath.Laws.{IsSafePath, validate_remote_log_path-IsSafePath}
use wfmcontrol_m.RemotePath.Quoting.{shell_word, shell_word-shell_quote}
use wfmcontrol_m.Sync.{Job, Client, AppServer, success, sync_success}
use wfmcontrol_m.Sync.Ssh.{resolved, rejected}
use wfmcontrol_m.Sync.CronLine.{CronEntry, parse_cron_entries, parse_lines, parse_cron_line}
use wfmcontrol_m.Sync.CronLine.Laws.{IsEntryOf, IsWfmEntry, parse_cron_entries-IsWfmEntry}
use wfmcontrol_m.Sync.LogCheck.Verdict.{assess}
use wfmcontrol_m.Sync.LogCheck.Laws.{assess-success, last_verdict, failing, succeeding}
use wfmcontrol_m.Sync.LogCheck.Store.{Remote}
use wfmcontrol_m.Sync.Discovery.{
  SyncStore, SyncResult, sync_client_crons, on_file, sync_found, in_cooldown, on_servers,
  on_credentials, on_connection,
}
use wfmcontrol_m.Sync.Discovery.Entry.{CronEnv, Progress, process_entries, is_cron_of, new_job}
use wfmcontrol_m.Sync.Discovery.Laws.{
  KeptOnFailure, sync_client_crons-kept, on_file-empty, process_entries-same_command,
}
use wfmcontrol_m.Sync.Bulk.{World, Place, sync_all_crons, sync_all_clients}
use wfmcontrol_m.Sync.Bulk.Laws.{
  EndsWith, IsAccounted, HasNoFailure, sync_all_crons-IsAccounted, sync_all_clients-HasNoFailure,
}
use wfmcontrol_m.Redaction.{
  Value, object, field, no_field, string, is_sensitive_key, sensitive_keys,
}
use wfmcontrol_m.Redaction.Laws.{is_secret_key, is_sensitive_key-separated}

abbrev prefix : Text
prefix = text "/mount/RWS4"

abbrev log : Text
log = text "/mount/RWS4/logs/x.log"

path_validates :
    validate_remote_log_path (some (text " /mount//RWS4/logs/x.log ")) (prefix ∷ []) true ≡ some log
unfolding validate_remote_log_path trim trim_start is_plain_path includes split_from strip_end
    strip_start join test exec exec_from matches
path_validates = refl

validate_remote_log_path-IsSafePath_example :
    IsSafePath (prefix ∷ []) log × ((not true || test log_extension log) ≡ true)
validate_remote_log_path-IsSafePath_example =
    validate_remote_log_path-IsSafePath (some (text " /mount//RWS4/logs/x.log ")) (prefix ∷ []) true
      log path_validates

shell_word-shell_quote_example :
    shell_word false false (shell_quote (text "it's; rm -rf /")) ≡ some (text "it's; rm -rf /")
shell_word-shell_quote_example = shell_word-shell_quote (text "it's; rm -rf /")

abbrev crontab : Text
crontab = text "0 6 * * * /mount/RWS4/bin/etl.sh >> /mount/RWS4/logs/x.log"

parse_cron_entries-IsWfmEntry_example :
    All (IsEntryOf prefix (split 10 crontab)) (parse_cron_entries prefix crontab)
    × All (IsWfmEntry prefix) (parse_cron_entries prefix crontab)
parse_cron_entries-IsWfmEntry_example = parse_cron_entries-IsWfmEntry prefix crontab

abbrev tail : Text
tail = text "ERROR: retry"

assess-success_example :
    ((assess 5000 log log none (text "10" ∷ text "4" ∷ []) tail none).status ≡ success) ↔ (
      ((assess 5000 log log none (text "10" ∷ text "4" ∷ []) tail none).log_fresh ≡ true)
      × (last_verdict failing succeeding (split 10 tail) ≢ some false))
assess-success_example = assess-success 5000 log log none (text "10" ∷ text "4" ∷ []) tail

abbrev etl : CronEntry
etl = record {
  schedule = text "0 6 * * *";
  command = text "/mount/RWS4/bin/etl.sh";
  log_path = some log;
  raw_line = text "0 6 * * * /mount/RWS4/bin/etl.sh";
}

abbrev etl_at_night : CronEntry
etl_at_night = record etl { schedule = text "0 23 * * *" }

abbrev server : AppServer
server = record {
  id = 1;
  dns = text "app1";
  timezone = none;
  tz_last_attempt_at = none;
  last_cron_fetch_at = none;
  last_cron_fetch_status = none;
  cron_job_count = none;
}

abbrev acme_client : Client
acme_client = record {
  id = 7;
  code = text "ACME";
  timezone = text "UTC";
  remote_log_tail_enabled = true;
  is_active = true;
  cluster = none;
  last_cron_attempt_at = none;
  last_cron_sync_at = none;
  last_cron_cache_at = none;
  servers = server ∷ [];
}

-- A connection that breaks.
abbrev env : CronEnv
env = record {
  sync_enabled = true;
  credentials = none;
  connect = λ dns. rejected (text "timeout");
  next_run = λ cron tz. none;
  prefix = prefix;
  cron_entry_path = text "/mount/backup/cronEntry";
  cooldown_hrs = 24;
  started = 1000;
  ended = 2000;
  refuse = λ name. none;
  refuse_cache = none;
  refuse_removal = none;
  refuse_history = none;
  refuse_client = none;
  refuse_server = none;
}

abbrev progress : Progress
progress = record {
  jobs = [];
  names = [];
  processed = [];
  created = 0;
  updated = 0;
  errors = [];
  next_id = 3;
}

abbrev store : SyncStore
store = record { clients = acme_client ∷ []; jobs = []; cache = []; history = []; next_id = 3 }

-- A job of the client, and its line in the cache.
abbrev filled_store : SyncStore
filled_store = record store {
  jobs = new_job acme_client etl (text "ACME - etl") (text "UTC") none 1 ∷ [];
  cache =
      record {
        client_id = 7;
        app_server_id = 1;
        server_dns = text "app1";
        entry = etl;
        fetched_at = 500;
      }
      ∷ [];
}

sync_client_crons-kept_example :
    KeptOnFailure filled_store (sync_client_crons env true 7 filled_store)
sync_client_crons-kept_example =
    sync_client_crons-kept env (refl, refl, refl, refl) true 7 filled_store

-- The connection breaks.
sync_breaks : (sync_client_crons env true 7 filled_store).1 ≡ rejected (text "timeout")
unfolding sync_client_crons sync_found in_cooldown on_servers on_credentials on_connection
sync_breaks = refl

no_entries : parse_cron_entries prefix [] ≡ []
unfolding parse_cron_entries parse_lines split_from parse_cron_line trim trim_start
no_entries = refl

on_file-empty_example :
    (v : SyncStore) × (r : SyncResult) × (on_file env acme_client server 2
        (text "UTC")
        (resolved [])
        store
      ≡ (v, resolved r))
    × (r.status ≡ sync_success)
    × (count (is_cron_of 7) v.jobs ≡ 0)
on_file-empty_example =
    on_file-empty env acme_client server 2 (text "UTC") [] store no_entries refl
      (refl, refl, refl, refl)

process_entries-same_command_example :
    (j : Job) × ((process_entries env acme_client
        (text "UTC")
        (etl ∷ etl_at_night ∷ [])
        progress).jobs
      ≡ j ∷ [])
    × (j.cron_expression ≡ some (text "0 23 * * *"))
    × ((process_entries env acme_client (text "UTC") (etl ∷ etl_at_night ∷ []) progress).created
        ≡ 1)
    × ((process_entries env acme_client (text "UTC") (etl ∷ etl_at_night ∷ []) progress).updated
        ≡ 1)
process_entries-same_command_example =
    process_entries-same_command env acme_client (text "UTC") etl etl_at_night progress
      (λ name. refl) refl refl refl tt

abbrev remote : Remote
remote = record {
  sync_enabled = true;
  credentials = none;
  connect = λ dns. rejected (text "timeout");
  last_run = λ cron tz. none;
  prefix = prefix;
  now = 2000;
  refuse_update = λ i. none;
  refuse_record = λ i. none;
}

abbrev place : Place
place = record { cron = env; remote = remote }

abbrev world : World
world = record { store = store; executions = []; is_syncing = false }

sync_all_crons-IsAccounted_example :
    EndsWith (IsAccounted 1) world (sync_all_crons (λ i. place) true world)
sync_all_crons-IsAccounted_example = sync_all_crons-IsAccounted (λ i. place) true world

sync_all_clients-HasNoFailure_example :
    EndsWith (HasNoFailure 1) world (sync_all_clients (λ i. place) true world)
sync_all_clients-HasNoFailure_example = sync_all_clients-HasNoFailure (λ i. place) true world

abbrev meta : Value
meta = object (
    field (text "Secret") (string (text "abc"))
      (field (text "note") (string (text "password=abc")) no_field))

is_sensitive_key-separated_example :
    (is_sensitive_key (text "API-Token") ≡ is_secret_key (text "API-Token"))
    × (is_sensitive_key (text "master_password") ≡ false)
    × (is_sensitive_key (text "refresh_token") ≡ false)
    × (any (λ k. text_eq k (text "master_password")) sensitive_keys ≡ true)
    × (any (λ k. text_eq k (text "refresh_token")) sensitive_keys ≡ true)
is_sensitive_key-separated_example = is_sensitive_key-separated (text "API-Token")
