-- ===== src/Sync/Discovery.antt =====
-- syncClientCrons: the crontab of a client's server as rows of the table of jobs.
-- `started` is the clock before the connection is made, `ended` after the file is read. What the cron
-- parser says of a next run is a parameter, with its text for display, and so are the writes of a job
-- that the database refuses.
pub mod Names
pub mod Entry
pub mod Laws
use wfmcontrol_m.Prelude.{
  ℕ, suc, ◌+◌, ◌*◌, Bool, true, false, not, ◌&&◌, ◌||◌, Option, none, some, List, [], ◌∷◌, ◌++◌,
  map, any, filter, find, length, leb, ltb, ◌==◌, if◌then◌else◌, get_or,
}
use wfmcontrol_m.Table.{update}
use wfmcontrol_m.Text.{Text, text, text_eq}
use wfmcontrol_m.RemotePath.{
  validate_remote_cron_file_path, default_log_path_allow_prefixes, shell_quote,
}
use wfmcontrol_m.Sync.{
  Job, Client, AppServer, SyncStatus, sync_running, sync_success, sync_failed, sync_partial,
}
use wfmcontrol_m.Sync.Ssh.{Reply, resolved, rejected, Shell, ssh_exec}
use wfmcontrol_m.Sync.Timezone.{
  ZoneCommand, timedatectl, cat_timezone, readlink_localtime, date_abbreviation,
  detect_server_timezone,
}
use wfmcontrol_m.Sync.CronLine.{CronEntry, parse_cron_entries}
use Entry.{CronEnv, Progress, process_entries, remove_stale}

pub record CachedCronJob : Type 0 where
  pub client_id : ℕ
  pub app_server_id : ℕ
  pub server_dns : Text
  pub entry : CronEntry
  pub fetched_at : ℕ

pub record SyncHistory : Type 0 where
  pub id : ℕ
  pub client_id : ℕ
  pub status : SyncStatus
  pub source : Text
  pub jobs_discovered : ℕ
  pub jobs_created : ℕ
  pub jobs_updated : ℕ
  pub errors : List Text
  pub created_at : ℕ
  pub completed_at : Option ℕ

pub record SyncStore : Type 0 where
  pub clients : List Client
  pub jobs : List Job
  pub cache : List CachedCronJob
  pub history : List SyncHistory
  pub next_id : ℕ

pub record SyncResult : Type 0 where
  pub code : Text
  pub status : SyncStatus
  pub jobs_discovered : ℕ
  pub jobs_created : ℕ
  pub jobs_updated : ℕ
  pub jobs_removed : ℕ
  pub errors : List Text
  pub skipped : Bool

abbrev pub appserver_update : ℕ → (AppServer → AppServer) → Client → Client
appserver_update i f c = record c { servers = update (λ a. a.id) i f c.servers }

abbrev pub set_client : ℕ → (Client → Client) → SyncStore → SyncStore
set_client i f w = record w { clients = update (λ c. c.id) i f w.clients }

-- Less than the cooldown since the last sync.
unfoldable pub in_cooldown : CronEnv → Bool → Client → Bool
in_cooldown env true c = false
in_cooldown env false c = elim c.last_cron_sync_at [
  | none ↦ false
  | some t ↦ ltb env.started (t + env.cooldown_hrs * 3600000)
]

abbrev skipped_result : Client → SyncResult
skipped_result c = record {
  code = c.code;
  status = sync_success;
  jobs_discovered = 0;
  jobs_created = 0;
  jobs_updated = 0;
  jobs_removed = 0;
  errors = [];
  skipped = true;
}

abbrev pub is_running : SyncStatus → Bool
is_running sync_running = true
is_running sync_success = false
is_running sync_failed = false
is_running sync_partial = false

unfoldable pub close_orphan : ℕ → ℕ → SyncHistory → SyncHistory
close_orphan now c h =
    if h.client_id == c && is_running h.status
    then record h {
      status = sync_failed;
      errors = text "Sync interrupted — superseded by new attempt" ∷ [];
      completed_at = some now;
    }
    else h

abbrev source_of : List AppServer → Text
source_of [] = text "unknown"
source_of (a ∷ as') = a.dns

-- The writes before the connection; the new row of the history has the id `next_id`.
unfoldable pub begin_sync : CronEnv → Client → SyncStore → SyncStore
begin_sync env c w =
    let stamped = set_client c.id (λ d. record d { last_cron_attempt_at = some env.started }) w in
    record stamped {
      history =
          record {
            id = w.next_id;
            client_id = c.id;
            status = sync_running;
            source = source_of c.servers;
            jobs_discovered = 0;
            jobs_created = 0;
            jobs_updated = 0;
            errors = [];
            created_at = env.started;
            completed_at = none;
          }
          ∷ map (close_orphan env.started c.id) w.history;
      next_id = suc w.next_id;
    }

abbrev pub zone_command : ZoneCommand → Text
zone_command timedatectl = text "timedatectl show --property=Timezone --value 2>/dev/null || true"
zone_command cat_timezone = text "cat /etc/timezone 2>/dev/null || true"
zone_command readlink_localtime = text "readlink -f /etc/localtime 2>/dev/null || true"
zone_command date_abbreviation = text "date +%Z 2>/dev/null || true"

abbrev pub printed : Reply Text → Option Text
printed (resolved t) = some t
printed (rejected e) = none

unfoldable pub zone_over : Shell → Text
zone_over shell = detect_server_timezone (λ c. printed (ssh_exec shell (zone_command c)))

unfoldable pub store_zone : Client → AppServer → Text → SyncStore → SyncStore
store_zone c server tz w =
    let on_server =
      set_client c.id (appserver_update server.id (λ a. record a { timezone = some tz })) w in
    if text_eq c.timezone tz
    then on_server
    else set_client c.id (λ d. record d { timezone = tz }) on_server

-- The cached rows of the server are replaced.
unfoldable pub write_cache :
    ℕ → Client → AppServer → List CronEntry → List CachedCronJob → List CachedCronJob
write_cache now c server entries cache =
    filter (λ r. not (r.client_id == c.id && r.app_server_id == server.id)) cache
    ++ map
        (λ e. record {
          client_id = c.id;
          app_server_id = server.id;
          server_dns = server.dns;
          entry = e;
          fetched_at = now;
        })
        entries

abbrev status_for : List Text → SyncStatus
status_for [] = sync_success
status_for (e ∷ es) = sync_partial

abbrev finish_history : ℕ → ℕ → Progress → SyncHistory → SyncHistory
finish_history now discovered p h = record h {
  status = status_for p.errors;
  jobs_discovered = discovered;
  jobs_created = p.created;
  jobs_updated = p.updated;
  errors = p.errors;
  completed_at = some now;
}

abbrev finish_server : ℕ → ℕ → Progress → AppServer → AppServer
finish_server now discovered p a = record a {
  last_cron_fetch_at = some now;
  last_cron_fetch_status = some (status_for p.errors);
  cron_job_count = some discovered;
}

abbrev finish_client : ℕ → Client → Client
finish_client now c = record c { last_cron_sync_at = some now; last_cron_cache_at = some now }

abbrev pub result_of : Client → ℕ → Progress → SyncResult
result_of c discovered p = record {
  code = c.code;
  status = status_for p.errors;
  jobs_discovered = discovered;
  jobs_created = p.created;
  jobs_updated = p.updated;
  jobs_removed = 0;
  errors = p.errors;
  skipped = false;
}

-- The first server, if there is one, shows the failure.
abbrev pub mark_failed : ℕ → List AppServer → SyncStore → SyncStore
mark_failed id [] w = w
mark_failed id (a ∷ as') w =
    set_client id
      (appserver_update a.id (λ b. record b { last_cron_fetch_status = some sync_failed })) w

-- The catch block, which touches neither jobs nor cached rows.
unfoldable pub fail_sync : CronEnv → Client → ℕ → Text → SyncStore → SyncStore
fail_sync env c row message w = mark_failed c.id c.servers (record w {
  history =
      update (λ h. h.id) row
        (λ h. record h {
          status = sync_failed;
          errors = message ∷ [];
          completed_at = some env.ended;
        })
        w.history;
})

abbrev failing : CronEnv → Client → ℕ → Text → SyncStore → SyncStore × Reply SyncResult
failing env c row message w = (fail_sync env c row message w, rejected message)

-- A write of the database, unless it is refused.
abbrev pub unless_refused : Option Text → (SyncStore → SyncStore) → SyncStore → SyncStore
unless_refused none f w = f w
unless_refused (some e) f w = w

abbrev pub either_error : Option Text → Option Text → Option Text
either_error none o = o
either_error (some e) o = some e

-- Each step has the error of its write as an argument, where the write is refused.
unfoldable pub on_saved :
    CronEnv
    → Client
    → AppServer
    → ℕ
    → ℕ
    → Progress
    → Option Text
    → SyncStore
    → SyncStore × Reply SyncResult
on_saved env c server row discovered p none w = (w, resolved (result_of c discovered p))
on_saved env c server row discovered p (some e) w = failing env c row e w

-- The updates of the client and of its server run at the same time: one is made though the other is
-- refused.
unfoldable pub save_dates :
    CronEnv → Client → AppServer → ℕ → ℕ → Progress → SyncStore → SyncStore × Reply SyncResult
save_dates env c server row discovered p w =
    on_saved env c server row discovered p (either_error env.refuse_client env.refuse_server) (
      unless_refused env.refuse_server
        (set_client c.id (appserver_update server.id (finish_server env.ended discovered p)))
        (unless_refused env.refuse_client (set_client c.id (finish_client env.ended)) w))

unfoldable pub save_history :
    CronEnv
    → Client
    → AppServer
    → ℕ
    → ℕ
    → Progress
    → Option Text
    → SyncStore
    → SyncStore × Reply SyncResult
save_history env c server row discovered p (some e) w = failing env c row e w
save_history env c server row discovered p none w =
    save_dates env c server row discovered p (record w {
      history = update (λ h. h.id) row (finish_history env.ended discovered p) w.history;
    })

unfoldable pub save_removal :
    CronEnv
    → Client
    → AppServer
    → ℕ
    → ℕ
    → Progress
    → Option Text
    → SyncStore
    → SyncStore × Reply SyncResult
save_removal env c server row discovered p (some e) w = failing env c row e w
save_removal env c server row discovered p none w =
    save_history env c server row discovered p env.refuse_history
      (record w { jobs = remove_stale c.id p.processed w.jobs })

-- The write of the cached rows, the loop over the entries, and the writes after it.
unfoldable pub save_jobs :
    CronEnv
    → Client
    → AppServer
    → ℕ
    → Text
    → List CronEntry
    → Option Text
    → SyncStore
    → SyncStore × Reply SyncResult
save_jobs env c server row tz entries (some e) w = failing env c row e w
save_jobs env c server row tz entries none w =
    let p = process_entries env c tz entries (record {
      jobs = w.jobs;
      names = [];
      processed = [];
      created = 0;
      updated = 0;
      errors = [];
      next_id = w.next_id;
    }) in
    save_removal env c server row (length entries) p env.refuse_removal (record w {
      jobs = p.jobs;
      next_id = p.next_id;
      cache = write_cache env.ended c server entries w.cache;
    })

-- From the text of the file on; `row` is the row of the history. A write that is refused goes to the catch
-- block, with the writes before it made; those of the catch block itself are not refused.
unfoldable pub apply_crontab :
    CronEnv → Client → AppServer → ℕ → Text → Text → SyncStore → SyncStore × Reply SyncResult
apply_crontab env c server row tz raw w =
    save_jobs env c server row tz (parse_cron_entries env.prefix raw) env.refuse_cache w

unfoldable pub on_file :
    CronEnv → Client → AppServer → ℕ → Text → Reply Text → SyncStore → SyncStore × Reply SyncResult
on_file env c server row tz (rejected e) w = failing env c row e w
on_file env c server row tz (resolved raw) w = apply_crontab env c server row tz raw w

unfoldable pub on_path :
    CronEnv
    → Client
    → AppServer
    → ℕ
    → Shell
    → Text
    → Option Text
    → SyncStore
    → SyncStore × Reply SyncResult
on_path env c server row shell tz none w =
    failing env c row (text "Cron entry path not configured or invalid (infra.sshCronEntryPath)") w
on_path env c server row shell tz (some path) w =
    on_file env c server row tz (ssh_exec shell (text "cat " ++ shell_quote path)) w

unfoldable pub on_connection :
    CronEnv → Client → AppServer → ℕ → Reply Shell → SyncStore → SyncStore × Reply SyncResult
on_connection env c server row (rejected e) w = failing env c row e w
on_connection env c server row (resolved shell) w =
    let tz = zone_over shell in
    on_path env c server row shell tz
      (validate_remote_cron_file_path (some env.cron_entry_path)
        (default_log_path_allow_prefixes env.prefix))
      (store_zone c server tz w)

unfoldable pub on_credentials :
    CronEnv → Client → AppServer → ℕ → Option Text → SyncStore → SyncStore × Reply SyncResult
on_credentials env c server row (some e) w = failing env c row e w
on_credentials env c server row none w = on_connection env c server row (env.connect server.dns) w

unfoldable pub on_servers :
    CronEnv → Client → ℕ → List AppServer → SyncStore → SyncStore × Reply SyncResult
on_servers env c row [] w =
    failing env c row (text "No active Prod servers for client " ++ c.code) w
on_servers env c row (a ∷ as') w = on_credentials env c a row env.credentials w

unfoldable pub sync_found :
    CronEnv → Bool → Option Client → SyncStore → SyncStore × Reply SyncResult
sync_found env force none w = (w, rejected (text "Client not found"))
sync_found env force (some c) w =
    if in_cooldown env force c
    then (w, resolved (skipped_result c))
    else on_servers env c w.next_id c.servers (begin_sync env c w)

abbrev pub sync_disabled_error : Text
sync_disabled_error =
    text
      "SSH sync is disabled (engine.syncEnabled=false). Re-enable in Admin → Config or the Cron Jobs page."

unfoldable pub sync_client_crons : CronEnv → Bool → ℕ → SyncStore → SyncStore × Reply SyncResult
sync_client_crons env force id w =
    if not env.sync_enabled
    then (w, rejected sync_disabled_error)
    else sync_found env force (find (λ c. c.id == id) w.clients) w
