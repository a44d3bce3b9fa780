-- ===== src/Sync/Discovery/Entry.antt =====
-- The loop of syncClientCrons over the entries: the name of a job, its row, and the rows removed.
use mathlib.Core.Option
use wfmcontrol_m.Prelude.{
  ℕ, suc, Bool, true, false, not, ◌&&◌, Option, none, some, List, [], ◌∷◌, ◌++◌, any, filter, find,
  length, ◌==◌, if◌then◌else◌, is_some,
}
use wfmcontrol_m.Table.{update}
use wfmcontrol_m.Text.{Text, text, text_eq}
use wfmcontrol_m.Access.Username.{first_free, taken}
use wfmcontrol_m.Sync.{Job, Client}
use wfmcontrol_m.Sync.Ssh.{Reply, Shell}
use wfmcontrol_m.Sync.CronLine.{CronEntry, extract_job_name, extract_first_param, infer_job_type}
use wfmcontrol_m.Executor.{or_kept}

pub record CronEnv : Type 0 where
  pub sync_enabled : Bool
  pub credentials : Option Text
  pub connect : Text → Reply Shell
  pub next_run : Text → Text → Option (ℕ × Text)
  pub prefix : Text
  pub cron_entry_path : Text
  pub cooldown_hrs : ℕ
  pub started : ℕ
  pub ended : ℕ
  pub refuse : Text → Option Text
  pub refuse_cache : Option Text
  pub refuse_removal : Option Text
  pub refuse_history : Option Text
  pub refuse_client : Option Text
  pub refuse_server : Option Text

pub record Progress : Type 0 where
  pub jobs : List Job
  pub names : List Text
  pub processed : List ℕ
  pub created : ℕ
  pub updated : ℕ
  pub errors : List Text
  pub next_id : ℕ

abbrev pub with_param : Text → Option Text → Text
with_param name none = name
with_param name (some p) = name ++ text " [" ++ p ++ text "]"

abbrev pub base_name : Client → CronEntry → Text
base_name c e =
    with_param (c.code ++ text " - " ++ extract_job_name e.command) (extract_first_param e.command)

abbrev pub with_schedule : List Text → CronEntry → Text → Text
with_schedule seen e name =
    if taken seen name then name ++ text " (" ++ e.schedule ++ text ")" else name

-- The loop over the suffixes has fuel, one more than there are names, which is enough.
unfoldable pub with_suffix : List Text → Text → Text
with_suffix seen name =
    if taken seen name then first_free seen (name ++ text " #") (suc (length seen)) 2 else name

unfoldable pub job_name : List Text → Client → CronEntry → Text
job_name seen c e = with_suffix seen (with_schedule seen e (base_name c e))

abbrev pub appserver_cron : Text
appserver_cron = text "appserver_cron"

abbrev pub is_text : Text → Option Text → Bool
is_text t none = false
is_text t (some s) = text_eq s t

abbrev pub of_client : ℕ → Option ℕ → Bool
of_client c none = false
of_client c (some d) = d == c

-- A job that a sync of the client keeps or removes.
abbrev pub is_cron_of : ℕ → Job → Bool
is_cron_of c j = of_client c j.client_id && text_eq j.source_system appserver_cron && not j.deleted

abbrev pub is_existing : ℕ → CronEntry → Job → Bool
is_existing c e j = is_cron_of c j && is_text e.command j.source_identifier

abbrev pub name_taken : Text → ℕ → List Job → Bool
name_taken name i js = any (λ j. text_eq j.name name && not (j.id == i)) js

abbrev pub run_time : Option (ℕ × Text) → Option ℕ
run_time o = Option.map (λ r. r.0) o

abbrev pub run_text : Option (ℕ × Text) → Option Text
run_text o = Option.map (λ r. r.1) o

abbrev pub logs_change : Option Text → Option Text → Bool
logs_change none old = false
logs_change (some p) old = not (is_text p old)

-- `rename` says whether the new name is free.
unfoldable pub refresh_job : Client → CronEntry → Text → Text → Option (ℕ × Text) → Bool → Job → Job
refresh_job c e name tz next rename j =
    let moved = logs_change e.log_path j.log_path in
    record j {
      name = if rename then name else j.name;
      cron_expression = some e.schedule;
      log_path = if moved then e.log_path else j.log_path;
      log_check_enabled = if moved && c.remote_log_tail_enabled then true else j.log_check_enabled;
      server_timezone = some tz;
      timezone = tz;
      next_run_time = or_kept (run_time next) j.next_run_time;
      next_run_local = or_kept (run_text next) j.next_run_local;
    }

-- The update of the upsert by name, whatever job has the name.
unfoldable pub take_over : Client → CronEntry → Text → Option (ℕ × Text) → Job → Job
take_over c e tz next j = record j {
  client_id = some c.id;
  cron_expression = some e.schedule;
  command = some e.command;
  log_path = e.log_path;
  log_check_enabled = is_some e.log_path && c.remote_log_tail_enabled;
  source_identifier = some e.command;
  server_timezone = some tz;
  timezone = tz;
  next_run_time = or_kept (run_time next) j.next_run_time;
  next_run_local = or_kept (run_text next) j.next_run_local;
}

unfoldable pub new_job : Client → CronEntry → Text → Text → Option (ℕ × Text) → ℕ → Job
new_job c e name tz next id = record {
  id = id;
  name = name;
  client_id = some c.id;
  job_type = infer_job_type e.command;
  source_system = appserver_cron;
  source_identifier = some e.command;
  cron_expression = some e.schedule;
  command = some e.command;
  log_path = e.log_path;
  log_check_enabled = is_some e.log_path && c.remote_log_tail_enabled;
  server_timezone = some tz;
  timezone = tz;
  next_run_time = run_time next;
  next_run_local = run_text next;
  is_active = true;
  deleted = false;
  last_run_status = none;
  last_run_at = none;
  last_log_check_at = none;
}

unfoldable pub write_existing :
    Client → CronEntry → Text → Text → Option (ℕ × Text) → Job → Progress → Progress
write_existing c e name tz next j p = record p {
  jobs =
      update (λ j. j.id) j.id (refresh_job c e name tz next (not (name_taken name j.id p.jobs)))
        p.jobs;
  processed = j.id ∷ p.processed;
  updated = suc p.updated;
}

-- The upsert, with the job that has the name.
unfoldable pub upsert_job :
    Client → CronEntry → Text → Text → Option (ℕ × Text) → Option Job → Progress → Progress
upsert_job c e name tz next (some j) p = record p {
  jobs = update (λ j. j.id) j.id (take_over c e tz next) p.jobs;
  processed = j.id ∷ p.processed;
  created = suc p.created;
}
upsert_job c e name tz next none p = record p {
  jobs = new_job c e name tz next p.next_id ∷ p.jobs;
  processed = p.next_id ∷ p.processed;
  created = suc p.created;
  next_id = suc p.next_id;
}

unfoldable pub write_job :
    Client → CronEntry → Text → Text → Option (ℕ × Text) → Option Job → Progress → Progress
write_job c e name tz next (some j) p = write_existing c e name tz next j p
write_job c e name tz next none p =
    upsert_job c e name tz next (find (λ j. text_eq j.name name) p.jobs) p

-- The body of the loop, with what the database refuses.
unfoldable pub try_entry :
    CronEnv → Client → Text → CronEntry → Text → Option Text → Progress → Progress
try_entry env c tz e name (some message) p = record p {
  errors = p.errors ++ (text "Failed to process cron: " ++ message) ∷ [];
}
try_entry env c tz e name none p =
    write_job c e name tz (env.next_run e.schedule tz) (find (is_existing c.id e) p.jobs) p

unfoldable pub process_entry : CronEnv → Client → Text → CronEntry → Progress → Progress
process_entry env c tz e p =
    let name = job_name p.names c e in
    try_entry env c tz e name (env.refuse name) (record p { names = name ∷ p.names })

unfoldable pub process_entries : CronEnv → Client → Text → List CronEntry → Progress → Progress
process_entries env c tz [] p = p
process_entries env c tz (e ∷ es) p = process_entries env c tz es (process_entry env c tz e p)

-- deleteMany, with `id: { notIn: processed }`
unfoldable pub remove_stale : ℕ → List ℕ → List Job → List Job
remove_stale c processed js =
    filter (λ j. not (is_cron_of c j && not (any (λ i. i == j.id) processed))) js
