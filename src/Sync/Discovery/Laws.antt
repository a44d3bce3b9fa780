-- ===== src/Sync/Discovery/Laws.antt =====
-- What a sync does to the jobs of its client: when it fails, when it reads nothing, and when two lines
-- have one command.
use wfmcontrol_m.Prelude.{
  ℕ, suc, ◌≡◌, refl, ◌∙◌, Bool, true, not, Option, none, some, List, [], ◌∷◌, count, find, All,
  arith, Bool-cases, inl, inr, ==_iff, ◌≢◌,
}
use wfmcontrol_m.Text.{Text, text_eq}
use wfmcontrol_m.Text.Laws.{text_eq_refl}
use wfmcontrol_m.Table.{update}
use wfmcontrol_m.Table.Laws.{update_absent}
use wfmcontrol_m.Sync.{Job, Client, AppServer, sync_success}
use wfmcontrol_m.Sync.Ssh.{Reply, resolved, rejected, Shell}
use wfmcontrol_m.Sync.CronLine.{CronEntry, parse_cron_entries}
use wfmcontrol_m.Sync.Discovery.{
  SyncStore, SyncResult, sync_client_crons, sync_found, on_servers, on_credentials, on_connection,
  on_path, on_file, apply_crontab, save_jobs, save_removal, save_history, save_dates, on_saved,
  fail_sync, mark_failed, zone_over, begin_sync, store_zone, in_cooldown, result_of,
}
use wfmcontrol_m.Sync.Discovery.Entry.{
  CronEnv, Progress, process_entries, process_entry, try_entry, write_job, write_existing,
  upsert_job, job_name, is_existing, is_cron_of, remove_stale, new_job, refresh_job, name_taken,
}

-- The jobs and the cached crontab are those of `w`.
abbrev SameRows : SyncStore → SyncStore → Type 0
SameRows w v = (v.jobs ≡ w.jobs) × (v.cache ≡ w.cache)

-- So it is after a failure.
abbrev pub KeptOnFailure : SyncStore → SyncStore × Reply SyncResult → Type 0
KeptOnFailure w (v, resolved r) = Unit
KeptOnFailure w (v, rejected e) = SameRows w v

mark_failed-same :
    (i : ℕ) (servers : List AppServer) (w : SyncStore) → SameRows w (mark_failed i servers w)
mark_failed-same i [] w = (refl, refl)
mark_failed-same i (a ∷ as') w = (refl, refl)

store_zone-same :
    (c : Client) (server : AppServer) (tz : Text) (w : SyncStore)
    → SameRows w (store_zone c server tz w)
unfolding store_zone
store_zone-same c server tz w = elim (Bool-cases (text_eq c.timezone tz)) [
  | inl e ↦ simp e (refl, refl)
  | inr e ↦ simp e (refl, refl)
]

-- The database accepts the writes that come after that of the cached rows.
abbrev pub AcceptsLate : CronEnv → Type 0
AcceptsLate env =
    (env.refuse_removal ≡ none)
    × (env.refuse_history ≡ none)
    × (env.refuse_client ≡ none)
    × (env.refuse_server ≡ none)

module _ (env : CronEnv) (late : AcceptsLate env) (c : Client) where
  fail_sync-same :
      (row : ℕ) (m : Text) (w v : SyncStore) → SameRows w v → SameRows w (fail_sync env c row m v)
  unfolding fail_sync
  fail_sync-same row m w v (j, k) =
      let (j', k') = mark_failed-same c.id c.servers _ in (j' ∙ j, k' ∙ k)

  -- Once the cached rows are written, the sync succeeds.
  save_jobs-kept :
      (server : AppServer) (row : ℕ) (tz : Text) (entries : List CronEntry) (o : Option Text)
      (w v : SyncStore)
      → SameRows w v
      → KeptOnFailure w (save_jobs env c server row tz entries o v)
  unfolding save_jobs save_removal save_history save_dates on_saved
  save_jobs-kept server row tz entries (some e) w v h = fail_sync-same row e w v h
  save_jobs-kept server row tz entries none w v h =
      let (removal, history, client, at_server) = late in
      simp (removal, history, client, at_server) tt

  on_file-kept :
      (server : AppServer) (row : ℕ) (tz : Text) (o : Reply Text) (w v : SyncStore)
      → SameRows w v
      → KeptOnFailure w (on_file env c server row tz o v)
  unfolding on_file apply_crontab
  on_file-kept server row tz (rejected e) w v h = fail_sync-same row e w v h
  on_file-kept server row tz (resolved raw) w v h = save_jobs-kept server row tz _ _ w v h

  on_path-kept :
      (server : AppServer) (row : ℕ) (shell : Shell) (tz : Text) (o : Option Text) (w v : SyncStore)
      → SameRows w v
      → KeptOnFailure w (on_path env c server row shell tz o v)
  unfolding on_path
  on_path-kept server row shell tz none w v h = fail_sync-same row _ w v h
  on_path-kept server row shell tz (some path) w v h = on_file-kept server row tz _ w v h

  on_connection-kept :
      (server : AppServer) (row : ℕ) (o : Reply Shell) (w v : SyncStore)
      → SameRows w v
      → KeptOnFailure w (on_connection env c server row o v)
  unfolding on_connection
  on_connection-kept server row (rejected e) w v h = fail_sync-same row e w v h
  on_connection-kept server row (resolved shell) w v (j, k) =
      let (j', k') = store_zone-same c server (zone_over shell) v in
      on_path-kept server row shell _ _ w _ (j' ∙ j, k' ∙ k)

  on_credentials-kept :
      (server : AppServer) (row : ℕ) (o : Option Text) (w v : SyncStore)
      → SameRows w v
      → KeptOnFailure w (on_credentials env c server row o v)
  unfolding on_credentials
  on_credentials-kept server row (some e) w v h = fail_sync-same row e w v h
  on_credentials-kept server row none w v h = on_connection-kept server row _ w v h

  on_servers-kept :
      (row : ℕ) (servers : List AppServer) (w v : SyncStore)
      → SameRows w v
      → KeptOnFailure w (on_servers env c row servers v)
  unfolding on_servers
  on_servers-kept row [] w v h = fail_sync-same row _ w v h
  on_servers-kept row (a ∷ as') w v h = on_credentials-kept a row env.credentials w v h

sync_found-kept :
    (env : CronEnv) (late : AcceptsLate env) (force : Bool) (o : Option Client) (w : SyncStore)
    → KeptOnFailure w (sync_found env force o w)
unfolding sync_found begin_sync
sync_found-kept env late force none w = (refl, refl)
sync_found-kept env late force (some c) w = elim (Bool-cases (in_cooldown env force c)) [
  | inl e ↦ simp e tt
  | inr e ↦ simp e (on_servers-kept env late c w.next_id c.servers w _ (refl, refl))
]

-- A sync that fails leaves the jobs and the cached rows as they were, where the database refuses none of
-- the last writes: the removal of stale jobs, the row of the history, and the updates of the client and of
-- its server. The write of the cached rows may be refused.
pub sync_client_crons-kept :
    (env : CronEnv) (late : AcceptsLate env) (force : Bool) (id : ℕ) (w : SyncStore)
    → KeptOnFailure w (sync_client_crons env force id w)
unfolding sync_client_crons
sync_client_crons-kept env late force id w = elim (Bool-cases env.sync_enabled) [
  | inl e ↦ simp e (sync_found-kept env late force _ w)
  | inr e ↦ simp e (refl, refl)
]

none_kept : (c : ℕ) (js : List Job) → count (is_cron_of c) (remove_stale c [] js) ≡ 0
unfolding remove_stale
none_kept c [] = refl
none_kept c (j ∷ js) = ground (arith, none_kept c js)

save_jobs-empty :
    (env : CronEnv) (late : AcceptsLate env) (c : Client) (server : AppServer) (row : ℕ) (tz : Text)
    (w : SyncStore)
    → (v : SyncStore) × (r : SyncResult) × (save_jobs env c server row tz [] none w
        ≡ (v, resolved r))
      × (r.status ≡ sync_success)
      × (count (is_cron_of c.id) v.jobs ≡ 0)
unfolding save_jobs save_removal save_history save_dates on_saved process_entries
save_jobs-empty env (removal, history, client, at_server) c server row tz w =
    let none_yet : Progress = record {
      jobs = w.jobs;
      names = [];
      processed = [];
      created = 0;
      updated = 0;
      errors = [];
      next_id = w.next_id;
    } in
    let done = save_jobs env c server row tz [] none w in
    (
      done.0,
      result_of c 0 none_yet,
      simp (removal, history, client, at_server) refl,
      refl,
      simp (removal, history, client, at_server) (none_kept c.id w.jobs),
    )

-- A file in which no line is an entry, as the empty text that `cat` gives of a file that it cannot read,
-- is a success of the sync, and removes every cron job of the client. The database accepts the writes.
pub on_file-empty :
    (env : CronEnv) (c : Client) (server : AppServer) (row : ℕ) (tz raw : Text) (w : SyncStore)
    → parse_cron_entries env.prefix raw ≡ []
    → env.refuse_cache ≡ none
    → AcceptsLate env
    → (v : SyncStore) × (r : SyncResult) × (on_file env c server row tz (resolved raw) w
        ≡ (v, resolved r))
      × (r.status ≡ sync_success)
      × (count (is_cron_of c.id) v.jobs ≡ 0)
on_file-empty env c server row tz raw w h cache late =
    let (v, r, e, status, gone) = save_jobs-empty env late c server row tz w in
    let here : on_file env c server row tz (resolved raw) w
        ≡ save_jobs env c server row tz [] none w =
      unfold on_file apply_crontab in simp (h, cache) refl in
    (v, r, here ∙ e, status, gone)

existing_new :
    (c : Client) (e e' : CronEntry) (name tz : Text) (next : Option (ℕ × Text)) (id : ℕ)
    → e.command ≡ e'.command
    → is_existing c.id e' (new_job c e name tz next id) ≡ true
unfolding new_job
existing_new c e e' name tz next id same =
    rw (same, text_eq_refl e'.command, (==_iff c.id c.id).1 refl) refl

module _ (env : CronEnv) (c : Client) (tz : Text) where
  -- An entry without a job of its command or name.
  process_entry-new :
      (e : CronEntry) (p : Progress)
      → env.refuse (job_name p.names c e) ≡ none
      → find (is_existing c.id e) p.jobs ≡ none
      → find (λ j. text_eq j.name (job_name p.names c e)) p.jobs ≡ none
      → process_entry env c tz e p ≡ (
          let name = job_name p.names c e in
          record p {
            jobs = new_job c e name tz (env.next_run e.schedule tz) p.next_id ∷ p.jobs;
            names = name ∷ p.names;
            processed = p.next_id ∷ p.processed;
            created = suc p.created;
            next_id = suc p.next_id;
          })
  unfolding process_entry
  process_entry-new e p r f n =
      rw r (unfold try_entry in rw f (unfold write_job in rw n (unfold upsert_job in refl)))

  update_first :
      (f : Job → Job) (j : Job) (js rows : List Job)
      → rows ≡ j ∷ js
      → All (λ k. k.id ≢ j.id) js
      → update (λ k. k.id) j.id f rows ≡ f j ∷ js
  update_first f j js rows s a =
      rw (s, (==_iff j.id j.id).1 refl, update_absent (λ k. k.id) j.id f js a) refl

  process_entry-existing :
      (e : CronEntry) (p : Progress) (j : Job) (js : List Job)
      → env.refuse (job_name p.names c e) ≡ none
      → p.jobs ≡ j ∷ js
      → is_existing c.id e j ≡ true
      → process_entry env c tz e p
        ≡ write_existing c e
            (job_name p.names c e)
            tz
            (env.next_run e.schedule tz)
            j
            (record p { names = job_name p.names c e ∷ p.names })
  unfolding process_entry
  process_entry-existing e p j js r s x =
      let found : find (is_existing c.id e) p.jobs ≡ some j = rw s (rw x refl) in
      rw r (unfold try_entry in rw found (unfold write_job in refl))

  -- An entry whose command is that of the first row.
  process_entry-same :
      (e : CronEntry) (p : Progress) (j : Job) (js : List Job)
      → env.refuse (job_name p.names c e) ≡ none
      → p.jobs ≡ j ∷ js
      → is_existing c.id e j ≡ true
      → All (λ k. k.id ≢ j.id) js
      → (k : Job) × ((process_entry env c tz e p).jobs ≡ k ∷ js)
        × (k.cron_expression ≡ some e.schedule)
        × ((process_entry env c tz e p).created ≡ p.created)
        × ((process_entry env c tz e p).updated ≡ suc p.updated)
  process_entry-same e p j js r s x a =
      let rename = not (name_taken (job_name p.names c e) j.id p.jobs) in
      let next = env.next_run e.schedule tz in
      let f = refresh_job c e (job_name p.names c e) tz next rename in
      rw (process_entry-existing e p j js r s x) (
        f j,
        unfold write_existing in update_first f j js p.jobs s a,
        unfold refresh_job in refl,
        unfold write_existing in refl,
        unfold write_existing in refl,
      )

  -- Two lines with one command, whatever their schedules, leave one job, which has the schedule of the
  -- second: so it is where no row of the client has the command and none the name, where the database
  -- refuses no write, and where the id of a new row is new.
  pub process_entries-same_command :
      (e e' : CronEntry) (p : Progress)
      → ((name : Text) → env.refuse name ≡ none)
      → e.command ≡ e'.command
      → find (is_existing c.id e) p.jobs ≡ none
      → find (λ j. text_eq j.name (job_name p.names c e)) p.jobs ≡ none
      → All (λ k. k.id ≢ p.next_id) p.jobs
      → (j : Job) × ((process_entries env c tz (e ∷ e' ∷ []) p).jobs ≡ j ∷ p.jobs)
        × (j.cron_expression ≡ some e'.schedule)
        × ((process_entries env c tz (e ∷ e' ∷ []) p).created ≡ suc p.created)
        × ((process_entries env c tz (e ∷ e' ∷ []) p).updated ≡ suc p.updated)
  unfolding process_entries
  process_entries-same_command e e' p ok same f n a =
      let name = job_name p.names c e in
      let next = env.next_run e.schedule tz in
      let row = new_job c e name tz next p.next_id in
      rw (process_entry-new e p (ok name) f n) (
        process_entry-same e' _ row p.jobs (ok _) refl
          (existing_new c e e' name tz next p.next_id same) (unfold new_job in a))
