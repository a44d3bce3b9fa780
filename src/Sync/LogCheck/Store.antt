-- ===== src/Sync/LogCheck/Store.antt =====
-- checkClientLogs and checkSpecificJobs: the checks of several jobs, and what they write to the tables.
-- A write that the database refuses throws, after the result has been added to the answer.
use wfmcontrol_m.Prelude.{
  ℕ, Bool, true, false, not, ◌&&◌, Option, none, some, List, [], ◌∷◌, ◌++◌, any, filter, find, ◌==◌,
  if◌then◌else◌, get_or, is_some,
}
use wfmcontrol_m.Prelude.Int.{ℤ}
use wfmcontrol_m.Table.{update}
use wfmcontrol_m.Text.{Text, text}
use wfmcontrol_m.Sync.{LogStatus, success, failed, not_run, stale, unknown, Job, Client, AppServer}
use wfmcontrol_m.Sync.Ssh.{Reply, resolved, rejected, Shell}
use wfmcontrol_m.Sync.LogCheck.{LogCheckResult, Summary, check_error, without_log}
use wfmcontrol_m.Sync.LogCheck.Verdict.{check_single_job_log}

-- The time of a log, or the clock.
pub data Moment : Type 0 where
  of_log : ℤ → Moment
  of_clock : ℕ → Moment

pub record LogExecution : Type 0 where
  pub job_id : ℕ
  pub succeeded : Bool
  pub scheduled_at : Moment
  pub started_at : Moment
  pub completed_at : ℕ
  pub exit_code : Option ℕ
  pub output : Summary

pub record LogStore : Type 0 where
  pub jobs : List Job
  pub executions : List LogExecution

-- What the checks read of the world outside: the connection to a host, the cron parser, the path prefix,
-- the clock, and the writes that the database refuses, with the message.
pub record Remote : Type 0 where
  pub sync_enabled : Bool
  pub credentials : Option Text
  pub connect : Text → Reply Shell
  pub last_run : Text → Text → Option ℕ
  pub prefix : Text
  pub now : ℕ
  pub refuse_update : ℕ → Option Text
  pub refuse_record : ℕ → Option Text

abbrev is_success : LogStatus → Bool
is_success success = true
is_success failed = false
is_success not_run = false
is_success stale = false
is_success unknown = false

abbrev moment : ℕ → Option ℤ → Moment
moment now none = of_clock now
moment now (some t) = of_log t

unfoldable pub record_log_check_execution :
    ℕ → ℕ → LogCheckResult → List LogExecution → List LogExecution
record_log_check_execution now job r es =
    record {
      job_id = job;
      succeeded = is_success r.status;
      scheduled_at = moment now r.last_modified;
      started_at = moment now r.last_modified;
      completed_at = now;
      exit_code = r.cron_exit_code;
      output = r.summary;
    }
    ∷ es

unfoldable pub write_status : ℕ → LogCheckResult → Job → Job
write_status now r j = record j {
  last_run_status = some r.status;
  last_run_at = r.last_modified;
  last_log_check_at = some now;
}

abbrev error_result : Text → Text → Text → LogCheckResult
error_result name path message = without_log name path unknown none (check_error message)

-- The writes after a result, and what is added to the answer.
unfoldable pub persist :
    Remote → Job → Text → LogCheckResult → LogStore → LogStore × List LogCheckResult
persist env job path r s = elim (env.refuse_update job.id) [
  | some e ↦ (s, r ∷ error_result job.name path e ∷ [])
  | none ↦
      let updated = record s { jobs = update (λ j. j.id) job.id (write_status env.now r) s.jobs } in
      elim (env.refuse_record job.id) [
        | some e ↦ (updated, r ∷ error_result job.name path e ∷ [])
        | none ↦ (
          record updated {
            executions = record_log_check_execution env.now job.id r updated.executions;
          },
          r ∷ [],
        )
      ]
]

unfoldable pub check_job : Remote → Shell → Text → Job → LogStore → LogStore × List LogCheckResult
check_job env shell tz job s =
    let path = get_or job.log_path [] in
    elim (check_single_job_log shell env.prefix env.last_run env.now tz job path) [
      | rejected e ↦ (s, error_result job.name path e ∷ [])
      | resolved r ↦ persist env job path r s
    ]

unfoldable pub check_jobs :
    Remote → Shell → Text → List Job → LogStore → LogStore × List LogCheckResult
check_jobs env shell tz [] s = (s, [])
check_jobs env shell tz (j ∷ js) s =
    let done = check_job env shell tz j s in
    let rest = check_jobs env shell tz js done.0 in (rest.0, done.1 ++ rest.1)

abbrev same_client : ℕ → Option ℕ → Bool
same_client c none = false
same_client c (some d) = d == c

abbrev pub is_checked : Job → Bool
is_checked j = j.log_check_enabled && is_some j.log_path && j.is_active && not j.deleted

abbrev pub jobs_to_check : ℕ → List Job → List Job
jobs_to_check c js = filter (λ j. same_client c j.client_id && is_checked j) js

abbrev pub zone_of : AppServer → Text
zone_of server = get_or server.timezone (text "UTC")

abbrev first_server : List AppServer → Option AppServer
first_server [] = none
first_server (a ∷ as') = some a

-- The checks over a connection that was made, or its error.
unfoldable pub checked_over :
    Remote → AppServer → List Job → LogStore → LogStore × Reply (List LogCheckResult)
checked_over env server js s = elim (env.connect server.dns) [
  | rejected e ↦ (s, rejected e)
  | resolved shell ↦
      let done = check_jobs env shell (zone_of server) js s in (done.0, resolved done.1)
]

unfoldable pub check_on_server :
    Remote → AppServer → List Job → LogStore → LogStore × Reply (List LogCheckResult)
check_on_server env server [] s = (s, resolved [])
check_on_server env server (j ∷ js) s = elim env.credentials [
  | some e ↦ (s, rejected e)
  | none ↦ checked_over env server (j ∷ js) s
]

unfoldable pub check_client : Remote → Client → LogStore → LogStore × Reply (List LogCheckResult)
check_client env client s =
    if not client.remote_log_tail_enabled
    then (s, resolved [])
    else elim (first_server client.servers) [
      | none ↦ (s, rejected (text "No active Prod servers for client " ++ client.code))
      | some server ↦ check_on_server env server (jobs_to_check client.id s.jobs) s
    ]

abbrev sync_disabled_error : Text
sync_disabled_error =
    text
      "SSH sync is disabled (engine.syncEnabled=false). Re-enable in Admin → Config or the Cron Jobs page."

unfoldable pub check_client_logs :
    Remote → Option Client → LogStore → LogStore × Reply (List LogCheckResult)
check_client_logs env client s =
    if not env.sync_enabled then (s, rejected sync_disabled_error) else elim client [
      | none ↦ (s, rejected (text "Client not found"))
      | some c ↦ check_client env c s
    ]

-- The jobs of a client that has a server, grouped by the client, in the order in which they come.
unfoldable pub add_to_group :
    Client
    → AppServer
    → Job
    → List (Client × AppServer × List Job)
    → List (Client × AppServer × List Job)
add_to_group c server j [] = (c, server, j ∷ []) ∷ []
add_to_group c server j ((d, v, js) ∷ gs) =
    let later = add_to_group c server j gs in
    if d.id == c.id then (d, v, js ++ j ∷ []) ∷ gs else (d, v, js) ∷ later

abbrev client_of : List Client → Option ℕ → Option Client
client_of cs none = none
client_of cs (some i) = find (λ c. c.id == i) cs

unfoldable pub group_job :
    List Client → Job → List (Client × AppServer × List Job) → List (Client × AppServer × List Job)
group_job cs j gs = elim (client_of cs j.client_id) [
  | none ↦ gs
  | some c ↦ elim (first_server c.servers) [ none ↦ gs | some server ↦ add_to_group c server j gs ]
]

unfoldable pub group_jobs :
    List Client
    → List Job
    → List (Client × AppServer × List Job)
    → List (Client × AppServer × List Job)
group_jobs cs [] gs = gs
group_jobs cs (j ∷ js) gs = group_jobs cs js (group_job cs j gs)

abbrev answer_of : LogStore × Reply (List LogCheckResult) → LogStore × List LogCheckResult
answer_of (s, rejected e) = (s, [])
answer_of (s, resolved rs) = (s, rs)

unfoldable pub check_groups :
    Remote → List (Client × AppServer × List Job) → LogStore → LogStore × List LogCheckResult
check_groups env [] s = (s, [])
check_groups env ((c, server, js) ∷ gs) s =
    let skipped = check_groups env gs s in
    let done = answer_of (checked_over env server js s) in
    let rest = check_groups env gs done.0 in
    if not c.remote_log_tail_enabled then skipped else (rest.0, done.1 ++ rest.1)

abbrev asked_for : List ℕ → Job → Bool
asked_for ids j = any (λ i. j.id == i) ids

abbrev with_credentials :
    Remote → List Client → List Job → LogStore → LogStore × Reply (List LogCheckResult)
with_credentials env clients js s = elim env.credentials [
  | some e ↦ (s, rejected e)
  | none ↦ let done = check_groups env (group_jobs clients js []) s in (done.0, resolved done.1)
]

abbrev on_jobs : Remote → List Client → List Job → LogStore → LogStore × Reply (List LogCheckResult)
on_jobs env clients [] s = (s, resolved [])
on_jobs env clients (j ∷ js) s = with_credentials env clients (j ∷ js) s

unfoldable pub check_specific_jobs :
    Remote → List Client → List ℕ → LogStore → LogStore × Reply (List LogCheckResult)
check_specific_jobs env clients [] s = (s, resolved [])
check_specific_jobs env clients (i ∷ ids) s =
    if not env.sync_enabled
    then (s, rejected sync_disabled_error)
    else on_jobs env clients (filter (λ j. asked_for (i ∷ ids) j && is_checked j) s.jobs) s
