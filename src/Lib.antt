-- ===== src/Lib.antt =====
-- WFM Control-M: a model of the backend that watches batch queues, escalates, and runs jobs
-- (backend/src of the repository), with the theorems about it.
--
-- The parts and how they meet:
--   * The routes of backend/src/routes/db-monitor.ts poll the batch queues of the clients and pass the
--     clients with stale critical jobs to backend/src/services/escalation-service.ts, which keeps one
--     row of the table escalatedAlert for each of them, emails it past a threshold and acknowledges it.
--     DbMonitor models the two routes, Escalation the rows and the single operations,
--     Escalation.Notify sendEscalationEmails and processAutoEscalationNotifyAndAck, and
--     Escalation.Process processEscalations. Escalation.Report models getQueueBuildupHistory with
--     backend/src/utils/escalation-report.ts.
--   * backend/src/services/purge-service.ts deletes old rows of that table and of others: Purge.
--     Purge.Polls puts the two services together.
--   * A session is a JWT with an id and a version. Session.Revocation models
--     backend/src/services/token-revocation-service.ts, Session.Cookie utils/session-cookie.ts,
--     Session.Csrf utils/csrf-token.ts with middleware/csrf.ts, and Session.Auth middleware/index.ts
--     with websocket/auth.ts, all under backend/src.
--   * backend/src/engine/scheduler.ts decides what is to run and hands it to engine/executor.ts:
--     Scheduler, Executor (one attempt) and Executor.Retry (the attempts of an execution).
--   * backend/src/utils/config-limits.ts says which values may be saved, and
--     services/config-service.ts keeps them: Config and Config.Store.
--   * backend/src/services/access-request-service.ts decides who may sign in and creates accounts:
--     Access, Access.Username and Access.Review.
--   * backend/src/services/sync-service.ts reads the crontab of a server and keeps one job for each entry,
--     reads the logs of the jobs, and does both for many clients. Sync holds the rows of its tables,
--     Sync.CronLine the parser of a crontab, Sync.Timezone and Sync.ZoneScan the zones of the servers,
--     Sync.Discovery with Sync.Discovery.Entry syncClientCrons, Sync.LogCheck with Sync.LogCheck.Verdict
--     and Sync.LogCheck.Store the checks of logs, and Sync.Bulk the runs over all clients with their
--     batches. RemotePath models utils/remote-path.ts and Sync.Ssh the list of allowed commands in
--     utils/ssh-client.ts.
--   * backend/src/services/payroll-service.ts shows the pay runs of the clients: Payroll models
--     constants/payroll.ts, Payroll.Phase the phases of a run, Payroll.Monitor the pay generators and
--     Payroll.Monitor.Snapshot getMonitorSnapshot over the answers of the database.
--   * Punch models services/unproc-punch-alert-service.ts with utils/punch-stale.ts, Outage
--     utils/outage-cron-utils.ts, Outage.Impact services/outage-impact-service.ts, Alert
--     services/alert-service.ts, and Redaction utils/log-redaction.ts, all under backend/src.
-- Text, Text.Decimal and Text.Search hold the methods of JavaScript's strings and numbers that these use,
-- Regex its regular expressions with their backtracking, in which the patterns of the source are written
-- out; Table is a database table with a numeric key; Prelude passes on the library's names. Definitions
-- stand in the module of the part; Laws, Tracking, Held, Restart, Resolved, Auto, Polls, Versions,
-- Names and Quoting below it hold proofs. Tests runs the theorems on concrete data.
--
-- How the code is written here: a handler is a function from the state to the state, with the result
-- where it has one; an error thrown is `none` or a constructor of an error type; a clock that is read is
-- an argument, one for each read that may differ. Ids of rows are opaque, numbers where they are only
-- compared. Times are milliseconds in ℕ; a test against `now - d` is written with `d` on the other side,
-- since subtraction on ℕ stops at 0.
--
-- Bounds: printing a number has fuel one more than the number, and the search for a free username one
-- more than there are users; both are enough. The repetitions of a regular expression have the length of
-- the text as fuel, since each takes a character; the search for a free name of a job has one more than
-- the names taken; the loop over the runs of an outage has the 500 turns of the source. The loop over
-- the attempts of an execution recurses on the attempts left.
--
-- Parameters: the mail transport, jwt.verify and jwt.decode (IsJwt), HMAC and base64url (IsBase64Url),
-- cron validation and next runs, encryption of secrets, toLowerCase, fresh ids of the database, and
-- the process or request that does a job, the replies of a remote shell, the answers of DB2, the
-- parser of cron expressions, Date.parse and Date.UTC, toUpperCase, localeCompare, the double nearest
-- to an integer, the way a killed process ends, and which writes are refused. The hypotheses on them
-- are the records named here.
--
-- Not modelled: the front end, the connections to DB2, SSH and LDAP servers, the texts of messages and of
-- answers over HTTP, the calendar of the report, the watch of files and processes, the lists and details
-- that only read the database (histories, payroll status), and the set-up of the logger.
pub mod Prelude
pub mod Table
pub mod Text
pub mod Regex
pub mod RemotePath
pub mod Sync
pub mod Redaction
pub mod Payroll
pub mod Punch
pub mod Outage
pub mod Alert
pub mod Escalation
pub mod DbMonitor
pub mod Purge
pub mod Session
pub mod Executor
pub mod Config
pub mod Access
pub mod Scheduler
pub mod Tests
