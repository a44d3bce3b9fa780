-- ===== src/Executor.antt =====
-- engine/executor.ts: one execution, its row in the database and its retries. The process or the request
-- that does the job is a parameter: what each attempt gives, and how long it takes. Times are
-- milliseconds. Only rows that are there are updated, so an update does not throw. The memory and CPU
-- measurements are left out: no kind of job sets them, and an update to `undefined` changes nothing.
pub mod Retry
use mathlib.Core.Option
use wfmcontrol_m.Prelude.{
  ℕ, suc, zero, ◌+◌, ◌-◌, ◌*◌, ◌/◌, Bool, true, false, Option, none, some, List, [], ◌∷◌, ◌++◌,
  if◌then◌else◌,
}
use wfmcontrol_m.Prelude.Int.{ℤ, pos, negsuc}
use wfmcontrol_m.Text.{Text, text, take}

pub data ExecutionStatus : Type 0 where
  pending : ExecutionStatus
  queued : ExecutionStatus
  running : ExecutionStatus
  success : ExecutionStatus
  failed : ExecutionStatus
  retry_pending : ExecutionStatus
  cancelled : ExecutionStatus
  timeout : ExecutionStatus
  skipped : ExecutionStatus

pub record ExecutionResult : Type 0 where
  pub succeeded : Bool
  pub exit_code : ℤ
  pub output : Option Text
  pub error_message : Option Text
  pub duration : ℕ

pub record JobExecution : Type 0 where
  pub status : ExecutionStatus
  pub started_at : Option ℕ
  pub completed_at : Option ℕ
  pub duration : Option ℕ
  pub exit_code : Option ℤ
  pub output : Option Text
  pub error_message : Option Text
  pub attempt : ℕ
  pub max_attempts : ℕ

-- engine.maxOutputChars and engine.maxErrorChars
pub record Limits : Type 0 where
  pub max_output_chars : ℕ
  pub max_error_chars : ℕ

pub data ExecutionEvent : Type 0 where
  execution_started : ExecutionEvent
  execution_completed : ExecutionResult → ExecutionEvent
  execution_failed : ExecutionResult → ExecutionEvent

-- The row, the events so far (newest first) and the clock.
pub record Run : Type 0 where
  pub row : JobExecution
  pub events : List ExecutionEvent
  pub now : ℕ

-- What the body of the job does: it gives a result, or throws an error with a message.
pub data Outcome : Type 0 where
  finished : ExecutionResult → Outcome
  thrown : Text → Outcome

pub record Attempt : Type 0 where
  pub outcome : Outcome
  pub takes_ms : ℕ

-- A field that an update sets to `undefined` keeps its value.
abbrev pub or_kept : {A : Type 0} → Option A → Option A → Option A
or_kept none old = old
or_kept (some x) old = some x

unfoldable pub begin_execution : Run → Run
begin_execution w = record w {
  row = record (w.row) { status = running; started_at = some w.now };
  events = execution_started ∷ w.events;
}

abbrev pub status_of : Bool → ExecutionStatus
status_of true = success
status_of false = failed

abbrev pub event_of : ExecutionResult → ExecutionEvent
event_of result = if result.succeeded then execution_completed result else execution_failed result

-- The result that `execute` returns, for a body that took `seconds`.
unfoldable pub result_of : ℕ → Outcome → ExecutionResult
result_of seconds (finished result) = record result { duration = seconds }
result_of seconds (thrown message) = record {
  succeeded = false;
  exit_code = negsuc 0;
  output = some [];
  error_message = some message;
  duration = seconds;
}

abbrev pub write_finished : Limits → ℕ → ExecutionResult → JobExecution → JobExecution
write_finished limits now result row = record row {
  status = status_of result.succeeded;
  completed_at = some now;
  duration = some result.duration;
  exit_code = some result.exit_code;
  output = or_kept (Option.map (take limits.max_output_chars) result.output) row.output;
  error_message =
      or_kept (Option.map (take limits.max_error_chars) result.error_message) row.error_message;
}

abbrev pub write_thrown : ℕ → ℕ → Text → JobExecution → JobExecution
write_thrown now seconds message row = record row {
  status = failed;
  completed_at = some now;
  duration = some seconds;
  exit_code = some (negsuc 0);
  error_message = some message;
}

abbrev pub write_outcome : Limits → ℕ → ℕ → Outcome → JobExecution → JobExecution
write_outcome limits now seconds (finished result) row =
    write_finished limits now (result_of seconds (finished result)) row
write_outcome limits now seconds (thrown message) row = write_thrown now seconds message row

-- The end of `execute`, from the moment the body is done, `takes_ms` after the start.
unfoldable pub end_execution : Limits → Attempt → Run → Run
end_execution limits a w =
    let after = w.now + a.takes_ms in
    record w {
      row = write_outcome limits after (a.takes_ms / 1000) a.outcome w.row;
      events = event_of (result_of (a.takes_ms / 1000) a.outcome) ∷ w.events;
      now = after;
    }

unfoldable pub execute : Limits → Attempt → Run → Run
execute limits a w = end_execution limits a (begin_execution w)

-- What the executor holds of an execution.
pub data Handle : Type 0 where
  with_process : Handle
  with_request : Handle
  without_handle : Handle

-- The process gets signals, and a request is aborted; how the attempt ends then is its outcome.
unfoldable pub cancel : Handle → ℕ → JobExecution → Bool × JobExecution
cancel without_handle now row = (false, row)
cancel with_request now row = (true, row)
cancel with_process now row = (
  true,
  record row {
    status = cancelled;
    completed_at = some now;
    error_message = some (text "Cancelled by user");
  },
)
