-- ===== src/Executor/Retry.antt =====
-- executeWithRetry: attempts, back-off and the row between attempts. The back-off multiplier is a whole
-- number, and the number of retries is not negative.
pub mod Laws
use wfmcontrol_m.Prelude.{
  ℕ, suc, zero, leb, ◌&&◌, ◌+◌, ◌-◌, ◌*◌, ◌/◌, ◌^◌, Bool, true, false, Option, none, some,
  if◌then◌else◌,
}
use wfmcontrol_m.Executor.{
  Limits, Attempt, Run, JobExecution, ExecutionResult, execute, result_of, retry_pending, pending,
}

pub record RetryPolicy : Type 0 where
  pub max_retries : ℕ
  pub retry_delay : ℕ
  pub backoff_multiplier : ℕ

abbrev pub max_attempts_of : Option RetryPolicy → ℕ
max_attempts_of none = 1
max_attempts_of (some policy) = policy.max_retries + 1

-- Seconds before the attempt after `attempt`; without a policy there is no such attempt.
abbrev pub delay_after : Option RetryPolicy → ℕ → ℕ
delay_after none attempt = 0
delay_after (some policy) attempt = policy.retry_delay * policy.backoff_multiplier ^ (attempt - 1)

unfoldable pub set_attempt : ℕ → ℕ → Run → Run
set_attempt attempt max_attempts w = record w {
  row = record (w.row) { attempt = attempt; max_attempts = max_attempts };
}

unfoldable pub mark_retry_pending : Run → Run
mark_retry_pending w = record w { row = record (w.row) { status = retry_pending } }

-- setTimeout waits one millisecond where the delay is less, or does not fit into 31 bits.
abbrev pub timer_ms : ℕ → ℕ
timer_ms ms = if leb 1 ms && leb ms 2147483647 then ms else 1

unfoldable pub sleep : ℕ → Run → Run
sleep ms w = record w { now = w.now + timer_ms ms }

unfoldable pub reset_for_retry : Run → Run
reset_for_retry w = record w {
  row = record (w.row) { status = pending; started_at = none; completed_at = none };
}

unfoldable pub wait_for_retry : ℕ → Run → Run
wait_for_retry delay w = reset_for_retry (sleep (delay * 1000) (mark_retry_pending w))

abbrev pub result_at : Attempt → ExecutionResult
result_at a = result_of (a.takes_ms / 1000) a.outcome

-- The loop with `left` attempts to go after this one; the attempts count from 1.
unfoldable pub retry_loop :
    Limits → Option RetryPolicy → (ℕ → Attempt) → ℕ → ℕ → ℕ → Run → ExecutionResult × Run
retry_loop limits policy attempts max_attempts zero attempt w = (
  result_at (attempts attempt),
  execute limits (attempts attempt) (set_attempt attempt max_attempts w),
)
retry_loop limits policy attempts max_attempts (suc left) attempt w =
    let ran = execute limits (attempts attempt) (set_attempt attempt max_attempts w) in
    let again =
      retry_loop limits policy attempts max_attempts left (suc attempt)
        (wait_for_retry (delay_after policy attempt) ran) in
    if (result_at (attempts attempt)).succeeded then (result_at (attempts attempt), ran) else again

unfoldable pub execute_with_retry :
    Limits → Option RetryPolicy → (ℕ → Attempt) → Run → ExecutionResult × Run
execute_with_retry limits policy attempts w =
    retry_loop limits policy attempts (max_attempts_of policy) (max_attempts_of policy - 1) 1 w
