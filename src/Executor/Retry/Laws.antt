-- ===== src/Executor/Retry/Laws.antt =====
-- What an execution with retries comes to: the attempts made, the result, the row and the time spent.
use mathlib.Core.Option
use wfmcontrol_m.Prelude.{
  ℕ, suc, zero, ◌+◌, ◌-◌, ◌*◌, ◌/◌, ◌<◌, ◌≡◌, refl, ap, ◌∙◌, Bool, true, false, ◌&&◌, ◌||◌, not,
  Option, none, some, arith, ◌==◌,
}
use Prim.Native.Nat.pow
use wfmcontrol_m.Text.{Text, take}
use wfmcontrol_m.Executor.{
  Limits, Attempt, Run, JobExecution, ExecutionResult, Outcome, finished, thrown, execute,
  begin_execution, end_execution, result_of, status_of, write_outcome, running, with_process,
  cancel, or_kept, cancelled, success,
}
use wfmcontrol_m.Executor.Retry.{
  RetryPolicy, delay_after, timer_ms, set_attempt, wait_for_retry, mark_retry_pending, sleep,
  reset_for_retry, result_at, retry_loop, execute_with_retry,
}

-- Does attempt `i` succeed?
abbrev pub succeeds : (ℕ → Attempt) → ℕ → Bool
succeeds attempts i = (result_at (attempts i)).succeeded

-- Attempts 1 to `k` fail.
unfoldable pub fail_until : (ℕ → Attempt) → ℕ → Bool
fail_until attempts zero = true
fail_until attempts (suc k) = fail_until attempts k && not (succeeds attempts (suc k))

-- The seconds to wait after a failure: the retry delay, times the multiplier once per earlier failure.
unfoldable pub back_off : Option RetryPolicy → ℕ → ℕ
back_off none earlier = 0
back_off (some policy) zero = policy.retry_delay
back_off (some policy) (suc earlier) = back_off (some policy) earlier * policy.backoff_multiplier

-- The time that the first `k` attempts and the waits after them take.
unfoldable pub spent : Option RetryPolicy → (ℕ → Attempt) → ℕ → ℕ
spent policy attempts zero = 0
spent policy attempts (suc k) =
    spent policy attempts k + (attempts (suc k)).takes_ms + timer_ms (back_off policy k * 1000)

-- The run stopped after `k` failures, with attempt `k + 1`.
unfoldable pub StopsAfter :
    Option RetryPolicy → (ℕ → Attempt) → ℕ → ℕ → ℕ → ExecutionResult × Run → Type 0
StopsAfter policy attempts start max_attempts k got =
    (k < max_attempts)
    × (fail_until attempts k ≡ true)
    × ((succeeds attempts (suc k) || suc k == max_attempts) ≡ true)
    × (got.0 ≡ result_at (attempts (suc k)))
    × (got.1.row.attempt ≡ suc k)
    × (got.1.row.status ≡ status_of (succeeds attempts (suc k)))
    × (got.1.now ≡ start + spent policy attempts k + (attempts (suc k)).takes_ms)

after_outcome :
    (limits : Limits) (now seconds : ℕ) (o : Outcome) (row : JobExecution)
    → ((write_outcome limits now seconds o row).attempt ≡ row.attempt)
      × ((write_outcome limits now seconds o row).status
          ≡ status_of (result_of seconds o).succeeded)
unfolding result_of
after_outcome limits now seconds (finished result) row = (refl, refl)
after_outcome limits now seconds (thrown message) row = (refl, refl)

after_execute :
    (limits : Limits) (a : Attempt) (w : Run)
    → ((execute limits a w).row.attempt ≡ w.row.attempt)
      × ((execute limits a w).row.status ≡ status_of (result_at a).succeeded)
      × ((execute limits a w).now ≡ w.now + a.takes_ms)
unfolding execute end_execution begin_execution
after_execute limits a w =
    let started = record (w.row) { status = running; started_at = some w.now } in
    let (n, s) = after_outcome limits (w.now + a.takes_ms) (a.takes_ms / 1000) a.outcome started in
    (n, s, refl)

retry_loop_success :
    (limits : Limits) (policy : Option RetryPolicy) (attempts : ℕ → Attempt)
    (max_attempts left i : ℕ) (w : Run)
    → succeeds attempts i ≡ true
    → retry_loop limits policy attempts max_attempts left i w
      ≡ (result_at (attempts i), execute limits (attempts i) (set_attempt i max_attempts w))
unfolding retry_loop
retry_loop_success limits policy attempts max_attempts zero i w e = refl
retry_loop_success limits policy attempts max_attempts (suc left) i w e = simp e

retry_loop_failure :
    (limits : Limits) (policy : Option RetryPolicy) (attempts : ℕ → Attempt)
    (max_attempts left i : ℕ) (w : Run)
    → succeeds attempts i ≡ false
    → retry_loop limits policy attempts max_attempts (suc left) i w
      ≡ retry_loop limits policy attempts max_attempts left (suc i) (
          wait_for_retry
            (delay_after policy i)
            (execute limits (attempts i) (set_attempt i max_attempts w)))
unfolding retry_loop
retry_loop_failure limits policy attempts max_attempts left i w e = simp e refl

-- Cancelling an execution whose process runs marks its row CANCELLED, but the mark does not last: when
-- the body of the job ends, in whatever way the kill makes it end, the row gets SUCCESS or FAILED by that
-- outcome alone.
pub end_execution-cancel :
    (limits : Limits) (a : Attempt) (at : ℕ) (w : Run)
    → ((cancel with_process at w.row).1.status ≡ cancelled)
      × ((end_execution limits a (record w { row = (cancel with_process at w.row).1 })).row.status
          ≡ status_of (result_at a).succeeded)
unfolding cancel end_execution
end_execution-cancel limits a at w =
    let now = w.now + a.takes_ms in
    let s = a.takes_ms / 1000 in
    (refl, (after_outcome limits now s a.outcome (cancel with_process at w.row).1).1)

succeeds-result_of :
    (attempts : ℕ → Attempt) (i : ℕ) (r : ExecutionResult)
    → (attempts i).outcome ≡ finished r
    → succeeds attempts i ≡ r.succeeded
succeeds-result_of attempts i r e =
    unfold result_of in ap (λ o. (result_of ((attempts i).takes_ms / 1000) o).succeeded) e

error-execute :
    (limits : Limits) (a : Attempt) (w : Run) (r : ExecutionResult)
    → a.outcome ≡ finished r
    → (execute limits a w).row.error_message
      ≡ or_kept (Option.map (take limits.max_error_chars) r.error_message) w.row.error_message
error-execute limits a w r e = unfold execute end_execution begin_execution result_of in simp e

-- The row of an execution that succeeds on its second attempt, without an error of its own, is marked
-- SUCCESS and still carries the error message of the first attempt. One retry at least is allowed.
pub execute_with_retry-stale_error :
    (limits : Limits) (policy : RetryPolicy) (attempts : ℕ → Attempt) (w : Run)
    (first second : ExecutionResult) (message : Text)
    → 0 < policy.max_retries
    → (attempts 1).outcome ≡ finished first
    → first.succeeded ≡ false
    → first.error_message ≡ some message
    → (attempts 2).outcome ≡ finished second
    → second.succeeded ≡ true
    → second.error_message ≡ none
    → ((execute_with_retry limits (some policy) attempts w).1.row.status ≡ success)
      × ((execute_with_retry limits (some policy) attempts w).1.row.error_message
          ≡ some (take limits.max_error_chars message))
execute_with_retry-stale_error limits policy attempts w first second message h o1 s1 e1 o2 s2 e2 =
    let max = policy.max_retries + 1 in
    let ran = execute limits (attempts 1) (set_attempt 1 max w) in
    let next = wait_for_retry (delay_after (some policy) 1) ran in
    let retries : max - 1 ≡ suc (policy.max_retries - 1) = omega arith in
    let path : execute_with_retry limits (some policy) attempts w
        ≡ (result_at (attempts 2), execute limits (attempts 2) (set_attempt 2 max next)) =
      unfold execute_with_retry in
      ap (λ left. retry_loop limits (some policy) attempts max left 1 w) retries
      ∙ retry_loop_failure limits (some policy) attempts max (policy.max_retries - 1) 1 w
          (succeeds-result_of attempts 1 first o1 ∙ s1)
      ∙ retry_loop_success limits (some policy) attempts max (policy.max_retries - 1) 2 next
          (succeeds-result_of attempts 2 second o2 ∙ s2) in
    let before : ran.row.error_message ≡ some (take limits.max_error_chars message) =
      error-execute limits (attempts 1) (set_attempt 1 max w) first o1 ∙ simp e1 in
    rw path (
      (after_execute limits (attempts 2) (set_attempt 2 max next)).1
          ∙ ap status_of (succeeds-result_of attempts 2 second o2 ∙ s2),
      error-execute limits (attempts 2) (set_attempt 2 max next) second o2
          ∙ simp e2 (
              unfold set_attempt wait_for_retry reset_for_retry sleep mark_retry_pending in before),
    )
