-- ===== src/Sync/LogCheck/Verdict.antt =====
-- checkSingleJobLog: what the log of a job says of its last run, and the check as a whole. `shell` is the
-- connection, `last_run` is computeLastRunTime, `prefix` is wfmPathPrefix(). Times of files are in
-- seconds, the others in milliseconds; the clock is past the first day of 1970.
use wfmcontrol_m.Prelude.{
  ℕ, zero, suc, ◌+◌, ◌*◌, Bool, true, false, not, ◌&&◌, ◌||◌, Option, none, some, List, [], ◌∷◌,
  ◌++◌, map, filter, length, leb, ltb, ◌==◌, if◌then◌else◌, get_or,
}
use wfmcontrol_m.Prelude.Int.{ℤ, pos, negsuc}
use wfmcontrol_m.Text.{Text, text, trim, is_empty, split, text_eq}
use wfmcontrol_m.Text.Decimal.{parse_int}
use wfmcontrol_m.Regex.{Regex}
use wfmcontrol_m.RemotePath.{validate_remote_log_path, default_log_path_allow_prefixes, shell_quote}
use wfmcontrol_m.Sync.{LogStatus, success, failed, not_run, stale, unknown, Job}
use wfmcontrol_m.Sync.Ssh.{Reply, resolved, rejected, Shell, ssh_exec}
use wfmcontrol_m.Sync.LogCheck.{
  failure_patterns, success_patterns, matches_any, Summary, LogCheckResult, without_log,
  check_cron_exit_code, path_rejected, log_not_found, exited_with_zero, exited_with, log_stale,
  failures_found, success_found, success_after, failures_after, log_fresh_only, undetermined,
}

-- The index of the last line that passes; `none` is -1.
unfoldable pub last_index : (Text → Bool) → List Text → Option ℕ
last_index p [] = none
last_index p (x ∷ xs) = elim (last_index p xs) [
  | some i ↦ some (suc i)
  | none ↦ if p x then some 0 else none
]

unfoldable pub find_last_pattern_index : Text → List Regex → Option ℕ
find_last_pattern_index log patterns = last_index (matches_any patterns) (split 10 log)

-- i > j, where `none` is -1
abbrev pub exceeds : Option ℕ → Option ℕ → Bool
exceeds none j = false
exceeds (some i) none = true
exceeds (some i) (some j) = ltb j i

abbrev pub after_ms : ℤ → ℕ → Bool
after_ms (pos s) t = leb t (s * 1000)
after_ms (negsuc s) t = false

-- now - modified < window
abbrev pub within : ℕ → ℕ → ℤ → Bool
within window now (pos s) = ltb now (s * 1000 + window)
within window now (negsuc s) = false

-- expected - 5 minutes <= modified
abbrev pub within_grace : ℕ → ℤ → Bool
within_grace expected (pos s) = leb expected (s * 1000 + 300000)
within_grace expected (negsuc s) = false

-- The tests of an invalid date are false.
unfoldable pub is_fresh : ℕ → Option ℕ → Option ℤ → Bool
is_fresh now expected none = false
is_fresh now (some e) (some modified) = within_grace e modified || within 3600000 now modified
is_fresh now none (some modified) = within 86400000 now modified

-- The cascade: exit code, freshness, patterns.
unfoldable pub judge :
    Text → Option ℕ → Bool → Option ℤ → Option ℕ → List Text → List Text → LogStatus × Summary
judge tail (some code) fresh modified expected failures successes =
    if code == 0
    then (success, exited_with_zero modified)
    else (failed, exited_with code (length failures))
judge tail none fresh modified expected failures successes =
    let has_failure = ltb 0 (length failures) in
    let has_success = ltb 0 (length successes) in
    let last_fail = find_last_pattern_index tail failure_patterns in
    let last_succ = find_last_pattern_index tail success_patterns in
    if not fresh
    then (stale, log_stale modified expected)
    else if has_failure && not has_success
    then (failed, failures_found (length failures))
    else if has_success && not has_failure
    then (success, success_found)
    else if has_success && has_failure
    then if exceeds last_succ last_fail
      then (success, success_after last_succ last_fail)
      else (failed, failures_after (length failures))
    else if fresh
    then (success, log_fresh_only)
    else (unknown, undetermined)

abbrev pub lines_of : List Regex → Text → List Text
lines_of patterns tail = map trim (filter (matches_any patterns) (split 10 tail))

-- statOutput.trim().split(' ')
abbrev size_of : List Text → ℤ
size_of [] = pos 0
size_of (s ∷ ss) = get_or (parse_int s) (pos 0)

abbrev pub mtime_of : List Text → Option ℤ
mtime_of (s ∷ m ∷ ss) = parse_int m
mtime_of _ = none

abbrev first_lines : ℕ → List Text → List Text
first_lines zero ls = []
first_lines (suc n) [] = []
first_lines (suc n) (l ∷ ls) = l ∷ first_lines n ls

-- The result, once the commands have answered.
unfoldable pub assess : ℕ → Text → Text → Option ℕ → List Text → Text → Option ℕ → LogCheckResult
assess now name path expected stats tail exit_code =
    let modified = mtime_of stats in
    let fresh = is_fresh now expected modified in
    let failures = lines_of failure_patterns tail in
    let successes = lines_of success_patterns tail in
    let verdict = judge tail exit_code fresh modified expected failures successes in
    record {
      job_name = name;
      log_path = path;
      status = verdict.0;
      found = true;
      has_failure = ltb 0 (length failures);
      has_success = ltb 0 (length successes);
      triggered = fresh;
      is_running = false;
      last_modified = modified;
      expected_last_run = expected;
      log_fresh = fresh;
      failure_lines = first_lines 10 failures;
      success_lines = first_lines 5 successes;
      cron_exit_code = exit_code;
      size_bytes = size_of stats;
      summary = verdict.1;
    }

unfoldable pub stat_command : Text → Text
stat_command path = text "stat --format='%s %Y' " ++ path ++ text " 2>/dev/null || echo 'NOTFOUND'"

unfoldable pub tail_command : Text → Text
tail_command path = text "tail -300 " ++ path

abbrev expected_run : (Text → Text → Option ℕ) → Text → Option Text → Option ℕ
expected_run last_run tz none = none
expected_run last_run tz (some cron) = if is_empty cron then none else last_run cron tz

-- The result, from what `tail` gave.
unfoldable pub after_tail :
    ℕ → Text → Text → Option ℕ → Text → Option ℕ → Reply Text → Reply LogCheckResult
after_tail now name path expected stat exit_code (rejected e) = rejected e
after_tail now name path expected stat exit_code (resolved tail) =
    resolved (assess now name path expected (split b' ' (trim stat)) tail exit_code)

-- The rest, from what `stat` gave.
unfoldable pub after_stat :
    Shell → Text → ℕ → Job → Text → Option ℕ → Reply Text → Reply LogCheckResult
after_stat shell prefix now job path expected (rejected e) = rejected e
after_stat shell prefix now job path expected (resolved stat) =
    if text_eq (trim stat) (text "NOTFOUND")
    then resolved (without_log job.name path not_run expected log_not_found)
    else after_tail now job.name path expected stat (check_cron_exit_code shell prefix job.command)
        (ssh_exec shell (tail_command (shell_quote path)))

unfoldable pub read_log :
    Shell → Text → (Text → Text → Option ℕ) → ℕ → Text → Job → Text → Reply LogCheckResult
read_log shell prefix last_run now tz job path =
    after_stat shell prefix now job path (expected_run last_run tz job.cron_expression)
      (ssh_exec shell (stat_command (shell_quote path)))

-- The check, from what validateRemoteLogPath gave.
unfoldable pub check_path :
    Shell
    → Text
    → (Text → Text → Option ℕ)
    → ℕ
    → Text
    → Job
    → Text
    → Option Text
    → Reply LogCheckResult
check_path shell prefix last_run now tz job log_path none = resolved (
    without_log job.name log_path unknown (expected_run last_run tz job.cron_expression)
      path_rejected)
check_path shell prefix last_run now tz job log_path (some path) =
    read_log shell prefix last_run now tz job path

unfoldable pub check_single_job_log :
    Shell → Text → (Text → Text → Option ℕ) → ℕ → Text → Job → Text → Reply LogCheckResult
check_single_job_log shell prefix last_run now tz job log_path =
    check_path shell prefix last_run now tz job log_path
      (validate_remote_log_path (some log_path) (default_log_path_allow_prefixes prefix) true)
