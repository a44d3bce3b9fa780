-- ===== src/Sync/LogCheck.antt =====
-- The parts of checkSingleJobLog: the patterns, the result, and the exit code that the log of cron
-- gives; `shell` is the connection.
pub mod Verdict
pub mod Laws
pub mod Store
use wfmcontrol_m.Prelude.{
  ℕ, zero, suc, ◌+◌, ◌*◌, Bool, true, false, not, ◌&&◌, ◌||◌, Option, none, some, List, [], ◌∷◌,
  ◌++◌, map, any, filter, length, leb, ltb, ◌==◌, if◌then◌else◌, get_or, is_some,
}
use mathlib.Core.Option
use mathlib.Core.List.{reverse}
use wfmcontrol_m.Prelude.Int.{ℤ, pos, negsuc}
use wfmcontrol_m.Text.{Text, text, trim, is_empty, is_space, split, text_eq, take}
use wfmcontrol_m.Text.Decimal.{parse_int, read_digits}
use wfmcontrol_m.Regex.{
  Regex, ◌⋆◌, ◌⊕◌, chr, star, group, edge, eps, lit, lit_i, plus, opt, any_of, none_of, space,
  digit, exec, test, group_of,
}
use wfmcontrol_m.RemotePath.{
  validate_remote_log_path, default_log_path_allow_prefixes, shell_quote, sanitize_grep_key,
  without_slashes,
}
use wfmcontrol_m.Sync.{LogStatus, success, failed, not_run, stale, unknown, Job}
use wfmcontrol_m.Sync.Ssh.{Reply, resolved, rejected, Shell, ssh_exec}

-- /\bWORD\b/i
abbrev whole : Regex → Regex
whole r = edge ⋆ r ⋆ edge

abbrev spaces : Regex
spaces = plus space

abbrev pub failure_patterns : List Regex
failure_patterns =
    whole (lit_i "ERROR")
    ∷ whole (lit_i "FAILED")
    ∷ whole (lit_i "FAILURE")
    ∷ whole (lit_i "EXCEPTION")
    ∷ whole (lit_i "ABORT" ⋆ opt (lit_i "ED"))
    ∷ whole (lit_i "SEGFAULT")
    ∷ whole (lit_i "SIGKILL")
    ∷ whole (lit_i "SIGSEGV")
    ∷ (edge ⋆ lit_i "core" ⋆ spaces ⋆ lit_i "dump")
    ∷ whole (lit_i "permission" ⋆ spaces ⋆ lit_i "denied")
    ∷ whole (lit_i "no" ⋆ spaces ⋆ lit_i "such" ⋆ spaces ⋆ lit_i "file")
    ∷ whole (lit_i "FATAL")
    ∷ whole (lit_i "CRITICAL")
    ∷ (lit_i "exit" ⋆ star space ⋆ lit_i "code" ⋆ star space ⋆ any_of "123456789")
    ∷ (edge ⋆ lit_i "rc=" ⋆ any_of "123456789")
    ∷ []

abbrev pub success_patterns : List Regex
success_patterns =
    whole (lit_i "completed" ⋆ spaces ⋆ lit_i "successfully")
    ∷ whole (lit_i "SUCCESS")
    ∷ whole (lit_i "job" ⋆ spaces ⋆ (lit_i "completed" ⊕ lit_i "finished" ⊕ lit_i "done"))
    ∷ whole (lit_i "exit" ⋆ star space ⋆ lit_i "code" ⋆ star space ⋆ lit "0")
    ∷ whole (lit_i "rc=0")
    ∷ (edge ⋆ lit_i "finished" ⋆ spaces ⋆ (lit_i "with" ⊕ lit_i "in") ⋆ spaces ⋆ digit)
    ∷ whole (
        lit_i "end"
        ⋆ spaces
        ⋆ lit_i "of"
        ⋆ spaces
        ⋆ (lit_i "processing" ⊕ lit_i "job" ⊕ lit_i "run"))
    ∷ whole (lit "0" ⋆ spaces ⋆ lit_i "error" ⋆ opt (lit_i "s"))
    ∷ []

abbrev pub matches_any : List Regex → Text → Bool
matches_any patterns line = any (λ p. test p line) patterns

-- The text of the answer, by what it says.
pub data Summary : Type 0 where
  path_rejected : Summary
  log_not_found : Summary
  exited_with_zero : Option ℤ → Summary
  exited_with : ℕ → ℕ → Summary
  log_stale : Option ℤ → Option ℕ → Summary
  failures_found : ℕ → Summary
  success_found : Summary
  success_after : Option ℕ → Option ℕ → Summary
  failures_after : ℕ → Summary
  log_fresh_only : Summary
  undetermined : Summary
  check_error : Text → Summary

pub record LogCheckResult : Type 0 where
  pub job_name : Text
  pub log_path : Text
  pub status : LogStatus
  pub found : Bool
  pub has_failure : Bool
  pub has_success : Bool
  pub triggered : Bool
  pub is_running : Bool
  pub last_modified : Option ℤ
  pub expected_last_run : Option ℕ
  pub log_fresh : Bool
  pub failure_lines : List Text
  pub success_lines : List Text
  pub cron_exit_code : Option ℕ
  pub size_bytes : ℤ
  pub summary : Summary

abbrev pub without_log : Text → Text → LogStatus → Option ℕ → Summary → LogCheckResult
without_log name path status expected summary = record {
  job_name = name;
  log_path = path;
  status = status;
  found = false;
  has_failure = false;
  has_success = false;
  triggered = false;
  is_running = false;
  last_modified = none;
  expected_last_run = expected;
  log_fresh = false;
  failure_lines = [];
  success_lines = [];
  cron_exit_code = none;
  size_bytes = pos 0;
  summary = summary;
}

abbrev exit_pattern : Regex
exit_pattern =
    lit_i "exit"
    ⋆ star space
    ⋆ opt (lit_i "status" ⊕ lit_i "code")
    ⋆ plus (any_of "=:" ⊕ space)
    ⋆ group 1 (plus digit)

unfoldable pub first_exit_code : List Text → Option ℕ
first_exit_code [] = none
first_exit_code (line ∷ lines) = elim (exec exit_pattern line) [
  | some m ↦ some (read_digits 0 (get_or (group_of 1 m) []))
  | none ↦ first_exit_code lines
]

unfoldable pub parse_exit_code_from_log : Text → Option ℕ
parse_exit_code_from_log log = first_exit_code (reverse (split 10 log))

-- new RegExp of an escaped text
abbrev lit_text : Text → Regex
lit_text [] = eps
lit_text (c ∷ s) = chr (λ d. d == c) ⋆ lit_text s

abbrev key_pattern : Text → Regex
key_pattern prefix =
    lit_text (without_slashes prefix)
    ⋆ lit "/"
    ⋆ plus (chr (λ d. not (is_space d || d == b'>' || d == b'|')))

unfoldable pub grep_key : Text → Text → Option Text
grep_key prefix command =
    sanitize_grep_key (Option.map (λ m. m.matched) (exec (key_pattern prefix) command)) prefix

unfoldable pub journal_command : Text → Text
journal_command key =
    text "journalctl -u crond -u cron --since '1 hour ago' --no-pager 2>/dev/null | grep -i "
    ++ key
    ++ text " | tail -5 || true"

unfoldable pub cron_log_command : Text → Text
cron_log_command key =
    text "(grep -i "
    ++ key
    ++ text " /var/log/cron 2>/dev/null || grep -i "
    ++ key
    ++ text " /var/log/syslog 2>/dev/null || true) | tail -5"

-- An error of either command gives null.
unfoldable pub code_from : Reply Text → Option ℕ
code_from (rejected e) = none
code_from (resolved out) = parse_exit_code_from_log out

unfoldable pub exit_code_for : Shell → Text → Option ℕ
exit_code_for shell key = elim (ssh_exec shell (journal_command (shell_quote key))) [
  | rejected e ↦ none
  | resolved out ↦ elim (parse_exit_code_from_log out) [
    | some code ↦ some code
    | none ↦ code_from (ssh_exec shell (cron_log_command (shell_quote key)))
  ]
]

unfoldable pub check_cron_exit_code : Shell → Text → Option Text → Option ℕ
check_cron_exit_code shell prefix none = none
check_cron_exit_code shell prefix (some command) =
    if is_empty command
    then none
    else elim (grep_key prefix command) [ none ↦ none | some key ↦ exit_code_for shell key ]
