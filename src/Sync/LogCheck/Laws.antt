-- ===== src/Sync/LogCheck/Laws.antt =====
-- When a run counts as a success, and which files are read.
use wfmcontrol_m.Prelude.{
  ℕ, ◌≡◌, ◌≢◌, ◌↔◌, refl, ap, ◌∙◌, Bool, true, false, not, ◌&&◌, Option, none, some, List, [], ◌∷◌,
  map, filter, length, ltb, if◌then◌else◌, is_some, arith, Bool-cases, Option-cases, inl, inr,
}
use wfmcontrol_m.Prelude.Int.{ℤ}
use wfmcontrol_m.Text.{Text, text, text_eq, trim, split}
use wfmcontrol_m.RemotePath.{validate_remote_log_path, default_log_path_allow_prefixes}
use wfmcontrol_m.RemotePath.Laws.{IsSafePath, validate_remote_log_path-IsSafePath}
use wfmcontrol_m.Sync.{LogStatus, success, failed, stale, unknown, Job}
use wfmcontrol_m.Sync.Ssh.{Reply, resolved, rejected, Shell}
use wfmcontrol_m.Sync.LogCheck.{LogCheckResult, matches_any, failure_patterns, success_patterns}
use wfmcontrol_m.Sync.LogCheck.Verdict.{
  last_index, exceeds, lines_of, judge, assess, is_fresh, find_last_pattern_index,
  check_single_job_log, check_path, read_log, mtime_of, after_tail, after_stat,
}

-- Of the lines that match one of the tests, does the last one fail? A line that matches both fails.
unfoldable pub last_verdict : (Text → Bool) → (Text → Bool) → List Text → Option Bool
last_verdict fails succeeds [] = none
last_verdict fails succeeds (x ∷ xs) = elim (last_verdict fails succeeds xs) [
  | some v ↦ some v
  | none ↦ if fails x then some false else if succeeds x then some true else none
]

abbrev verdict_by : Option ℕ → Option ℕ → Option Bool
verdict_by none none = none
verdict_by none (some i) = some true
verdict_by (some i) g = some (exceeds g (some i))

module _ (fails succeeds : Text → Bool) where
  last_verdict-index :
      (xs : List Text)
      → last_verdict fails succeeds xs ≡ verdict_by (last_index fails xs) (last_index succeeds xs)
  unfolding last_verdict last_index
  last_verdict-index [] = refl
  last_verdict-index (x ∷ xs) = elim (Option-cases (last_index fails xs)) [
    | inl f ↦ elim (Option-cases (last_index succeeds xs)) [
      | inl g ↦ simp (last_verdict-index xs, f, g) (ground arith)
      | inr (i, g) ↦ simp (last_verdict-index xs, f, g) (ground arith)
    ]
    | inr (j, f) ↦ elim (Option-cases (last_index succeeds xs)) [
      | inl g ↦ simp (last_verdict-index xs, f, g) (ground arith)
      | inr (i, g) ↦ simp (last_verdict-index xs, f, g) (ground arith)
    ]
  ]

found_iff :
    (p : Text → Bool) (xs : List Text)
    → ltb 0 (length (map trim (filter p xs))) ≡ is_some (last_index p xs)
unfolding last_index
found_iff p [] = refl
found_iff p (x ∷ xs) = elim (Bool-cases (p x)) [
  | inl e ↦ elim (Option-cases (last_index p xs)) [
    | inl n ↦ simp (e, n) (ground arith)
    | inr (i, n) ↦ simp (e, n) (ground arith)
  ]
  | inr e ↦ elim (Option-cases (last_index p xs)) [
    | inl n ↦ simp (e, n) (found_iff p xs ∙ ap is_some n)
    | inr (i, n) ↦ simp (e, n) (found_iff p xs ∙ ap is_some n)
  ]
]

abbrev pub failing : Text → Bool
failing l = matches_any failure_patterns l

abbrev pub succeeding : Text → Bool
succeeding l = matches_any success_patterns l

-- The status that `judge` gives without an exit code, by the indices alone.
status_by : Bool → Option ℕ → Option ℕ → LogStatus
status_by fresh f g =
    if not fresh
    then stale
    else if is_some f && not (is_some g)
    then failed
    else if is_some g && not (is_some f)
    then success
    else if is_some g && is_some f
    then if exceeds g f then success else failed
    else if fresh
    then success
    else unknown

judge-status_by :
    (tail : Text) (fresh : Bool) (modified : Option ℤ) (expected : Option ℕ)
    → (judge tail none fresh modified expected
        (lines_of failure_patterns tail)
        (lines_of success_patterns tail)).0
      ≡ status_by fresh (last_index failing (split 10 tail)) (last_index succeeding (split 10 tail))
unfolding judge status_by find_last_pattern_index
judge-status_by tail false modified expected = refl
judge-status_by tail true modified expected =
    let all = split 10 tail in
    elim (Option-cases (last_index failing all)) [
      | inl f ↦ elim (Option-cases (last_index succeeding all)) [
        | inl g ↦ simp (found_iff failing all, found_iff succeeding all, f, g) refl
        | inr (i, g) ↦ simp (found_iff failing all, found_iff succeeding all, f, g) refl
      ]
      | inr (j, f) ↦ elim (Option-cases (last_index succeeding all)) [
        | inl g ↦ simp (found_iff failing all, found_iff succeeding all, f, g) refl
        | inr (i, g) ↦ simp (found_iff failing all, found_iff succeeding all, f, g) (ground arith)
      ]
    ]

status_by-success :
    (fresh : Bool) (f g : Option ℕ)
    → (status_by fresh f g ≡ success) ↔ ((fresh ≡ true) × (verdict_by f g ≢ some false))
unfolding status_by
status_by-success false f g = ground arith
status_by-success true none none = ground arith
status_by-success true none (some j) = ground arith
status_by-success true (some i) none = ground arith
status_by-success true (some i) (some j) = ground arith

-- Without an exit code of cron, a log counts as a success exactly if it is fresh and, of the lines that
-- `tail` gave of it, the last that matches a pattern, if one does, is not a failure; a line that matches
-- patterns of both kinds is one.
pub assess-success :
    (now : ℕ) (name path : Text) (expected : Option ℕ) (stats : List Text) (tail : Text)
    → ((assess now name path expected stats tail none).status ≡ success) ↔ (
        ((assess now name path expected stats tail none).log_fresh ≡ true)
        × (last_verdict failing succeeding (split 10 tail) ≢ some false))
unfolding assess
assess-success now name path expected stats tail =
    rw
      (
        judge-status_by tail (is_fresh now expected (mtime_of stats)) (mtime_of stats) expected,
        last_verdict-index failing succeeding (split 10 tail),
      )
      (status_by-success (is_fresh now expected (mtime_of stats)) _ _)

after_tail-log_path :
    (now : ℕ) (name path : Text) (expected : Option ℕ) (stat : Text) (code : Option ℕ)
    (o : Reply Text) (r : LogCheckResult)
    → after_tail now name path expected stat code o ≡ resolved r
    → r.log_path ≡ path
unfolding after_tail assess
after_tail-log_path now name path expected stat code (rejected e) r h = cc
after_tail-log_path now name path expected stat code (resolved tail) r h = cc

after_stat-log_path :
    (shell : Shell) (prefix : Text) (now : ℕ) (job : Job) (path : Text) (expected : Option ℕ)
    (o : Reply Text) (r : LogCheckResult)
    → after_stat shell prefix now job path expected o ≡ resolved r
    → r.log_path ≡ path
unfolding after_stat
after_stat-log_path shell prefix now job path expected (rejected e) r h = cc
after_stat-log_path shell prefix now job path expected (resolved stat) r h =
    elim (Bool-cases (text_eq (trim stat) (text "NOTFOUND"))) [
      | inl b ↦ cc (simp b at h)
      | inr b ↦ after_tail-log_path now job.name path expected stat _ _ r (simp b at h)
    ]

check_path-IsSafePath :
    (shell : Shell) (prefix : Text) (last_run : Text → Text → Option ℕ) (now : ℕ) (tz : Text)
    (job : Job) (log_path : Text) (o : Option Text) (r : LogCheckResult)
    → validate_remote_log_path (some log_path) (default_log_path_allow_prefixes prefix) true ≡ o
    → check_path shell prefix last_run now tz job log_path o ≡ resolved r
    → r.found ≡ true
    → IsSafePath (default_log_path_allow_prefixes prefix) r.log_path
unfolding check_path read_log
check_path-IsSafePath shell prefix last_run now tz job log_path none r v h f = cc
check_path-IsSafePath shell prefix last_run now tz job log_path (some path) r v h f =
    let roots = default_log_path_allow_prefixes prefix in
    let same = after_stat-log_path shell prefix now job path _ _ r h in
    rw same (validate_remote_log_path-IsSafePath (some log_path) roots true path v).0

-- Each log that a check finds is a safe path below the roots that the prefix allows, whatever path the job
-- has, and a job without such a path is not looked for at all.
pub check_single_job_log-IsSafePath :
    (shell : Shell) (prefix : Text) (last_run : Text → Text → Option ℕ) (now : ℕ) (tz : Text)
    (job : Job) (log_path : Text) (r : LogCheckResult)
    → check_single_job_log shell prefix last_run now tz job log_path ≡ resolved r
    → r.found ≡ true
    → IsSafePath (default_log_path_allow_prefixes prefix) r.log_path
unfolding check_single_job_log
check_single_job_log-IsSafePath shell prefix last_run now tz job log_path r h f =
    check_path-IsSafePath shell prefix last_run now tz job log_path _ r refl h f
