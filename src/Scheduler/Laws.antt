-- ===== src/Scheduler/Laws.antt =====
-- The checks that a scan queues, and the concurrency limit of a job.
use wfmcontrol_m.Prelude.{
  ℕ, ◌+◌, ◌<◌, ◌≡◌, ap, ◌∙◌, Bool, true, false, ◌&&◌, not, Option, none, some, List, [], ◌∷◌,
  filter, any, leb, ltb, arith, inl, inr, Bool-cases,
}
use wfmcontrol_m.Text.{Text}
use wfmcontrol_m.Executor.{pending}
use wfmcontrol_m.Scheduler.{
  Job, PendingCheck, Scheduler, ScanSettings, minutes, is_scanned, run_of, same_check, add_check,
  scan_jobs, is_stale, scan_upcoming_jobs, execute_status_check, JobExecutionRow, created,
  running_count, is_running_status, status_for, row_for, find_job, trigger_job_execution,
}

-- No two entries are for the same run of the same job.
unfoldable pub HasDistinctChecks : List PendingCheck → Type 0
HasDistinctChecks [] = Unit
HasDistinctChecks (c ∷ cs) =
    (any (same_check c.job_id c.expected_run_time) cs ≡ false) × HasDistinctChecks cs

any-filter :
    {A : Type 0} (p q : A → Bool) (xs : List A) → any p xs ≡ false → any p (filter q xs) ≡ false
any-filter p q [] h = h
any-filter p q (x ∷ xs) h = ground (arith, any-filter p q xs)

filter-HasDistinctChecks :
    (p : PendingCheck → Bool) (cs : List PendingCheck)
    → HasDistinctChecks cs
    → HasDistinctChecks (filter p cs)
unfolding HasDistinctChecks
filter-HasDistinctChecks p [] h = h
filter-HasDistinctChecks p (c ∷ cs) (h, hs) = elim (Bool-cases (p c)) [
  | inl e ↦ simp e (
    any-filter (same_check c.job_id c.expected_run_time) p cs h,
    filter-HasDistinctChecks p cs hs,
  )
  | inr e ↦ simp e (filter-HasDistinctChecks p cs hs)
]

and_false : (a : Bool) → (a && false) ≡ false
and_false a = ground arith

add_check-HasDistinctChecks :
    (cfg : ScanSettings) (now job : ℕ) (run : Option ℕ) (cs : List PendingCheck)
    → HasDistinctChecks cs
    → HasDistinctChecks (add_check cfg now job run cs)
unfolding add_check
add_check-HasDistinctChecks cfg now job none cs h = h
add_check-HasDistinctChecks cfg now job (some run) cs h =
    let ahead = ltb now run && leb run (now + minutes cfg.upcoming_scan_interval_mins) in
    elim (Bool-cases (any (same_check job run) cs)) [
      | inl e ↦ simp (e, and_false ahead) h
      | inr e ↦ elim (Bool-cases ahead) [
        | inl a ↦ simp (e, a) (unfold HasDistinctChecks in (e, h))
        | inr a ↦ simp (e, a) h
      ]
    ]

scan_jobs-HasDistinctChecks :
    (cfg : ScanSettings) (next_run : Text → Text → Option ℕ) (now : ℕ) (js : List Job)
    (cs : List PendingCheck)
    → HasDistinctChecks cs
    → HasDistinctChecks (scan_jobs cfg next_run now js cs)
unfolding scan_jobs
scan_jobs-HasDistinctChecks cfg next_run now [] cs h = h
scan_jobs-HasDistinctChecks cfg next_run now (j ∷ js) cs h =
    let added = add_check cfg now j.id (run_of next_run j j.cron_expression) cs in
    let with_it =
      scan_jobs-HasDistinctChecks cfg next_run now js added
        (add_check-HasDistinctChecks cfg now j.id (run_of next_run j j.cron_expression) cs h) in
    let without_it = scan_jobs-HasDistinctChecks cfg next_run now js cs h in
    elim (Bool-cases (is_scanned j)) [ inl e ↦ simp e with_it | inr e ↦ simp e without_it ]

-- A scan never queues two checks for one run of one job, however often it sees the job, and neither does
-- the end of a check.
pub scan_upcoming_jobs-HasDistinctChecks :
    (cfg : ScanSettings) (next_run : Text → Text → Option ℕ) (now : ℕ) (jobs : List Job)
    (s : Scheduler) (job run : ℕ)
    → HasDistinctChecks s.pending_status_checks
    → HasDistinctChecks (scan_upcoming_jobs cfg next_run now jobs s).pending_status_checks
      × HasDistinctChecks (execute_status_check job run s).pending_status_checks
scan_upcoming_jobs-HasDistinctChecks cfg next_run now jobs s job run h =
    let scanned = scan_jobs-HasDistinctChecks cfg next_run now jobs s.pending_status_checks h in
    let kept =
      filter-HasDistinctChecks (λ c. not (is_stale now c))
        (scan_jobs cfg next_run now jobs s.pending_status_checks) scanned in
    unfold scan_upcoming_jobs execute_status_check in
    (
      elim (Bool-cases cfg.sync_enabled) [ inl e ↦ simp e kept | inr e ↦ simp e h ],
      filter-HasDistinctChecks (λ c. not (same_check job run c)) s.pending_status_checks h,
    )

triggered :
    (fresh now : ℕ) (by : Text) (jobs : List Job) (j : Job) (rows : List JobExecutionRow)
    → find_job j.id jobs ≡ some j
    → j.is_active ≡ true
    → trigger_job_execution fresh now by j.id jobs rows
      ≡ (created (row_for fresh now by j rows), row_for fresh now by j rows ∷ rows)
triggered fresh now by jobs j rows f a = unfold trigger_job_execution in simp (f, a)

new_not_running : (active limit : ℕ) → is_running_status (status_for active limit) ≡ false
new_not_running active limit = ground arith

running_count-row_for :
    (fresh now : ℕ) (by : Text) (j : Job) (rows : List JobExecutionRow)
    → running_count j.id (row_for fresh now by j rows ∷ rows) ≡ running_count j.id rows
unfolding running_count
running_count-row_for fresh now by j rows =
    ground (arith, new_not_running (running_count j.id rows) j.max_concurrency)

-- The concurrency limit counts RUNNING rows alone, and a row is created PENDING: where fewer rows of an
-- active job are RUNNING than the limit, which may be one, two triggers in a row, before the first
-- execution has begun to run, both give a PENDING row, that is, one that is handed to the executor.
pub trigger_job_execution-twice :
    (fresh fresh' now now' : ℕ) (by by' : Text) (jobs : List Job) (j : Job)
    (rows : List JobExecutionRow)
    → find_job j.id jobs ≡ some j
    → j.is_active ≡ true
    → running_count j.id rows < j.max_concurrency
    → (first second : JobExecutionRow) × ((trigger_job_execution fresh now by j.id jobs rows).0
        ≡ created first)
      × ((trigger_job_execution fresh' now' by' j.id jobs
            (trigger_job_execution fresh now by j.id jobs rows).1).0
          ≡ created second)
      × (first.status ≡ pending)
      × (second.status ≡ pending)
trigger_job_execution-twice fresh fresh' now now' by by' jobs j rows f a below =
    let waits : status_for (running_count j.id rows) j.max_concurrency ≡ pending = ground arith in
    let first = row_for fresh now by j rows in
    let step = triggered fresh now by jobs j rows f a in
    let rows' = (trigger_job_execution fresh now by j.id jobs rows).1 in
    (
      first,
      row_for fresh' now' by' j rows',
      ap (λ x. x.0) step,
      ap (λ x. x.0) (triggered fresh' now' by' jobs j rows' f a),
      waits,
      ap (λ n. status_for n j.max_concurrency)
            (ap (λ x. running_count j.id x.1) step ∙ running_count-row_for fresh now by j rows)
          ∙ waits,
    )
