-- ===== src/Payroll/Laws.antt =====
-- The stalled generations of the monitor.
use wfmcontrol_m.Prelude.{
  ℕ, ◌≡◌, refl, Bool, true, Option, none, some, List, [], ◌∷◌, count, ltb, ◌==◌, All, All-append,
  arith, Bool-cases, ◌⊎◌, inl, inr,
}
use wfmcontrol_m.Text.{Text, text, text_eq}
use wfmcontrol_m.Payroll.{pay_job_kind}
use wfmcontrol_m.Payroll.Phase.{
  PayRun, Units, is_release_started, evaluate_stalled_generation, classify_monitor_phase, live,
}
use wfmcontrol_m.Payroll.Monitor.{
  Row, Answer, rows, refused, thrown, cell, PayEnv, PayMonitorGenerator, generator_of,
  generator_for, map_pay_generator_row, is_regular, put_generator, put_mapped, collect_generators,
  insert_by, sort_by, fetch_pay_generators,
}
use wfmcontrol_m.Payroll.Monitor.Snapshot.{
  PayQueries, PayrollMonitorRow, monitor_row, scan_generators, rows_or_none, scan_queue,
  scan_calendar, scan_monitor_client, scan_clients, get_monitor_snapshot, snapshot_of, is_stalled,
}

-- A generation that is stalled is in the phase `live`, never shown as upcoming or complete: the two tests,
-- which read the clock and the state of the run, agree.
pub evaluate_stalled-live :
    (parse_date : Text → Option ℕ) (now grace : ℕ) (r : PayRun) (units : Units) (minutes : ℕ)
    → evaluate_stalled_generation parse_date now grace r units ≡ some minutes
    → classify_monitor_phase parse_date now r units ≡ live
unfolding evaluate_stalled_generation classify_monitor_phase
evaluate_stalled-live parse_date now grace r units minutes h =
    elim (Bool-cases (units.pending == 0)) [
      | inl p ↦ cc (simp p at h)
      | inr p ↦ elim (Bool-cases r.running) [
        | inl run ↦ cc (simp (p, run) at h)
        | inr run ↦ elim (Bool-cases (is_release_started parse_date now r)) [
          | inr s ↦ cc (simp (p, run, s) at h)
          | inl s ↦ ground (arith, p, run, s)
        ]
      ]
    ]

-- Each row of the answer is of a queue that runs, as the query asks.
abbrev pub IsRunningOnly : Answer → Type 0
IsRunningOnly (rows rs) = All (λ r. cell r (text "QUEUE_STATUS") ≡ text "R") rs
IsRunningOnly (refused e) = Unit
IsRunningOnly (thrown e) = Unit

abbrev Runs : PayMonitorGenerator → Type 0
Runs g = g.running ≡ true

abbrev Runs? : Option PayMonitorGenerator → Type 0
Runs? none = Unit
Runs? (some g) = Runs g

abbrev IsCalm : PayrollMonitorRow → Type 0
IsCalm r = r.stalled_minutes ≡ none

module _ (env : PayEnv) (keeps : env.upper (text "R") ≡ text "R") where
  generator_of-Runs :
      (timezone ymd : Text) (row : Row) (id : Text)
      → cell row (text "QUEUE_STATUS") ≡ text "R"
      → Runs (generator_of env timezone ymd row id)
  unfolding generator_of
  generator_of-Runs timezone ymd row id h = rw (h, keeps) refl

  generator_for-Runs :
      (timezone ymd : Text) (row : Row) (o : Option Text)
      → cell row (text "QUEUE_STATUS") ≡ text "R"
      → Runs? (generator_for env timezone ymd row o)
  generator_for-Runs timezone ymd row none h = tt
  generator_for-Runs timezone ymd row (some id) h = generator_of-Runs timezone ymd row id h

  map_pay_generator_row-Runs :
      (timezone ymd : Text) (row : Row)
      → cell row (text "QUEUE_STATUS") ≡ text "R"
      → Runs? (map_pay_generator_row env timezone ymd row)
  unfolding map_pay_generator_row
  map_pay_generator_row-Runs timezone ymd row h =
      elim (Bool-cases (is_regular (pay_job_kind env.upper (cell row (text "JOB_TYPE"))))) [
        | inl e ↦ simp e (generator_for-Runs timezone ymd row _ h)
        | inr e ↦ simp e tt
      ]

  put_generator-Runs :
      (g : PayMonitorGenerator) (gs : List PayMonitorGenerator)
      → Runs g
      → All Runs gs
      → All Runs (put_generator g gs)
  unfolding put_generator
  put_generator-Runs g [] r h = (r, tt)
  put_generator-Runs g (k ∷ gs) r (x, h) =
      elim (Bool-cases (text_eq k.dist_list_id g.dist_list_id)) [
        | inl e ↦ elim (Bool-cases (ltb k.jobs_pending g.jobs_pending)) [
          | inl l ↦ rw (e, l) (r, h)
          | inr l ↦ rw (e, l) (x, h)
        ]
        | inr e ↦ rw e (x, put_generator-Runs g gs r h)
      ]

  put_mapped-Runs :
      (o : Option PayMonitorGenerator) (gs : List PayMonitorGenerator)
      → Runs? o
      → All Runs gs
      → All Runs (put_mapped o gs)
  put_mapped-Runs none gs r h = h
  put_mapped-Runs (some g) gs r h = put_generator-Runs g gs r h

  collect_generators-Runs :
      (timezone ymd : Text) (rs : List Row) (gs : List PayMonitorGenerator)
      → All (λ r. cell r (text "QUEUE_STATUS") ≡ text "R") rs
      → All Runs gs
      → All Runs (collect_generators env timezone ymd rs gs)
  unfolding collect_generators
  collect_generators-Runs timezone ymd [] gs q h = h
  collect_generators-Runs timezone ymd (r ∷ rs) gs (q, qs) h =
      collect_generators-Runs timezone ymd rs _ qs (
        put_mapped-Runs (map_pay_generator_row env timezone ymd r) gs
          (map_pay_generator_row-Runs timezone ymd r q) h)

  insert_by-Runs :
      (le : PayMonitorGenerator → PayMonitorGenerator → Bool) (g : PayMonitorGenerator)
      (gs : List PayMonitorGenerator)
      → Runs g
      → All Runs gs
      → All Runs (insert_by le g gs)
  unfolding insert_by
  insert_by-Runs le g [] r h = (r, tt)
  insert_by-Runs le g (k ∷ gs) r (x, h) = elim (Bool-cases (le g k)) [
    | inl e ↦ rw e (r, (x, h))
    | inr e ↦ rw e (x, insert_by-Runs le g gs r h)
  ]

  sort_by-Runs :
      (le : PayMonitorGenerator → PayMonitorGenerator → Bool) (gs : List PayMonitorGenerator)
      → All Runs gs
      → All Runs (sort_by le gs)
  unfolding sort_by
  sort_by-Runs le [] h = tt
  sort_by-Runs le (g ∷ gs) (r, h) = insert_by-Runs le g (sort_by le gs) r (sort_by-Runs le gs h)

  monitor_row-IsCalm :
      (client ymd : Text) (g : PayMonitorGenerator) (o : Units ⊎ Text)
      → Runs g
      → IsCalm (monitor_row env client ymd g o)
  unfolding monitor_row evaluate_stalled_generation
  monitor_row-IsCalm client ymd g (inr e) r = refl
  monitor_row-IsCalm client ymd g (inl units) r = rw r (ground arith)

  scan_generators-IsCalm :
      (units : Text → Answer) (client ymd : Text) (gs : List PayMonitorGenerator)
      → All Runs gs
      → All IsCalm (scan_generators env units client ymd gs)
  unfolding scan_generators
  scan_generators-IsCalm units client ymd [] h = tt
  scan_generators-IsCalm units client ymd (g ∷ gs) (r, h) =
      (monitor_row-IsCalm client ymd g _ r, scan_generators-IsCalm units client ymd gs h)

  rows_or_none-IsCalm :
      (units : Text → Answer) (client ymd : Text) (gs : List PayMonitorGenerator)
      → All Runs gs
      → All IsCalm (rows_or_none env units client ymd gs)
  rows_or_none-IsCalm units client ymd [] h = (refl, tt)
  rows_or_none-IsCalm units client ymd (g ∷ gs) h =
      scan_generators-IsCalm units client ymd (g ∷ gs) h

  scan_queue-IsCalm :
      (q : PayQueries) (client timezone ymd : Text) (a : Answer)
      → IsRunningOnly a
      → All IsCalm (scan_queue env q client timezone ymd a)
  unfolding scan_queue fetch_pay_generators
  scan_queue-IsCalm q client timezone ymd (rows rs) h =
      rows_or_none-IsCalm q.units client ymd _
        (sort_by-Runs _ _ (collect_generators-Runs timezone ymd rs [] h tt))
  scan_queue-IsCalm q client timezone ymd (refused e) h = (refl, tt)
  scan_queue-IsCalm q client timezone ymd (thrown e) h = (refl, tt)

  scan_calendar-IsCalm :
      (q : PayQueries) (client timezone : Text) (a : Answer)
      → IsRunningOnly q.queue
      → All IsCalm (scan_calendar env q client timezone a)
  unfolding scan_calendar
  scan_calendar-IsCalm q client timezone (rows rs) h =
      scan_queue-IsCalm q client timezone _ q.queue h
  scan_calendar-IsCalm q client timezone (refused e) h = (refl, tt)
  scan_calendar-IsCalm q client timezone (thrown e) h = (refl, tt)

  scan_clients-IsCalm :
      (queries : Text → PayQueries) (clients : List (Text × Text))
      → ((client : Text) → IsRunningOnly (queries client).queue)
      → All IsCalm (scan_clients env queries clients)
  unfolding scan_clients scan_monitor_client
  scan_clients-IsCalm queries [] h = tt
  scan_clients-IsCalm queries ((client, timezone) ∷ cs) h =
      All-append IsCalm
        (scan_calendar env (queries client) client timezone (queries client).calendar) _
        (scan_calendar-IsCalm (queries client) client timezone _ (h client))
        (scan_clients-IsCalm queries cs h)

  count_calm : (rs : List PayrollMonitorRow) → All IsCalm rs → count is_stalled rs ≡ 0
  count_calm [] h = refl
  count_calm (r ∷ rs) (c, h) = rw c (omega (arith, count_calm rs h))

  -- The monitor never counts a stalled generation, whatever is due and pending: its query asks for the
  -- queues that run alone, and a generation that runs does not count as stalled. `upper` keeps the letter R.
  pub get_monitor_snapshot-stalled :
      (le : Text → Text → Bool) (queries : Text → PayQueries) (clients : List (Text × Text))
      → ((client : Text) → IsRunningOnly (queries client).queue)
      → (get_monitor_snapshot env le queries clients).stalled_count ≡ 0
  unfolding get_monitor_snapshot snapshot_of
  get_monitor_snapshot-stalled le queries clients h =
      count_calm (scan_clients env queries clients) (scan_clients-IsCalm queries clients h)
