-- ===== src/Outage/Laws.antt =====
-- Which runs the loop over an outage finds.
use wfmcontrol_m.Prelude.{
  ℕ, zero, suc, ◌≤◌, ◌<◌, ◌-◌, ◌≡◌, refl, sym, ◌&&◌, some, List, [], ◌∷◌, leb, ltb, filter, arith,
  Bool-cases, inl, inr,
}
use wfmcontrol_m.Text.{Text}
use wfmcontrol_m.Outage.{
  fire_loop, Fires, fires, times_of, get_fire_times_utc_in_window, resolve_server_tz,
}

-- The runs from the i-th on, `n` of them.
abbrev pub first_runs : ℕ → ℕ → (ℕ → ℕ) → List ℕ
first_runs zero i next = []
first_runs (suc n) i next = next i ∷ first_runs n (suc i) next

module _ (next : ℕ → ℕ) (rises : (i : ℕ) → next i ≤ next (suc i)) (start end : ℕ) where
  late_runs :
      (n i : ℕ) → end < next i → filter (λ t. leb start t && leb t end) (first_runs n i next) ≡ []
  late_runs zero i h = refl
  late_runs (suc n) i h = ground (arith, late_runs n (suc i), rises i)

  fire_loop-filter :
      (n i : ℕ)
      → fire_loop n i next start end ≡ filter (λ t. leb start t && leb t end) (first_runs n i next)
  unfolding fire_loop
  fire_loop-filter zero i = refl
  fire_loop-filter (suc n) i = elim (Bool-cases (ltb end (next i))) [
    | inl l ↦ simp l (sym (late_runs (suc n) i (ground arith)))
    | inr l ↦ simp l (ground (arith, fire_loop-filter n (suc i)))
  ]

-- For a cron expression whose runs do not go back in time, the runs found in an outage are those among its
-- first 500 from the start of the outage on that fall into it. So of more than 500 runs the later ones are
-- not counted, and nothing in the answer says so.
pub get_fire_times-first_runs :
    (upper : Text → Text) (cron : Text → Text → ℕ → Fires) (expr tz : Text) (start end : ℕ)
    (next : ℕ → ℕ)
    → cron expr (resolve_server_tz upper (some tz)) (start - 1000) ≡ fires next
    → ((i : ℕ) → next i ≤ next (suc i))
    → times_of (get_fire_times_utc_in_window upper cron expr tz start end)
      ≡ filter (λ t. leb start t && leb t end) (first_runs 500 0 next)
unfolding get_fire_times_utc_in_window
get_fire_times-first_runs upper cron expr tz start end next h rises =
    rw h (fire_loop-filter next rises start end 500 0)
