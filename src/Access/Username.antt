-- ===== src/Access/Username.antt =====
-- uniqueUsername: the first of `base`, `base1`, `base2`, ... that no user has. The loop of the source has
-- no bound; here it has fuel, one more than there are users, which is enough.
use wfmcontrol_m.Prelude.{
  ℕ, zero, suc, ◌<◌, ◌≤◌, ◌≡◌, refl, ap, sym, ◌∙◌, Bool, true, false, not, List, [], ◌∷◌, ◌++◌, any,
  filter, length, if◌then◌else◌, arith, Bool-cases, inl, inr,
}
use wfmcontrol_m.Text.{Text, text_eq, take}
use wfmcontrol_m.Text.Laws.{text_eq_refl, text_eq→eq}
use wfmcontrol_m.Text.Decimal.{show_nat, read-show_nat, read_digits}

abbrev pub taken : List Text → Text → Bool
taken names t = any (λ n. text_eq n t) names

abbrev pub candidate : Text → ℕ → Text
candidate base zero = base
candidate base (suc k) = base ++ show_nat (suc k)

unfoldable pub first_free : List Text → Text → ℕ → ℕ → Text
first_free names base zero k = candidate base k
first_free names base (suc fuel) k =
    let next = first_free names base fuel (suc k) in
    if taken names (candidate base k) then next else candidate base k

-- `names` are the usernames of the table
unfoldable pub unique_username : List Text → Text → Text
unique_username names base = first_free names (take 48 base) (suc (length names)) 0

append_cancel : (s a b : Text) → s ++ a ≡ s ++ b → a ≡ b
append_cancel [] a b e = e
append_cancel (c ∷ s) a b e = append_cancel s a b (cc e)

show_nat-injective : (a b : ℕ) → show_nat a ≡ show_nat b → a ≡ b
show_nat-injective a b e = cc (read-show_nat a, read-show_nat b)

zero_suc : {k : ℕ} → read_digits 0 [] ≡ suc k → ⊥
unfolding read_digits
zero_suc e = omega (arith, e)

append_self : (s : Text) (k : ℕ) → s ≡ s ++ show_nat (suc k) → ⊥
append_self [] k e = zero_suc (ap (read_digits 0) e ∙ read-show_nat (suc k))
append_self (c ∷ s) k e = append_self s k (cc e)

candidate-injective : (base : Text) (j k : ℕ) → candidate base j ≡ candidate base k → j ≡ k
candidate-injective base zero zero e = refl
candidate-injective base zero (suc k) e = elim (append_self base k e) [ ]
candidate-injective base (suc j) zero e = elim (append_self base j (sym e)) [ ]
candidate-injective base (suc j) (suc k) e =
    show_nat-injective (suc j) (suc k) (append_cancel base (show_nat (suc j)) (show_nat (suc k)) e)

-- Names other than `t`.
without : Text → List Text → List Text
without t names = filter (λ n. not (text_eq n t)) names

taken-without :
    (names : List Text) (t u : Text)
    → text_eq u t ≡ false
    → taken (without t names) u ≡ taken names u
unfolding without
taken-without [] t u h = refl
taken-without (n ∷ names) t u h =
    ground (arith, taken-without names t u h, text_eq→eq n t, text_eq→eq n u, text_eq_refl u)

length-without_le : (names : List Text) (t : Text) → length (without t names) ≤ length names
unfolding without
length-without_le [] t = omega arith
length-without_le (n ∷ names) t = ground (arith, length-without_le names t)

length-without :
    (names : List Text) (t : Text) → taken names t ≡ true → length (without t names) < length names
unfolding without
length-without [] t h = cc
length-without (n ∷ names) t h = ground (arith, length-without names t, length-without_le names t)

text_neq : (t u : Text) → (t ≡ u → ⊥) → text_eq t u ≡ false
text_neq t u h = elim (Bool-cases (text_eq t u)) [
  | inl e ↦ elim (h (text_eq→eq t u e)) [ ]
  | inr e ↦ e
]

other_candidate :
    (base : Text) (j k : ℕ) → k < j → text_eq (candidate base j) (candidate base k) ≡ false
other_candidate base j k h =
    text_neq (candidate base j) (candidate base k)
      (λ e. omega (arith, h, candidate-injective base j k e))

-- A name taken before the search starts does not change what it finds.
first_free-without :
    (names : List Text) (base : Text) (fuel i k : ℕ)
    → k < i
    → first_free (without (candidate base k) names) base fuel i ≡ first_free names base fuel i
unfolding first_free
first_free-without names base zero i k h = refl
first_free-without names base (suc fuel) i k h = rw (
  taken-without names (candidate base k) (candidate base i) (other_candidate base i k h),
  first_free-without names base fuel (suc i) k (omega arith),
)

later_candidate :
    (names : List Text) (base : Text) (fuel i k : ℕ)
    → k < i
    → text_eq (first_free names base fuel i) (candidate base k) ≡ false
unfolding first_free
later_candidate names base zero i k h = other_candidate base i k h
later_candidate names base (suc fuel) i k h =
    ground (arith, later_candidate names base fuel (suc i) k, other_candidate base i k h)

first_free_next :
    (names : List Text) (base : Text) (fuel k : ℕ)
    → taken names (candidate base k) ≡ true
    → first_free names base (suc fuel) k ≡ first_free names base fuel (suc k)
unfolding first_free
first_free_next names base fuel k used = simp used refl

first_free_here :
    (names : List Text) (base : Text) (fuel k : ℕ)
    → taken names (candidate base k) ≡ false
    → taken names (first_free names base (suc fuel) k) ≡ false
unfolding first_free
first_free_here names base fuel k free = ground (arith, free)

pub first_free-taken :
    (fuel : ℕ) (names : List Text) (base : Text) (k : ℕ)
    → length names < fuel
    → taken names (first_free names base fuel k) ≡ false
first_free-taken zero names base k h = elim h [ ]
first_free-taken (suc fuel) names base k h = elim (Bool-cases (taken names (candidate base k))) [
  | inr free ↦ first_free_here names base fuel k free
  | inl used ↦
      let others = without (candidate base k) names in
      let found = first_free names base fuel (suc k) in
      ap (taken names) (first_free_next names base fuel k used)
      ∙ sym (
          taken-without names (candidate base k) found
            (later_candidate names base fuel (suc k) k (omega arith)))
      ∙ ap (taken others) (sym (first_free-without names base fuel (suc k) k (omega arith)))
      ∙ first_free-taken fuel others base (suc k)
          (omega (arith, length-without names (candidate base k) used, h))
]

-- The search ends: the username it gives is not in the table, whatever users there are.
pub unique_username-taken :
    (names : List Text) (base : Text) → taken names (unique_username names base) ≡ false
unfolding unique_username
unique_username-taken names base =
    first_free-taken (suc (length names)) names (take 48 base) 0 (omega arith)
