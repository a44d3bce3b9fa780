-- ===== src/Text/Laws.antt =====
-- Laws of the searches, the slices and the equality of texts.
use wfmcontrol_m.Prelude.{
  ℕ, zero, suc, ◌≡◌, refl, ap, true, false, ◌↔◌, none, some, [], ◌∷◌, ◌++◌, ◌==◌, arith, length,
  if◌then◌else◌, ◌<◌, ◌≢◌, Option-cases, inl, inr,
}
use wfmcontrol_m.Text.{Text, text_eq, mem_char, index_of, last_index_of, take, drop}
use mathlib.Core.Path.{subst}

pub text_eq→eq : (s t : Text) → text_eq s t ≡ true → s ≡ t
text_eq→eq [] [] h = refl
text_eq→eq [] (d ∷ t) h = cc
text_eq→eq (c ∷ s) [] h = cc
text_eq→eq (c ∷ s) (d ∷ t) h = ground (arith, text_eq→eq s t)

pub text_eq_refl : (s : Text) → text_eq s s ≡ true
text_eq_refl [] = refl
text_eq_refl (c ∷ s) = ground (arith, text_eq_refl s)

pub text_eq_iff : (s t : Text) → (text_eq s t ≡ true) ↔ (s ≡ t)
text_eq_iff s t = (text_eq→eq s t, λ e. rw e (text_eq_refl t))

pub index_of-append :
    (c : ℕ) (s t : Text) → mem_char c s ≡ false → index_of c (s ++ c ∷ t) ≡ some (length s)
unfolding index_of
index_of-append c [] t h = ground arith
index_of-append c (d ∷ s) t h = ground (arith, index_of-append c s t)

pub last_index_of_absent : (c : ℕ) (s : Text) → mem_char c s ≡ false → last_index_of c s ≡ none
unfolding last_index_of
last_index_of_absent c [] h = refl
last_index_of_absent c (d ∷ s) h = ground (arith, last_index_of_absent c s)

pub last_index_of-append :
    (c : ℕ) (s t : Text) → mem_char c t ≡ false → last_index_of c (s ++ c ∷ t) ≡ some (length s)
unfolding last_index_of
last_index_of-append c [] t h = ground (arith, last_index_of_absent c t h)
last_index_of-append c (d ∷ s) t h = rw (last_index_of-append c s t h)

pub take-append : (s t : Text) → take (length s) (s ++ t) ≡ s
take-append [] t = refl
take-append (c ∷ s) t = ap (λ r. c ∷ r) (take-append s t)

pub drop-append : (s : Text) (c : ℕ) (t : Text) → drop (suc (length s)) (s ++ c ∷ t) ≡ t
drop-append [] c t = refl
drop-append (d ∷ s) c t = drop-append s c t

-- A text is its part before the first `c`, `c`, and the part behind it.
pub split_at_index :
    (c i : ℕ) (s : Text) → index_of c s ≡ some i → s ≡ take i s ++ c ∷ drop (suc i) s
unfolding index_of
split_at_index c i [] h = cc
split_at_index c zero (d ∷ s) h = ground arith
split_at_index c (suc i) (d ∷ s) h = ground (arith, split_at_index c i s)

pub length_positive : (s : Text) → s ≢ [] → 0 < length s
length_positive [] h = elim (h refl) [ ]
length_positive (c ∷ s) h = omega arith

pub append_not_empty : (s : Text) (c : ℕ) (t : Text) → (s ++ c ∷ t) ≢ []
append_not_empty [] c t h = cc
append_not_empty (d ∷ s) c t h = cc

-- A text is its part before the last `c`, `c`, and the part behind it.
pub split_at_last_index :
    (c i : ℕ) (s : Text) → last_index_of c s ≡ some i → s ≡ take i s ++ c ∷ drop (suc i) s
unfolding last_index_of
split_at_last_index c i [] h = cc
split_at_last_index c zero (d ∷ s) h = elim (Option-cases (last_index_of c s)) [
  | inl e ↦ ground (arith, e)
  | inr (j, e) ↦ cc (
      subst
        (λ o.
          (elim o [ some i ↦ some (suc i) | none ↦ if d == c then some 0 else none ]) ≡ some zero)
        e h)
]
split_at_last_index c (suc i) (d ∷ s) h = elim (Option-cases (last_index_of c s)) [
  | inl e ↦ ground (arith, e)
  | inr (j, e) ↦ ground (arith, split_at_last_index c i s)
]
