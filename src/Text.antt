-- ===== src/Text.antt =====
-- Text as the source walks it: the list of its UTF-16 code units, with the methods of JavaScript's
-- strings and numbers that the source calls on it. `none` is the index -1, and NaN.
pub mod Decimal
pub mod Laws
pub mod Search
use Prim.Native.Char.{code}
use wfmcontrol_m.Prelude.{
  ℕ, zero, suc, ◌+◌, ◌-◌, ◌*◌, Bool, true, false, ◌&&◌, ◌||◌, not, String, Option, none, some, List,
  [], ◌∷◌, ◌++◌, leb, ◌==◌, if◌then◌else◌,
}
use wfmcontrol_m.Prelude.Int.{ℤ, pos, negsuc}
use mathlib.Core.List.{reverse}
use mathlib.Core.Option

abbrev pub Text : Type 0
Text = List ℕ

-- A literal of the source, in ASCII.
abbrev pub text : String → Text
text String.[] = []
text (String.◌∷◌ c s) = code c ∷ text s

-- The white space of `trim` and of `\s`.
abbrev pub is_space : ℕ → Bool
is_space c =
    leb 9 c && leb c 13
    || c == 32
    || c == 160
    || c == 5760
    || leb 8192 c && leb c 8202
    || c == 8232
    || c == 8233
    || c == 8239
    || c == 8287
    || c == 12288
    || c == 65279

abbrev pub is_digit : ℕ → Bool
is_digit c = leb b'0' c && leb c b'9'

unfoldable pub trim_start : Text → Text
trim_start [] = []
trim_start (c ∷ s) = let rest = trim_start s in if is_space c then rest else c ∷ s

unfoldable pub trim : Text → Text
trim s = reverse (trim_start (reverse (trim_start s)))

abbrev pub text_eq : Text → Text → Bool
text_eq [] [] = true
text_eq [] (d ∷ t) = false
text_eq (c ∷ s) [] = false
text_eq (c ∷ s) (d ∷ t) = c == d && text_eq s t

abbrev pub is_empty : Text → Bool
is_empty [] = true
is_empty (c ∷ s) = false

abbrev pub starts_with : Text → Text → Bool
starts_with [] s = true
starts_with (p ∷ ps) [] = false
starts_with (p ∷ ps) (c ∷ s) = p == c && starts_with ps s

abbrev pub take : ℕ → Text → Text
take zero s = []
take (suc n) [] = []
take (suc n) (c ∷ s) = c ∷ take n s

abbrev pub drop : ℕ → Text → Text
drop zero s = s
drop (suc n) [] = []
drop (suc n) (c ∷ s) = drop n s

abbrev pub mem_char : ℕ → Text → Bool
mem_char c [] = false
mem_char c (d ∷ s) = d == c || mem_char c s

unfoldable pub index_of : ℕ → Text → Option ℕ
index_of c [] = none
index_of c (d ∷ s) = if d == c then some 0 else Option.map suc (index_of c s)

unfoldable pub last_index_of : ℕ → Text → Option ℕ
last_index_of c [] = none
last_index_of c (d ∷ s) = elim (last_index_of c s) [
  | some i ↦ some (suc i)
  | none ↦ if d == c then some 0 else none
]

-- s.split(c)
unfoldable pub split_from : ℕ → Text → Text → List Text
split_from c cur [] = cur ∷ []
split_from c cur (d ∷ s) =
    let closed = split_from c [] s in
    let longer = split_from c (cur ++ d ∷ []) s in if d == c then cur ∷ closed else longer

abbrev pub split : ℕ → Text → List Text
split c s = split_from c [] s
