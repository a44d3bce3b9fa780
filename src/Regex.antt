-- ===== src/Regex.antt =====
-- The regular expressions of JavaScript that the source uses, with the backtracking of its `exec`:
-- alternatives in order, greedy and lazy repetition, groups, the anchors and `\b`. The flags are `i`, for
-- which `lit_i` compares the letters of ASCII, and no `m`, `s`, `u` or `y`.
use Prim.Native.Char.{code}
use wfmcontrol_m.Prelude.{
  ℕ, zero, suc, ◌-◌, Bool, true, false, ◌&&◌, ◌||◌, not, String, Option, none, some, List, [], ◌∷◌,
  ◌++◌, map, leb, ltb, ◌==◌, if◌then◌else◌, length, is_some,
}
use wfmcontrol_m.Text.{Text, is_space, is_digit, mem_char, take, text}
use wfmcontrol_m.Text.Search.{lower}
use mathlib.Core.List.{reverse}
use mathlib.Core.Option

infixr 45 ◌⋆◌
infixr 40 ◌⊕◌
pub data Regex : Type 0 where
  chr : (ℕ → Bool) → Regex
  eps : Regex
  ◌⋆◌ : Regex → Regex → Regex
  ◌⊕◌ : Regex → Regex → Regex
  star : Regex → Regex
  lazy_star : Regex → Regex
  group : ℕ → Regex → Regex
  edge : Regex
  at_start : Regex
  at_end : Regex

-- A position: the text before it, the nearest first, the text behind it, and the groups matched so far.
pub record Cursor : Type 0 where
  pub before : Text
  pub rest : Text
  pub groups : List (ℕ × Text)

abbrev pub is_word : ℕ → Bool
is_word c = is_digit c || leb b'a' (lower c) && leb (lower c) b'z' || c == b'_'

abbrev is_word_at : Text → Bool
is_word_at [] = false
is_word_at (c ∷ s) = is_word c

abbrev same : Bool → Bool → Bool
same true b = b
same false b = not b

abbrev pub concat_map : (Cursor → List Cursor) → List Cursor → List Cursor
concat_map f [] = []
concat_map f (x ∷ xs) = f x ++ concat_map f xs

abbrev is_nil : Text → Bool
is_nil [] = true
is_nil (c ∷ s) = false

-- One character of the class.
step_char : (ℕ → Bool) → Text → Cursor → List Cursor
step_char p [] c = []
step_char p (d ∷ s) c = if p d then record c { before = d ∷ c.before; rest = s } ∷ [] else []

abbrev stay_if : Bool → Cursor → List Cursor
stay_if true c = c ∷ []
stay_if false c = []

abbrev shorter : Cursor → Cursor → Bool
shorter c' c = ltb (length c'.rest) (length c.rest)

-- A round that consumes nothing fails, so that the length of the text is fuel enough.
unfoldable pub repeat : (Cursor → List Cursor) → ℕ → Cursor → List Cursor
repeat m zero c = c ∷ []
repeat m (suc fuel) c =
    concat_map (λ c'. let more = repeat m fuel c' in if shorter c' c then more else []) (m c)
    ++ c ∷ []

unfoldable pub repeat_lazily : (Cursor → List Cursor) → ℕ → Cursor → List Cursor
repeat_lazily m zero c = c ∷ []
repeat_lazily m (suc fuel) c =
    c
    ∷ concat_map (λ c'. let more = repeat_lazily m fuel c' in if shorter c' c then more else [])
        (m c)

capture : ℕ → Cursor → Cursor → Cursor
capture k c c' = record c' {
  groups = (k, take (length c.rest - length c'.rest) c.rest) ∷ c'.groups;
}

-- The ways to match from a position, in the order in which they are tried.
unfoldable pub matches : Regex → Cursor → List Cursor
unfolding step_char capture
matches (chr p) c = step_char p c.rest c
matches eps c = c ∷ []
matches (r ⋆ q) c = concat_map (matches q) (matches r c)
matches (r ⊕ q) c = matches r c ++ matches q c
matches (star r) c = repeat (matches r) (length c.rest) c
matches (lazy_star r) c = repeat_lazily (matches r) (length c.rest) c
matches (group k r) c = map (capture k c) (matches r c)
matches edge c = stay_if (not (same (is_word_at c.before) (is_word_at c.rest))) c
matches at_start c = stay_if (is_nil c.before) c
matches at_end c = stay_if (is_nil c.rest) c

abbrev head : List Cursor → Option Cursor
head [] = none
head (c ∷ cs) = some c

-- What `exec` gives: the text before the match, the match, and the text behind it.
pub record Match : Type 0 where
  pub start : Text
  pub matched : Text
  pub after : Text
  pub groups : List (ℕ × Text)

abbrev match_of : Text → Text → Cursor → Match
match_of before s c = record {
  start = reverse before;
  matched = take (length s - length c.rest) s;
  after = c.rest;
  groups = c.groups;
}

-- The first position that matches.
unfoldable pub exec_from : Regex → Text → Text → Option Match
exec_from r before [] =
    Option.map (match_of before [])
      (head (matches r (record { before = before; rest = []; groups = [] })))
exec_from r before (d ∷ s) =
    let later = exec_from r (d ∷ before) s in
    elim (head (matches r (record { before = before; rest = d ∷ s; groups = [] }))) [
      | some c ↦ some (match_of before (d ∷ s) c)
      | none ↦ later
    ]

-- s.match(r)
unfoldable pub exec : Regex → Text → Option Match
exec r s = exec_from r [] s

-- r.test(s)
unfoldable pub test : Regex → Text → Bool
test r s = is_some (exec r s)

abbrev lookup : ℕ → List (ℕ × Text) → Option Text
lookup k [] = none
lookup k ((j, t) ∷ gs) = if j == k then some t else lookup k gs

-- m[k]; the group 0 is the match.
unfoldable pub group_of : ℕ → Match → Option Text
group_of zero m = some m.matched
group_of (suc k) m = lookup (suc k) m.groups

-- s.replace(r, '')
unfoldable pub remove : Regex → Text → Text
remove r s = elim (exec r s) [ some m ↦ m.start ++ m.after | none ↦ s ]

abbrev pub lit : String → Regex
lit String.[] = eps
lit (String.◌∷◌ c s) = chr (λ d. d == code c) ⋆ lit s

-- With the flag `i`.
abbrev pub lit_i : String → Regex
lit_i String.[] = eps
lit_i (String.◌∷◌ c s) = chr (λ d. lower d == lower (code c)) ⋆ lit_i s

abbrev pub plus : Regex → Regex
plus r = r ⋆ star r

abbrev pub opt : Regex → Regex
opt r = r ⊕ eps

abbrev pub any_of : String → Regex
any_of cs = chr (λ d. mem_char d (text cs))

abbrev pub none_of : String → Regex
none_of cs = chr (λ d. not (mem_char d (text cs)))

abbrev pub space : Regex
space = chr is_space

abbrev pub non_space : Regex
non_space = chr (λ d. not (is_space d))

abbrev pub digit : Regex
digit = chr is_digit

abbrev pub word : Regex
word = chr is_word

-- `.`
abbrev pub dot : Regex
dot = chr (λ d. not (d == 10 || d == 13 || d == 8232 || d == 8233))

-- `r{n,}`
abbrev pub at_least : ℕ → Regex → Regex
at_least zero r = star r
at_least (suc n) r = r ⋆ at_least n r

-- s.replace(r, f) with the flag `g`, for an `r` that matches no empty text and does not look behind the
-- match: each round consumes a character, so that the length is fuel enough.
unfoldable pub replace_from : ℕ → Regex → (Match → Text) → Text → Text
replace_from zero r f s = s
replace_from (suc fuel) r f s = elim (exec r s) [
  | none ↦ s
  | some m ↦ m.start ++ f m ++ replace_from fuel r f m.after
]

unfoldable pub replace_all : Regex → (Match → Text) → Text → Text
replace_all r f s = replace_from (length s) r f s
