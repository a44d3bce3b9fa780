-- ===== src/Text/Search.antt =====
-- includes, endsWith, join, replace and split of JavaScript's strings, where the source calls them, and
-- the letters of ASCII that a regular expression with the flag `i` identifies.
use wfmcontrol_m.Prelude.{
  ℕ, ◌+◌, Bool, true, false, ◌&&◌, ◌||◌, List, [], ◌∷◌, ◌++◌, leb, ◌==◌, if◌then◌else◌,
}
use mathlib.Core.List.{reverse}
use wfmcontrol_m.Text.{Text, is_space, starts_with, split}

-- s.includes(t), with the text first
unfoldable pub includes : Text → Text → Bool
includes [] t = starts_with t []
includes (c ∷ s) t = starts_with t (c ∷ s) || includes s t

-- s.endsWith(t), with the text first
unfoldable pub ends_with : Text → Text → Bool
ends_with s t = starts_with (reverse t) (reverse s)

-- parts.join(c)
unfoldable pub join : ℕ → List Text → Text
join c [] = []
join c (x ∷ []) = x
join c (x ∷ y ∷ xs) = x ++ c ∷ join c (y ∷ xs)

-- s.replace(/c/g, t) for a class of characters `p`
unfoldable pub replace_chars : (ℕ → Bool) → Text → Text → Text
replace_chars p t [] = []
replace_chars p t (c ∷ s) = (if p c then t else c ∷ []) ++ replace_chars p t s

-- s.replace(/c+$/, '')
unfoldable pub strip_start : ℕ → Text → Text
strip_start d [] = []
strip_start d (c ∷ s) = let rest = strip_start d s in if c == d then rest else c ∷ s

unfoldable pub strip_end : ℕ → Text → Text
strip_end d s = reverse (strip_start d (reverse s))

-- s.replace(/\s+/g, ' '): `inside` says that the white space before was replaced.
unfoldable pub squeeze : Bool → Text → Text
squeeze inside [] = []
squeeze inside (c ∷ s) =
    let in_space = squeeze true s in
    let in_word = squeeze false s in
    if is_space c then (if inside then in_space else b' ' ∷ in_space) else c ∷ in_word

-- s.split(/\s+/)
unfoldable pub split_spaces : Text → List Text
split_spaces s = split b' ' (squeeze false s)

abbrev pub lower : ℕ → ℕ
lower c = if leb b'A' c && leb c b'Z' then c + 32 else c
