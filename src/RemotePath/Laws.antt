-- ===== src/RemotePath/Laws.antt =====
-- What a path that passes the tests is: the characters and the segments of the normalized path.
use wfmcontrol_m.Prelude.{
  ◌≡◌, refl, ap, sym, ◌∙◌, Bool, true, false, not, ◌&&◌, ◌||◌, Option, none, some, List, [], ◌∷◌,
  ◌++◌, any, filter, ◌==◌, All, arith, Bool-cases, inl, inr,
}
use mathlib.Core.List.{append-nil, append_assoc}
use wfmcontrol_m.Text.{
  Text, text, trim, text_eq, is_empty, starts_with, mem_char, split, split_from,
}
use wfmcontrol_m.Text.Search.{join}
use wfmcontrol_m.Regex.{test}
use wfmcontrol_m.RemotePath.{
  unsafe_path_chars, has_any, log_extension, segments, normalized, is_plain_path, is_allowed,
  validate_remote_log_path,
}

module _ {A : Type 0} (p : A → Bool) where
  any-append_false :
      (xs ys : List A) → any p xs ≡ false → any p ys ≡ false → any p (xs ++ ys) ≡ false
  any-append_false [] ys h k = k
  any-append_false (x ∷ xs) ys h k = ground (arith, any-append_false xs ys)

  All-filter-Bool : (P : A → Type 0) (xs : List A) → All P xs → All P (filter p xs)
  All-filter-Bool P [] h = tt
  All-filter-Bool P (x ∷ xs) (h, hs) = elim (Bool-cases (p x)) [
    | inl e ↦ rw e (h, All-filter-Bool P xs hs)
    | inr e ↦ rw e (All-filter-Bool P xs hs)
  ]

-- The parts of a text between slashes have its characters, and no slash.
split_from-clean :
    (cs cur s : Text)
    → has_any cs cur ≡ false
    → has_any cs s ≡ false
    → All (λ t. has_any cs t ≡ false) (split_from b'/' cur s)
unfolding split_from
split_from-clean cs cur [] hc hs = (hc, tt)
split_from-clean cs cur (d ∷ s) hc hs = elim (Bool-cases (d == b'/')) [
  | inl e ↦ rw e (hc, split_from-clean cs [] s refl (ground arith))
  | inr e ↦ rw e (
      split_from-clean cs (cur ++ d ∷ []) s
        (any-append_false (λ c. mem_char c cs) cur (d ∷ []) hc (ground arith)) (ground arith))
]

join-clean :
    (cs : Text) (ts : List Text)
    → mem_char b'/' cs ≡ false
    → All (λ t. has_any cs t ≡ false) ts
    → has_any cs (join b'/' ts) ≡ false
unfolding join
join-clean cs [] n h = refl
join-clean cs (t ∷ []) n (h, hs) = h
join-clean cs (t ∷ u ∷ ts) n (h, hs) =
    any-append_false (λ c. mem_char c cs) t (b'/' ∷ join b'/' (u ∷ ts)) h
      (ground (arith, join-clean cs (u ∷ ts) n hs))

-- Splitting walks through a part without a slash.
split_from-part :
    (cur t s : Text)
    → has_any (b'/' ∷ []) t ≡ false
    → split_from b'/' cur (t ++ b'/' ∷ s) ≡ (cur ++ t) ∷ split_from b'/' [] s
unfolding split_from
split_from-part cur [] s h = ap (λ x. x ∷ split_from b'/' [] s) (sym (append-nil cur))
split_from-part cur (c ∷ t) s h =
    ground (arith, split_from-part (cur ++ c ∷ []) t s, append_assoc cur (c ∷ []) t)

split_from-last :
    (cur t : Text) → has_any (b'/' ∷ []) t ≡ false → split_from b'/' cur t ≡ (cur ++ t) ∷ []
unfolding split_from
split_from-last cur [] h = ap (λ x. x ∷ []) (sym (append-nil cur))
split_from-last cur (c ∷ t) h =
    ground (arith, split_from-last (cur ++ c ∷ []) t, append_assoc cur (c ∷ []) t)

split-join :
    (t : Text) (ts : List Text)
    → All (λ u. has_any (b'/' ∷ []) u ≡ false) (t ∷ ts)
    → split b'/' (join b'/' (t ∷ ts)) ≡ t ∷ ts
unfolding join
split-join t [] (h, hs) = split_from-last [] t h
split-join t (u ∷ ts) (h, hs) =
    split_from-part [] t (join b'/' (u ∷ ts)) h ∙ ap (λ x. t ∷ x) (split-join u ts hs)

split-normalized :
    (ts : List Text)
    → All (λ u. has_any (b'/' ∷ []) u ≡ false) ts
    → any (λ s. text_eq s (text "..")) ts ≡ false
    → any (λ s. text_eq s (text "..")) (split b'/' (b'/' ∷ join b'/' ts)) ≡ false
unfolding split_from
split-normalized [] h n = unfold join in refl
split-normalized (t ∷ ts) h n = ap (any (λ s. text_eq s (text ".."))) (split-join t ts h) ∙ n

split_from-no_slash :
    (cur s : Text)
    → has_any (b'/' ∷ []) cur ≡ false
    → All (λ t. has_any (b'/' ∷ []) t ≡ false) (split_from b'/' cur s)
unfolding split_from
split_from-no_slash cur [] h = (h, tt)
split_from-no_slash cur (d ∷ s) h = elim (Bool-cases (d == b'/')) [
  | inl e ↦ rw e (h, split_from-no_slash [] s refl)
  | inr e ↦ rw e (
      split_from-no_slash (cur ++ d ∷ []) s
        (any-append_false (λ c. mem_char c (b'/' ∷ [])) cur (d ∷ []) h (ground arith)))
]

-- The operators and expansions of a shell, the ends of lines, NUL and the backslash.
abbrev shell_operators : Text
shell_operators = 0 ∷ 10 ∷ 13 ∷ 92 ∷ text ";|&`$()<>"

-- A path below an allowed prefix: absolute, without a shell operator, and without a segment that goes up.
-- Quotes, blanks and globs may stand in it.
unfoldable pub IsSafePath : List Text → Text → Type 0
IsSafePath prefixes p =
    (starts_with (b'/' ∷ []) p ≡ true)
    × (has_any shell_operators p ≡ false)
    × (any (λ s. text_eq s (text "..")) (split b'/' p) ≡ false)
    × (is_allowed p prefixes ≡ true)

normalized-IsSafePath :
    (path : Text) (prefixes : List Text)
    → is_plain_path path ≡ true
    → is_allowed (normalized path) prefixes ≡ true
    → IsSafePath prefixes (normalized path)
unfolding IsSafePath is_plain_path
normalized-IsSafePath path prefixes h a =
    let keep = All-filter-Bool (λ s. not (is_empty s)) in
    let clean : has_any unsafe_path_chars path ≡ false = ground arith in
    let flat : any (λ s. text_eq s (text "..")) (segments path) ≡ false = ground arith in
    (
      refl,
      join-clean unsafe_path_chars (segments path) refl (
          keep (λ t. has_any unsafe_path_chars t ≡ false) (split b'/' path)
            (split_from-clean unsafe_path_chars [] path refl clean)),
      split-normalized (segments path)
          (keep (λ t. has_any (b'/' ∷ []) t ≡ false) (split b'/' path)
            (split_from-no_slash [] path refl))
          flat,
      a,
    )

-- Whatever text a crontab line gives, a path that validateRemoteLogPath lets through is absolute, has no
-- segment that goes up, has none of ; | & ` $ ( ) < >, no backslash, no end of a line and no NUL, is below
-- an allowed prefix, and has the extension of a log where one is required.
pub validate_remote_log_path-IsSafePath :
    (raw : Option Text) (prefixes : List Text) (require : Bool) (p : Text)
    → validate_remote_log_path raw prefixes require ≡ some p
    → IsSafePath prefixes p × ((not require || test log_extension p) ≡ true)
unfolding validate_remote_log_path
validate_remote_log_path-IsSafePath none prefixes require p h = cc
validate_remote_log_path-IsSafePath (some raw) prefixes require p h =
    let path = trim raw in
    elim (Bool-cases (is_empty path)) [
      | inl e ↦ cc (simp e at h)
      | inr e ↦ elim (Bool-cases (is_plain_path path)) [
        | inr q ↦ cc (simp (e, q) at h)
        | inl q ↦ elim (Bool-cases (is_allowed (normalized path) prefixes)) [
          | inr a ↦ cc (simp (e, q, a) at h)
          | inl a ↦ elim (Bool-cases (require && not (test log_extension (normalized path)))) [
            | inl x ↦ cc (simp (e, q, a, x) at h)
            | inr x ↦
                let same : normalized path ≡ p = cc (simp (e, q, a, x) at h) in
                rw (sym same) (normalized-IsSafePath path prefixes q a, ground arith)
          ]
        ]
      ]
    ]
