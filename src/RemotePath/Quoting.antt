-- ===== src/RemotePath/Quoting.antt =====
-- How a POSIX shell reads a quoted word.
use wfmcontrol_m.Prelude.{
  ◌≡◌, refl, ap, Bool, true, false, Option, none, some, [], ◌∷◌, ◌++◌, ◌==◌, if◌then◌else◌,
  Bool-cases, inl, inr, ==_iff, sym,
}
use mathlib.Core.Option
use wfmcontrol_m.Text.{Text}
use wfmcontrol_m.Text.Search.{replace_chars}
use wfmcontrol_m.RemotePath.{shell_quote}

-- How a shell reads a text as one word: between single quotes every character stands for itself, outside
-- of them a backslash takes the next character as it is, and any other character there, which the shell
-- might expand or split at, gives `none`. The flags are: between quotes, behind a backslash.
unfoldable pub shell_word : Bool → Bool → Text → Option Text
shell_word true escaped [] = none
shell_word false true [] = none
shell_word false false [] = some []
shell_word true escaped (c ∷ s) =
    let closed = shell_word false false s in
    let more = Option.map (λ t. c ∷ t) (shell_word true false s) in
    if c == b'\'' then closed else more
shell_word false true (c ∷ s) = Option.map (λ t. c ∷ t) (shell_word false false s)
shell_word false false (c ∷ s) =
    let opened = shell_word true false s in
    let escape = shell_word false true s in
    if c == b'\'' then opened else if c == 92 then escape else none

quoted :
    (s : Text)
    → shell_word true false
        (replace_chars (λ c. c == b'\'') (b'\'' ∷ 92 ∷ b'\'' ∷ b'\'' ∷ []) s ++ b'\'' ∷ [])
      ≡ some s
unfolding shell_word replace_chars
quoted [] = refl
quoted (c ∷ s) = elim (Bool-cases (c == b'\'')) [
  | inl e ↦ simp (e, quoted s) (ap (λ d. some (d ∷ s)) (sym ((==_iff c b'\'').0 e)))
  | inr e ↦ simp (e, quoted s) refl
]

-- A shell reads the quoted text as one word, which is the text, whatever characters it has.
pub shell_word-shell_quote : (s : Text) → shell_word false false (shell_quote s) ≡ some s
unfolding shell_quote shell_word
shell_word-shell_quote s = quoted s
