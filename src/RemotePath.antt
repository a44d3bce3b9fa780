-- ===== src/RemotePath.antt =====
-- utils/remote-path.ts: which paths may stand in a command for a remote server, and their quoting.
pub mod Laws
pub mod Quoting
use wfmcontrol_m.Prelude.{
  ℕ, Bool, true, false, not, ◌&&◌, ◌||◌, Option, none, some, List, [], ◌∷◌, ◌++◌, map, any, filter,
  ◌==◌, if◌then◌else◌,
}
use wfmcontrol_m.Text.{Text, text, trim, text_eq, is_empty, starts_with, mem_char, split}
use wfmcontrol_m.Text.Search.{includes, join, replace_chars, strip_end}
use wfmcontrol_m.Regex.{Regex, ◌⋆◌, ◌⊕◌, lit, lit_i, at_end, at_start, plus, chr, is_word, test}

-- NUL, ; | & ` $ ( ) < >, the ends of lines, and the backslash
abbrev pub unsafe_path_chars : Text
unsafe_path_chars = 0 ∷ 10 ∷ 13 ∷ 92 ∷ text ";|&`$()<>"

abbrev pub unsafe_grep_chars : Text
unsafe_grep_chars = 34 ∷ b'\'' ∷ unsafe_path_chars

abbrev pub has_any : Text → Text → Bool
has_any cs s = any (λ c. mem_char c cs) s

abbrev pub log_extension : Regex
log_extension = lit "." ⋆ (lit_i "log" ⊕ lit_i "txt" ⊕ lit_i "out") ⋆ at_end

abbrev pub safe_pgrep_term : Regex
safe_pgrep_term = at_start ⋆ plus (chr (λ c. is_word c || c == b'.' || c == b'-')) ⋆ at_end

unfoldable pub shell_quote : Text → Text
shell_quote s =
    b'\'' ∷ replace_chars (λ c. c == b'\'') (b'\'' ∷ 92 ∷ b'\'' ∷ b'\'' ∷ []) s ++ b'\'' ∷ []

abbrev pub without_slashes : Text → Text
without_slashes p = strip_end b'/' (trim p)

abbrev pub normalize_allowed_prefixes : List Text → List Text
normalize_allowed_prefixes ps = filter (λ p. not (is_empty p)) (map without_slashes ps)

abbrev pub path_under_prefix : Text → Text → Bool
path_under_prefix path prefix = text_eq path prefix || starts_with (prefix ++ b'/' ∷ []) path

-- path.split('/').filter(Boolean)
abbrev pub segments : Text → List Text
segments path = filter (λ s. not (is_empty s)) (split b'/' path)

abbrev pub normalized : Text → Text
normalized path = b'/' ∷ join b'/' (segments path)

-- The tests on the trimmed path alone.
unfoldable pub is_plain_path : Text → Bool
is_plain_path path =
    starts_with (b'/' ∷ []) path
    && not (includes path (text ".."))
    && not (has_any unsafe_path_chars path)
    && not (any (λ s. text_eq s (text "..")) (segments path))

abbrev pub is_allowed : Text → List Text → Bool
is_allowed path prefixes = any (path_under_prefix path) (normalize_allowed_prefixes prefixes)

-- `require` is options.requireLogExtension. No test is true of no prefix, which is the case that the
-- source returns on first.
unfoldable pub validate_remote_log_path : Option Text → List Text → Bool → Option Text
validate_remote_log_path none prefixes require = none
validate_remote_log_path (some raw) prefixes require =
    let path = trim raw in
    if is_empty path
    then none
    else if not (is_plain_path path)
    then none
    else if not (is_allowed (normalized path) prefixes)
    then none
    else if require && not (test log_extension (normalized path))
    then none
    else some (normalized path)

abbrev pub or_mount : Text → Text
or_mount p = if is_empty p then text "/mount/RWS4" else p

unfoldable pub default_log_path_allow_prefixes : Text → List Text
default_log_path_allow_prefixes prefix =
    or_mount (without_slashes prefix) ∷ text "/mount/backup" ∷ []

unfoldable pub validate_remote_cron_file_path : Option Text → List Text → Option Text
validate_remote_cron_file_path none prefixes = none
validate_remote_cron_file_path (some raw) prefixes =
    let path = trim raw in
    if is_empty path
    then none
    else if not (is_plain_path path)
    then none
    else if not (is_allowed (normalized path) prefixes)
    then none
    else some (normalized path)

unfoldable pub sanitize_pgrep_search_term : Option Text → Option Text
sanitize_pgrep_search_term none = none
sanitize_pgrep_search_term (some term) =
    let t = trim term in
    if is_empty t then none else if test safe_pgrep_term t then some t else none

unfoldable pub sanitize_grep_key : Option Text → Text → Option Text
sanitize_grep_key none prefix = none
sanitize_grep_key (some key) prefix =
    let k = trim key in
    if is_empty k
    then none
    else if has_any unsafe_grep_chars k || includes k (text "..")
    then none
    else if not (path_under_prefix k (or_mount (without_slashes prefix)))
    then none
    else some k
