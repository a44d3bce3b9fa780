-- ===== src/Sync/CronLine/Laws.antt =====
-- What the entries of a crontab are, whatever the file holds.
use wfmcontrol_m.Prelude.{
  ◌≡◌, refl, ap, ◌++◌, true, false, ◌||◌, Option, none, some, List, [], ◌∷◌, All, arith, Bool-cases,
  inl, inr,
}
use wfmcontrol_m.Text.{Text, text, trim, is_empty, starts_with, split}
use wfmcontrol_m.Text.Search.{includes}
use wfmcontrol_m.Regex.{Match, exec, test}
use wfmcontrol_m.RemotePath.{
  validate_remote_log_path, default_log_path_allow_prefixes, log_extension,
}
use wfmcontrol_m.RemotePath.Laws.{IsSafePath, validate_remote_log_path-IsSafePath}
use wfmcontrol_m.Sync.CronLine.{
  CronEntry, parse_cron_entries, parse_lines, parse_cron_line, entry_of, extract_log_path,
  written_path, find_command, entry_or_other, matched_entry, standard_line, other_line, captured,
  present,
}

-- No log, or a safe path to a log.
abbrev pub IsSafeLog : Text → Option Text → Type 0
IsSafeLog prefix none = Unit
IsSafeLog prefix (some p) =
    IsSafePath (default_log_path_allow_prefixes prefix) p × (test log_extension p ≡ true)

-- A line that is not blank and no comment, and a command in it that names the prefix, is not `find`, and
-- writes to a safe log if to any.
abbrev pub IsWfmEntry : Text → CronEntry → Type 0
IsWfmEntry prefix e =
    (starts_with (text "#") e.raw_line ≡ false)
    × (is_empty e.raw_line ≡ false)
    × (includes e.command prefix ≡ true)
    × (test find_command e.command ≡ false)
    × IsSafeLog prefix e.log_path

safe_log :
    (prefix : Text) (raw o : Option Text)
    → validate_remote_log_path raw (default_log_path_allow_prefixes prefix) true ≡ o
    → IsSafeLog prefix o
safe_log prefix raw none h = tt
safe_log prefix raw (some p) h =
    validate_remote_log_path-IsSafePath raw (default_log_path_allow_prefixes prefix) true p h

extract_log_path-IsSafeLog :
    (prefix command : Text) → IsSafeLog prefix (extract_log_path prefix command)
unfolding extract_log_path
extract_log_path-IsSafeLog prefix command = safe_log prefix (written_path command) _ refl

-- What `none` satisfies, and an entry if it is one.
abbrev IsWfm? : Text → Option CronEntry → Type 0
IsWfm? prefix none = Unit
IsWfm? prefix (some e) = IsWfmEntry prefix e

entry_of-IsWfm :
    (prefix trimmed : Text) (m : Match)
    → starts_with (text "#") trimmed ≡ false
    → is_empty trimmed ≡ false
    → IsWfm? prefix (entry_of prefix trimmed m)
unfolding entry_of
entry_of-IsWfm prefix trimmed m c b = elim (Bool-cases (includes (captured 2 m) prefix)) [
  | inr i ↦ simp i tt
  | inl i ↦ elim (Bool-cases (test find_command (captured 2 m))) [
    | inl f ↦ simp (i, f) tt
    | inr f ↦ simp (i, f) (c, b, refl, refl, extract_log_path-IsSafeLog prefix (captured 2 m))
  ]
]

matched_entry-IsWfm :
    (prefix trimmed : Text) (o : Option Match)
    → starts_with (text "#") trimmed ≡ false
    → is_empty trimmed ≡ false
    → IsWfm? prefix (matched_entry prefix trimmed o)
matched_entry-IsWfm prefix trimmed none c b = tt
matched_entry-IsWfm prefix trimmed (some m) c b = entry_of-IsWfm prefix trimmed m c b

entry_or_other-IsWfm :
    (prefix trimmed : Text) (o : Option Match)
    → starts_with (text "#") trimmed ≡ false
    → is_empty trimmed ≡ false
    → IsWfm? prefix (entry_or_other prefix trimmed o)
entry_or_other-IsWfm prefix trimmed none c b =
    matched_entry-IsWfm prefix trimmed (exec other_line trimmed) c b
entry_or_other-IsWfm prefix trimmed (some m) c b = entry_of-IsWfm prefix trimmed m c b

parse_cron_line-IsWfm : (prefix line : Text) → IsWfm? prefix (parse_cron_line prefix line)
unfolding parse_cron_line
parse_cron_line-IsWfm prefix line =
    elim (Bool-cases (is_empty (trim line) || starts_with (text "#") (trim line))) [
      | inl e ↦ simp e tt
      | inr e ↦ simp e (
          entry_or_other-IsWfm prefix (trim line) (exec standard_line (trim line)) (ground arith)
            (ground arith))
    ]

with_line :
    (prefix : Text) (o : Option CronEntry) (es : List CronEntry)
    → IsWfm? prefix o
    → All (IsWfmEntry prefix) es
    → All (IsWfmEntry prefix) (present o es)
with_line prefix none es h hs = hs
with_line prefix (some e) es h hs = (h, hs)

parse_lines-IsWfm :
    (prefix : Text) (ls : List Text) → All (IsWfmEntry prefix) (parse_lines prefix ls)
unfolding parse_lines
parse_lines-IsWfm prefix [] = tt
parse_lines-IsWfm prefix (l ∷ ls) =
    with_line prefix (parse_cron_line prefix l) (parse_lines prefix ls)
      (parse_cron_line-IsWfm prefix l) (parse_lines-IsWfm prefix ls)

-- Where there is an entry, its line is `trimmed`.
abbrev IsOf? : Text → Option CronEntry → Type 0
IsOf? trimmed none = Unit
IsOf? trimmed (some e) = e.raw_line ≡ trimmed

entry_of-IsOf : (prefix trimmed : Text) (m : Match) → IsOf? trimmed (entry_of prefix trimmed m)
unfolding entry_of
entry_of-IsOf prefix trimmed m = elim (Bool-cases (includes (captured 2 m) prefix)) [
  | inr i ↦ simp i tt
  | inl i ↦ elim (Bool-cases (test find_command (captured 2 m))) [
    | inl f ↦ simp (i, f) tt
    | inr f ↦ simp (i, f) refl
  ]
]

matched_entry-IsOf :
    (prefix trimmed : Text) (o : Option Match) → IsOf? trimmed (matched_entry prefix trimmed o)
matched_entry-IsOf prefix trimmed none = tt
matched_entry-IsOf prefix trimmed (some m) = entry_of-IsOf prefix trimmed m

entry_or_other-IsOf :
    (prefix trimmed : Text) (o : Option Match) → IsOf? trimmed (entry_or_other prefix trimmed o)
entry_or_other-IsOf prefix trimmed none =
    matched_entry-IsOf prefix trimmed (exec other_line trimmed)
entry_or_other-IsOf prefix trimmed (some m) = entry_of-IsOf prefix trimmed m

parse_cron_line-IsOf : (prefix line : Text) → IsOf? (trim line) (parse_cron_line prefix line)
unfolding parse_cron_line
parse_cron_line-IsOf prefix line =
    elim (Bool-cases (is_empty (trim line) || starts_with (text "#") (trim line))) [
      | inl e ↦ simp e tt
      | inr e ↦ simp e (entry_or_other-IsOf prefix (trim line) (exec standard_line (trim line)))
    ]

-- One of the lines is that of the entry, but for blanks around it, and reads as the entry.
abbrev pub IsEntryOf : Text → List Text → CronEntry → Type 0
IsEntryOf prefix lines e =
    (before : List Text) × (line : Text) × (after : List Text) × (lines ≡ before ++ line ∷ after)
    × (e.raw_line ≡ trim line)
    × (parse_cron_line prefix line ≡ some e)

every_later :
    (prefix l : Text) (ls : List Text) (es : List CronEntry)
    → All (IsEntryOf prefix ls) es
    → All (IsEntryOf prefix (l ∷ ls)) es
every_later prefix l ls [] h = tt
every_later prefix l ls (e ∷ es) ((before, line, after, split_here, raw, read), h) =
    ((l ∷ before, line, after, ap (λ t. l ∷ t) split_here, raw, read), every_later prefix l ls es h)

with_entry :
    (prefix l : Text) (ls : List Text) (o : Option CronEntry) (es : List CronEntry)
    → parse_cron_line prefix l ≡ o
    → IsOf? (trim l) o
    → All (IsEntryOf prefix (l ∷ ls)) es
    → All (IsEntryOf prefix (l ∷ ls)) (present o es)
with_entry prefix l ls none es e raw h = h
with_entry prefix l ls (some x) es e raw h = (([], l, ls, refl, raw, e), h)

parse_lines-IsEntryOf :
    (prefix : Text) (ls : List Text) → All (IsEntryOf prefix ls) (parse_lines prefix ls)
unfolding parse_lines
parse_lines-IsEntryOf prefix [] = tt
parse_lines-IsEntryOf prefix (l ∷ ls) =
    with_entry prefix l ls (parse_cron_line prefix l) (parse_lines prefix ls) refl
      (parse_cron_line-IsOf prefix l)
      (every_later prefix l ls (parse_lines prefix ls) (parse_lines-IsEntryOf prefix ls))

-- Each entry read from a cron file is what parseCronLine makes of one of its lines, and has that line, but
-- for blanks around it, as its raw line. The line is not blank and no comment, the command names the prefix
-- and does not call `find`, and the log, if there is one, is a safe path with the extension of a log below
-- the allowed roots.
pub parse_cron_entries-IsWfmEntry :
    (prefix raw : Text)
    → All (IsEntryOf prefix (split 10 raw)) (parse_cron_entries prefix raw)
      × All (IsWfmEntry prefix) (parse_cron_entries prefix raw)
unfolding parse_cron_entries
parse_cron_entries-IsWfmEntry prefix raw =
    (parse_lines-IsEntryOf prefix (split 10 raw), parse_lines-IsWfm prefix (split 10 raw))
