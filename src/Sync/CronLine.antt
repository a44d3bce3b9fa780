-- ===== src/Sync/CronLine.antt =====
-- parseCronEntries and what it takes from a line: the log, the name, the parameters and the type of a job.
-- `prefix` is wfmPathPrefix().
pub mod Laws
use wfmcontrol_m.Prelude.{
  ℕ, Bool, true, false, not, ◌&&◌, ◌||◌, Option, none, some, List, [], ◌∷◌, ◌++◌, ◌==◌, get_or,
  if◌then◌else◌, length, String,
}
use wfmcontrol_m.Text.{
  Text, text, trim, is_empty, starts_with, split, take, drop, is_space, mem_char,
}
use wfmcontrol_m.Text.Search.{includes, join, replace_chars, squeeze, split_spaces}
use wfmcontrol_m.Regex.{
  Regex, Match, ◌⋆◌, ◌⊕◌, chr, star, lazy_star, group, edge, at_start, at_end, lit, lit_i, plus,
  opt, any_of, space, non_space, digit, word, dot, exec, test, remove, group_of,
}
use wfmcontrol_m.Sync.{
  JobType, script, shell_command, http, sql, file_transfer, forecast, schedule_gen, data_pipeline,
}
use wfmcontrol_m.RemotePath.{validate_remote_log_path, default_log_path_allow_prefixes}

pub record CronEntry : Type 0 where
  pub schedule : Text
  pub command : Text
  pub log_path : Option Text
  pub raw_line : Text

abbrev pub captured : ℕ → Match → Text
captured k m = get_or (group_of k m) []

abbrev redirect_to_log : Regex
redirect_to_log =
    lit ">"
    ⋆ opt (lit ">")
    ⋆ plus space
    ⋆ group 1 (plus non_space ⋆ lit "." ⋆ (lit "log" ⊕ lit "txt" ⊕ lit "out"))

abbrev tee_to : Regex
tee_to = lit "tee" ⋆ plus space ⋆ opt (lit "-a" ⋆ plus space) ⋆ group 1 (plus non_space)

abbrev redirect_to_path : Regex
redirect_to_path = lit ">" ⋆ opt (lit ">") ⋆ plus space ⋆ group 1 (lit "/" ⋆ plus non_space)

unfoldable pub written_path : Text → Option Text
written_path command = elim (exec redirect_to_log command) [
  | some m ↦ some (captured 1 m)
  | none ↦ elim (exec tee_to command) [
    | some m ↦ some (captured 1 m)
    | none ↦ elim (exec redirect_to_path command) [ some m ↦ some (captured 1 m) | none ↦ none ]
  ]
]

unfoldable pub extract_log_path : Text → Text → Option Text
extract_log_path prefix command =
    validate_remote_log_path (written_path command) (default_log_path_allow_prefixes prefix) true

abbrev first_field : Regex
first_field = any_of "0123456789*" ⋆ star (any_of "0123456789,-*/")

abbrev later_field : Regex
later_field = plus (any_of "0123456789*,-/")

-- Five fields and a command.
abbrev pub standard_line : Regex
standard_line =
    at_start
    ⋆ group 1 (
        first_field
        ⋆ plus space
        ⋆ first_field
        ⋆ plus space
        ⋆ later_field
        ⋆ plus space
        ⋆ later_field
        ⋆ plus space
        ⋆ later_field)
    ⋆ plus space
    ⋆ group 2 (plus dot)
    ⋆ at_end

abbrev any_field : Regex
any_field = plus space ⋆ plus non_space

-- A first field that begins with `*` or `@`.
abbrev pub other_line : Regex
other_line =
    at_start
    ⋆ group 1 (any_of "*@" ⋆ star non_space ⋆ any_field ⋆ any_field ⋆ any_field ⋆ any_field)
    ⋆ plus space
    ⋆ group 2 (plus dot)
    ⋆ at_end

abbrev pub find_command : Regex
find_command = edge ⋆ lit "find" ⋆ edge

unfoldable pub entry_of : Text → Text → Match → Option CronEntry
entry_of prefix trimmed m =
    let command = captured 2 m in
    if not (includes command prefix)
    then none
    else if test find_command command
    then none
    else some (record {
      schedule = captured 1 m;
      command = command;
      log_path = extract_log_path prefix command;
      raw_line = trimmed;
    })

abbrev pub matched_entry : Text → Text → Option Match → Option CronEntry
matched_entry prefix trimmed none = none
matched_entry prefix trimmed (some m) = entry_of prefix trimmed m

-- The second pattern is for the lines that the first does not match.
abbrev pub entry_or_other : Text → Text → Option Match → Option CronEntry
entry_or_other prefix trimmed none = matched_entry prefix trimmed (exec other_line trimmed)
entry_or_other prefix trimmed (some m) = entry_of prefix trimmed m

unfoldable pub parse_cron_line : Text → Text → Option CronEntry
parse_cron_line prefix line =
    let trimmed = trim line in
    if is_empty trimmed || starts_with (text "#") trimmed
    then none
    else entry_or_other prefix trimmed (exec standard_line trimmed)

abbrev pub present : Option CronEntry → List CronEntry → List CronEntry
present none es = es
present (some e) es = e ∷ es

unfoldable pub parse_lines : Text → List Text → List CronEntry
parse_lines prefix [] = []
parse_lines prefix (l ∷ ls) = present (parse_cron_line prefix l) (parse_lines prefix ls)

unfoldable pub parse_cron_entries : Text → Text → List CronEntry
parse_cron_entries prefix raw = parse_lines prefix (split 10 raw)

abbrev not_in_path : Regex
not_in_path = chr (λ d. not (is_space d || mem_char d (text "/>|")))

-- A script below /mount/RWS4, with its name as the group.
abbrev rws4_script : Regex
rws4_script =
    lit "/mount/RWS4/"
    ⋆ star (chr (λ d. not (is_space d || mem_char d (text "^>|"))))
    ⋆ lit "/"
    ⋆ group 1 (plus not_in_path)

abbrev any_script : Regex
any_script =
    lit "/"
    ⋆ group 1 (not_in_path ⋆ lazy_star not_in_path)
    ⋆ opt (lit "." ⋆ plus word)
    ⋆ (space ⊕ at_end ⊕ lit ">")

abbrev humanize : Text → Text
humanize s = replace_chars (λ c. c == b'_' || c == b'-') (text " ") s

unfoldable pub extract_job_name : Text → Text
extract_job_name command = elim (exec rws4_script command) [
  | some m ↦ trim (squeeze false (humanize (remove (lit "." ⋆ plus word ⋆ at_end) (captured 1 m))))
  | none ↦ elim (exec any_script command) [
    | some m ↦ humanize (captured 1 m)
    | none ↦ take 50 command
  ]
]

unfoldable pub script_pattern : Text → Option Text
script_pattern command = elim (exec rws4_script command) [
  | some m ↦ some m.matched
  | none ↦ elim (exec any_script command) [ some m ↦ some m.matched | none ↦ none ]
]

-- The text behind the first occurrence of `t`.
unfoldable pub text_after : Text → Text → Option Text
text_after t [] = if is_empty t then some [] else none
text_after t (c ∷ s) =
    let later = text_after t s in
    if starts_with t (c ∷ s) then some (drop (length t) (c ∷ s)) else later

abbrev is_flag : Text → Bool
is_flag t = starts_with (text "-") t

abbrev is_redirect : Text → Bool
is_redirect t = starts_with (text ">") t

-- The values of flags and the positional arguments.
unfoldable pub meaningful : List Text → List Text
meaningful [] = []
meaningful (t ∷ []) = if is_flag t || is_redirect t then [] else t ∷ []
meaningful (t ∷ u ∷ ts) =
    let behind = meaningful ts in
    let rest = meaningful (u ∷ ts) in
    if is_flag t
    then if not (is_flag u) && not (is_redirect u) then u ∷ behind else rest
    else if not (is_redirect t)
    then t ∷ rest
    else rest

abbrev joined : List Text → Option Text
joined [] = none
joined (t ∷ ts) = some (join b' ' (t ∷ ts))

-- The arguments, without the redirections and what follows them.
unfoldable pub arguments : Text → Text
arguments after = trim (
    remove (star space ⋆ lit "2>&1" ⋆ star dot ⋆ at_end) (
      remove
        (star space ⋆ opt (any_of "12") ⋆ lit ">" ⋆ opt (lit ">") ⋆ star space ⋆ star dot ⋆ at_end)
        after))

unfoldable pub param_of : Text → Option Text
param_of after =
    if is_empty after
    then none
    else if is_empty (arguments after)
    then none
    else joined (meaningful (split_spaces (arguments after)))

unfoldable pub extract_first_param : Text → Option Text
extract_first_param command = elim (script_pattern command) [
  | none ↦ none
  | some p ↦ elim (text_after p command) [ none ↦ none | some s ↦ param_of (trim s) ]
]

unfoldable pub infer_job_type : Text → JobType
infer_job_type command =
    if test (lit_i "python" ⊕ lit_i ".py") command
    then script
    else if test (lit_i "node" ⊕ lit_i ".js") command
    then script
    else if test (lit_i ".sh" ⋆ edge) command
    then shell_command
    else if test (lit_i "curl" ⊕ lit_i "wget" ⊕ lit_i "http") command
    then http
    else if test (lit_i "sql" ⊕ lit_i "db2" ⊕ lit_i "jdbc") command
    then sql
    else if test (lit_i "sftp" ⊕ lit_i "scp" ⊕ lit_i "ftp") command
    then file_transfer
    else if test (lit_i "forecast") command
    then forecast
    else if test (lit_i "schedule") command
    then schedule_gen
    else if test (lit_i "etl" ⊕ lit_i "pipeline" ⊕ lit_i "import" ⊕ lit_i "export") command
    then data_pipeline
    else shell_command
