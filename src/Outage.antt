-- ===== src/Outage.antt =====
-- utils/outage-cron-utils.ts: the runs of a cron job that fall into a window. The runs that the
-- cron parser gives for an expression, a zone and a start are a parameter, a stream, or an error; Date.UTC
-- is a parameter too. Times are milliseconds.
pub mod Impact
pub mod Laws
use wfmcontrol_m.Prelude.{
  ℕ, zero, suc, ◌+◌, ◌-◌, ◌*◌, Bool, true, false, not, ◌&&◌, ◌||◌, Option, none, some, List, [],
  ◌∷◌, ◌++◌, map, any, filter, length, leb, ltb, ◌==◌, if◌then◌else◌, get_or, sum,
}
use mathlib.Core.Option
use wfmcontrol_m.Prelude.Int.{ℤ, pos, negsuc}
use wfmcontrol_m.Text.{Text, text, text_eq, trim, is_empty, starts_with}
use wfmcontrol_m.Text.Search.{replace_chars}
use wfmcontrol_m.Text.Decimal.{read_digits}
use wfmcontrol_m.Regex.{
  Regex, Match, ◌⋆◌, ◌⊕◌, group, at_start, lit, lit_i, digit, space, plus, opt, exec, test,
  group_of,
}

-- The name of a zone, and its fixed offset in minutes.
pub record Zone : Type 0 where
  pub iana : Text
  pub offset_min : ℤ

abbrev zone : Text → ℤ → Zone
zone iana offset = record { iana = iana; offset_min = offset }

abbrev pub tz_offsets : List (Text × Zone)
tz_offsets =
    (text "IST", zone (text "Asia/Kolkata") (pos 330))
    ∷ (text "EDT", zone (text "America/New_York") (negsuc 239))
    ∷ (text "EST", zone (text "America/New_York") (negsuc 299))
    ∷ (text "CST", zone (text "America/Chicago") (negsuc 359))
    ∷ (text "CDT", zone (text "America/Chicago") (negsuc 299))
    ∷ (text "MST", zone (text "America/Denver") (negsuc 419))
    ∷ (text "MDT", zone (text "America/Denver") (negsuc 359))
    ∷ (text "PST", zone (text "America/Los_Angeles") (negsuc 479))
    ∷ (text "PDT", zone (text "America/Los_Angeles") (negsuc 419))
    ∷ (text "UTC", zone (text "UTC") (pos 0))
    ∷ (text "UK", zone (text "Europe/London") (pos 0))
    ∷ (text "GMT", zone (text "Europe/London") (pos 0))
    ∷ []

abbrev pub iana_aliases : List (Text × Text)
iana_aliases =
    (text "IST", text "Asia/Kolkata")
    ∷ (text "EDT", text "America/New_York")
    ∷ (text "EST", text "America/New_York")
    ∷ (text "CST", text "America/Chicago")
    ∷ (text "CDT", text "America/Chicago")
    ∷ (text "MST", text "America/Denver")
    ∷ (text "MDT", text "America/Denver")
    ∷ (text "PST", text "America/Los_Angeles")
    ∷ (text "PDT", text "America/Los_Angeles")
    ∷ (text "UTC", text "UTC")
    ∷ []

abbrev pub lookup {ℓ} : {A : Type ℓ} → Text → List (Text × A) → Option A
lookup k [] = none
lookup k ((j, v) ∷ es) = if text_eq j k then some v else lookup k es

unfoldable pub resolve_server_tz : (Text → Text) → Option Text → Text
resolve_server_tz upper none = text "UTC"
resolve_server_tz upper (some tz) =
    if is_empty tz then text "UTC" else get_or (lookup (upper tz) iana_aliases) tz

abbrev two : Regex
two = digit ⋆ digit

abbrev one_or_two : Regex
one_or_two = (digit ⋆ digit) ⊕ digit

abbrev year_first : Regex
year_first =
    at_start
    ⋆ group 1 (two ⋆ two)
    ⋆ lit "-"
    ⋆ group 2 two
    ⋆ lit "-"
    ⋆ group 3 two
    ⋆ plus space
    ⋆ group 4 one_or_two
    ⋆ lit ":"
    ⋆ group 5 two

abbrev day_first : Regex
day_first =
    at_start
    ⋆ group 3 two
    ⋆ lit "-"
    ⋆ group 2 two
    ⋆ lit "-"
    ⋆ group 1 (two ⋆ two)
    ⋆ plus space
    ⋆ group 4 one_or_two
    ⋆ lit ":"
    ⋆ group 5 two

-- The first T becomes a space.
unfoldable pub replace_t : Text → Text
replace_t [] = []
replace_t (c ∷ s) = let rest = c ∷ replace_t s in if c == b'T' then b' ' ∷ s else rest

unfoldable pub normalised : Text → Text
normalised s = trim (replace_chars (λ c. c == b'/') (text "-") (replace_t s))

abbrev number : ℕ → Match → ℕ
number k m = read_digits 0 (get_or (group_of k m) [])

-- Date.UTC of the year, month, day, hour and minute; `none` is the error that is thrown.
abbrev pub Calendar : Type 0
Calendar = ℕ → ℕ → ℕ → ℕ → ℕ → ℕ

-- local - offset, which is not negative for the times in question
abbrev minus_offset : ℕ → ℤ → ℕ
minus_offset t (pos m) = t - m * 60000
minus_offset t (negsuc m) = t + suc m * 60000

abbrev date_in : Calendar → Zone → Option Match → Option ℕ
date_in utc z none = none
date_in utc z (some m) = some (
    minus_offset (utc (number 1 m) (number 2 m) (number 3 m) (number 4 m) (number 5 m))
      z.offset_min)

abbrev or_day_first : Text → Option Match → Option Match
or_day_first s none = exec day_first s
or_day_first s (some m) = some m

abbrev local_in : Calendar → Text → Option Zone → Option ℕ
local_in utc s none = none
local_in utc s (some z) =
    date_in utc z (or_day_first (normalised s) (exec year_first (normalised s)))

unfoldable pub local_to_utc : (Text → Text) → Calendar → Text → Text → Option ℕ
local_to_utc upper utc s label = local_in utc s (lookup (upper label) tz_offsets)

abbrev date_start : Regex
date_start = at_start ⋆ group 1 (two ⋆ two ⋆ lit "-" ⋆ two ⋆ lit "-" ⋆ two)

unfoldable pub local_date_from_start : Text → Option Text
local_date_from_start s = elim (exec date_start (replace_t s)) [
  | none ↦ none
  | some m ↦ group_of 1 m
]

-- The runs from a start: the i-th of them, or the error of the parser.
pub data Fires : Type 0 where
  fires : (ℕ → ℕ) → Fires
  parse_error : Text → Fires

-- The loop, with `left` rounds of the 500 to go; `i` counts the runs.
unfoldable pub fire_loop : ℕ → ℕ → (ℕ → ℕ) → ℕ → ℕ → List ℕ
fire_loop zero i next start end = []
fire_loop (suc left) i next start end =
    let rest = fire_loop left (suc i) next start end in
    if ltb end (next i) then [] else if leb start (next i) then next i ∷ rest else rest

pub data FireTimes : Type 0 where
  fire_times : List ℕ → FireTimes
  fire_error : Text → FireTimes

abbrev pub times_of : FireTimes → List ℕ
times_of (fire_times ts) = ts
times_of (fire_error e) = []

abbrev in_window : ℕ → ℕ → Fires → FireTimes
in_window start end (parse_error e) = fire_error e
in_window start end (fires next) = fire_times (fire_loop 500 0 next start end)

-- `cron` gives the runs of an expression in a zone, from a time on.
unfoldable pub get_fire_times_utc_in_window :
    (Text → Text) → (Text → Text → ℕ → Fires) → Text → Text → ℕ → ℕ → FireTimes
get_fire_times_utc_in_window upper cron expr tz start end =
    in_window start end (cron expr (resolve_server_tz upper (some tz)) (start - 1000))

abbrev fires_by :
    (Text → Text) → (Text → Text → ℕ → Fires) → Text → Text → ℕ → Option ℕ → Option Bool
fires_by upper cron expr tz after none = none
fires_by upper cron expr tz after (some end) =
    some
      (ltb 0 (length (times_of (get_fire_times_utc_in_window upper cron expr tz (after + 1) end))))

-- `none` is the error that is thrown.
unfoldable pub has_fire_later_today :
    (Text → Text)
    → Calendar
    → (Text → Text → ℕ → Fires)
    → Text
    → Text
    → ℕ
    → Text
    → Text
    → Option Bool
has_fire_later_today upper utc cron expr tz after input_tz start_local =
    elim (local_date_from_start start_local) [
      | none ↦ none
      | some date ↦
          fires_by upper cron expr tz after
            (local_to_utc upper utc (date ++ text " 23:59:59") input_tz)
    ]
