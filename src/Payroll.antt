-- ===== src/Payroll.antt =====
-- constants/payroll.ts: the codes of frequencies and jobs, dates as `yyyyMMdd`, and the conditions that
-- go into the SQL of the payroll service. `upper` is toUpperCase.
pub mod Phase
pub mod Monitor
pub mod Laws
use wfmcontrol_m.Prelude.{
  ℕ, zero, suc, ◌+◌, Bool, true, false, not, ◌&&◌, ◌||◌, Option, none, some, List, [], ◌∷◌, ◌++◌,
  map, any, filter, find, length, ltb, leb, ◌==◌, if◌then◌else◌, get_or, get_elem?,
}
use wfmcontrol_m.Text.{
  Text, text, text_eq, trim, is_empty, is_digit, is_space, mem_char, take, drop,
}
use wfmcontrol_m.Text.Search.{includes, join}
use wfmcontrol_m.Regex.{Regex, Match, ◌⋆◌, group, at_start, lit, digit, eps, exec, group_of}

abbrev pub regular_pay_jobs : List Text
regular_pay_jobs =
    text "RTANewPayFileGeneratorJob"
    ∷ text "RTAPayrollFeedGeneratorJob"
    ∷ text "RTA_PAYROLL_FILE_GEN"
    ∷ []

abbrev pub adj_pay_job : Text
adj_pay_job = text "RTAPriorAdjPayGeneratorJob"

abbrev pub pay_file_generated_status : Text
pay_file_generated_status = text "F"

abbrev pub frequency_order : List Text
frequency_order = text "WK" ∷ text "BW" ∷ text "SM" ∷ text "GM" ∷ []

abbrev pub one_of : List Text → Text → Bool
one_of ts t = any (λ u. text_eq u t) ts

abbrev weekly : List Text
weekly = text "WK" ∷ text "WEEKLY" ∷ []

abbrev bi_weekly : List Text
bi_weekly = text "BW" ∷ text "BI-WEEKLY" ∷ text "BIWEEKLY" ∷ text "BI_WEEKLY" ∷ []

abbrev semi_monthly : List Text
semi_monthly = text "SM" ∷ text "SEMI-MONTHLY" ∷ text "SEMIMONTHLY" ∷ text "SEMI_MONTHLY" ∷ []

abbrev monthly : List Text
monthly =
    text "GM"
    ∷ text "MONTHLY"
    ∷ text "GREGORIAN MONTH"
    ∷ text "GREGORIAN_MONTH"
    ∷ text "QUARTERLY"
    ∷ []

-- `raw` is the value or the empty text.
unfoldable pub normalize_frequency : (Text → Text) → Text → Text
normalize_frequency upper raw =
    let u = upper (trim raw) in
    if is_empty u
    then []
    else if one_of weekly u
    then text "WK"
    else if one_of bi_weekly u
    then text "BW"
    else if one_of semi_monthly u
    then text "SM"
    else if one_of monthly u
    then text "GM"
    else u

abbrev pub match_pay_job : (Text → Text) → Text → Text → Bool
match_pay_job upper value name = includes (upper value) (upper name)

pub data PayJobKind : Type 0 where
  regular : PayJobKind
  adjustment : PayJobKind

unfoldable pub pay_job_kind : (Text → Text) → Text → Option PayJobKind
pay_job_kind upper blob =
    if is_empty blob
    then none
    else if match_pay_job upper blob adj_pay_job
    then some adjustment
    else if any (λ n. match_pay_job upper blob n) regular_pay_jobs
    then some regular
    else none

abbrev pub all_digits : Text → Bool
all_digits [] = true
all_digits (c ∷ s) = is_digit c && all_digits s

-- /^\d{8}$/
abbrev pub is_ymd : Text → Bool
is_ymd s = length s == 8 && all_digits s

abbrev digits : ℕ → Regex
digits zero = eps
digits (suc n) = digit ⋆ digits n

abbrev iso_date : Regex
iso_date =
    at_start ⋆ group 1 (digits 4) ⋆ lit "-" ⋆ group 2 (digits 2) ⋆ lit "-" ⋆ group 3 (digits 2)

abbrev part : ℕ → Match → Text
part k m = get_or (group_of k m) []

abbrev only_digits : Text → Text
only_digits s = filter is_digit s

abbrev first_eight : Text → Text
first_eight s = if leb 8 (length s) then take 8 s else []

abbrev iso_or_digits : Text → Option Match → Text
iso_or_digits s (some m) = part 1 m ++ part 2 m ++ part 3 m
iso_or_digits s none = first_eight (only_digits s)

unfoldable pub to_yyyymmdd : Text → Text
to_yyyymmdd raw =
    let s = trim raw in
    if is_empty s then [] else if is_ymd s then s else iso_or_digits s (exec iso_date s)

unfoldable pub sanitize_week_end : Text → Option Text
sanitize_week_end raw = let ymd = to_yyyymmdd raw in if is_ymd ymd then some ymd else none

-- raw.split(/[,|;/\s]+/), without the empty parts, which are dropped anyway
abbrev is_separator : ℕ → Bool
is_separator c = is_space c || mem_char c (text ",|;/")

unfoldable pub words_from : Text → Text → List Text
words_from cur [] = cur ∷ []
words_from cur (c ∷ s) =
    let closed = words_from [] s in
    let longer = words_from (cur ++ c ∷ []) s in if is_separator c then cur ∷ closed else longer

-- [...new Set(ts)]
unfoldable pub unique_from : List Text → List Text → List Text
unique_from seen [] = []
unique_from seen (t ∷ ts) =
    let rest = unique_from seen ts in
    let more = unique_from (t ∷ seen) ts in if one_of seen t then rest else t ∷ more

abbrev unique_codes : (Text → Text) → Text → List Text
unique_codes upper raw =
    unique_from []
      (filter (λ t. not (is_empty t)) (map (normalize_frequency upper) (words_from [] raw)))

abbrev or_weekly : List Text → List Text
or_weekly [] = text "WK" ∷ []
or_weekly (t ∷ ts) = t ∷ ts

-- The known codes in their order, then the others.
unfoldable pub parse_frequencies : (Text → Text) → Text → List Text
parse_frequencies upper raw =
    let codes = unique_codes upper raw in
    or_weekly (
      filter (λ k. one_of codes k) frequency_order
      ++ filter (λ k. not (one_of frequency_order k)) codes)

unfoldable pub serialize_frequencies : (Text → Text) → List Text → Text
serialize_frequencies upper codes = join b',' (parse_frequencies upper (join b',' codes))

unfoldable pub sanitize_frequency : (Text → Text) → Text → Option Text
sanitize_frequency upper raw =
    let code = normalize_frequency upper (trim raw) in
    if is_empty (trim raw) then none else if one_of frequency_order code then some code else none

abbrev slice : ℕ → ℕ → Text → Text
slice from n s = take n (drop from s)

unfoldable pub yyyymmdd_to_iso : Text → Text
yyyymmdd_to_iso ymd =
    let n = to_yyyymmdd ymd in
    if not (length n == 8)
    then []
    else slice 0 4 n ++ text "-" ++ slice 4 2 n ++ text "-" ++ slice 6 2 n

pub record PayPeriod : Type 0 where
  pub week_start_date : Text
  pub week_end_date : Text
  pub is_current : Bool

-- The order of the code units, as `<=` on strings.
abbrev pub text_le : Text → Text → Bool
text_le [] t = true
text_le (c ∷ s) [] = false
text_le (c ∷ s) (d ∷ t) = if ltb c d then true else c == d && text_le s t

unfoldable pub insert_text : Text → List Text → List Text
insert_text t [] = t ∷ []
insert_text t (u ∷ us) = let rest = insert_text t us in if text_le t u then t ∷ u ∷ us else u ∷ rest

-- .sort()
unfoldable pub sort_texts : List Text → List Text
sort_texts [] = []
sort_texts (t ∷ ts) = insert_text t (sort_texts ts)

-- The weeks of the calendar, sorted, each once.
unfoldable pub weeks_of : List PayPeriod → List Text
weeks_of ps = unique_from [] (sort_texts (filter is_ymd (map (λ p. p.week_end_date) ps)))

unfoldable pub last_of : List Text → Text
last_of [] = []
last_of (t ∷ []) = t
last_of (t ∷ u ∷ us) = last_of (u ∷ us)

-- unique[unique.length - 2], or the last one
unfoldable pub last_but_one : List Text → Text
last_but_one [] = []
last_but_one (t ∷ []) = t
last_but_one (t ∷ u ∷ []) = t
last_but_one (t ∷ u ∷ v ∷ us) = last_but_one (u ∷ v ∷ us)

-- The text before the first `w` behind the first one.
unfoldable pub before_in : Text → List Text → Option Text
before_in w [] = none
before_in w (t ∷ []) = none
before_in w (t ∷ u ∷ us) = let later = before_in w (u ∷ us) in if text_eq u w then some t else later

abbrev week_before : Option PayPeriod → List Text → Option Text
week_before none ws = none
week_before (some p) [] = none
week_before (some p) (w ∷ ws) =
    if text_eq w p.week_end_date then none else before_in p.week_end_date (w ∷ ws)

unfoldable pub default_pay_week_end : List PayPeriod → Text
default_pay_week_end ps =
    let weeks = weeks_of ps in
    get_or (week_before (find (λ p. p.is_current) ps) weeks) (last_but_one weeks)

unfoldable pub rfx_compact_date_time : Text → Text
rfx_compact_date_time raw =
    let s = only_digits raw in
    if ltb (length s) 14
    then []
    else slice 0 4 s
      ++ text "-"
      ++ slice 4 2 s
      ++ text "-"
      ++ slice 6 2 s
      ++ text " "
      ++ slice 8 2 s
      ++ text ":"
      ++ slice 10 2 s
      ++ text ":"
      ++ slice 12 2 s

-- `none` is the error that is thrown.
unfoldable pub week_end_equals_sql : Text → Text → Option Text
week_end_equals_sql column ymd = elim (sanitize_week_end ymd) [
  | none ↦ none
  | some safe ↦ some (text "INTEGER(" ++ column ++ text ") = " ++ safe)
]

unfoldable pub sanitize_dist_list_id : Text → Option Text
sanitize_dist_list_id raw =
    let s = trim raw in if is_empty s then none else if all_digits s then some s else none

unfoldable pub dist_list_equals_sql : Text → Text → Option Text
dist_list_equals_sql id column = elim (sanitize_dist_list_id id) [
  | none ↦ none
  | some safe ↦ some (text "INTEGER(" ++ column ++ text ") = " ++ safe)
]
