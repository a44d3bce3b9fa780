-- ===== src/Session/Cookie.antt =====
-- utils/session-cookie.ts. `decode` stands for `decodeURIComponent`, which may throw: `none`.
use wfmcontrol_m.Prelude.{
  ℕ, ◌*◌, Bool, true, ◌||◌, Option, none, some, List, [], ◌∷◌, ◌==◌, if◌then◌else◌, get_or,
}
use wfmcontrol_m.Text.{Text, text, trim, trim_start, is_digit, is_empty, starts_with, drop, split}
use wfmcontrol_m.Text.Decimal.{read_digits}

abbrev pub day_ms : ℕ
day_ms = 24 * 60 * 60 * 1000

unfoldable pub after_digits : Text → Text
after_digits [] = []
after_digits (c ∷ s) = let rest = after_digits s in if is_digit c then rest else c ∷ s

-- The multiplier of the unit, in either case; 0 stands for no unit.
abbrev pub unit_ms : ℕ → ℕ
unit_ms u =
    if u == b's' || u == b'S'
    then 1000
    else if u == b'm' || u == b'M'
    then 60 * 1000
    else if u == b'h' || u == b'H'
    then 60 * 60 * 1000
    else if u == b'd' || u == b'D'
    then day_ms
    else 0

abbrev with_unit : ℕ → Text → ℕ
with_unit amount [] = day_ms
with_unit amount (u ∷ []) = if unit_ms u == 0 then day_ms else amount * unit_ms u
with_unit amount (u ∷ v ∷ s) = day_ms

abbrev duration : Text → ℕ
duration [] = day_ms
duration (c ∷ s) =
    if is_digit c
    then with_unit (read_digits 0 (c ∷ s)) (trim_start (after_digits (c ∷ s)))
    else day_ms

-- /^(\d+)\s*([smhd])$/i on the trimmed text
unfoldable pub parse_jwt_duration_ms : Text → ℕ
unfolding after_digits trim trim_start read_digits
parse_jwt_duration_ms s = duration (trim s)

abbrev pub session_cookie_name : Text
session_cookie_name = text "wfm_session"

abbrev pub cookie_prefix : Text
cookie_prefix = text "wfm_session="

pub record CookieOptions : Type 0 where
  pub http_only : Bool
  pub secure : Bool
  pub same_site_strict : Bool
  pub path : Text
  pub max_age : ℕ

abbrev duration_or_day : Text → Text
duration_or_day s = if is_empty s then text "24h" else s

unfoldable pub get_session_cookie_options : Bool → Bool → Text → CookieOptions
get_session_cookie_options require_https production expires_in = record {
  http_only = true;
  secure = require_https || production;
  same_site_strict = true;
  path = text "/";
  max_age = parse_jwt_duration_ms (duration_or_day expires_in);
}

-- The loop over the parts of the header, each of them trimmed.
unfoldable pub token_in : (Text → Option Text) → List Text → Option Text
token_in decode [] = none
token_in decode (part ∷ parts) =
    let trimmed = trim part in
    let value = drop 12 trimmed in
    let others = token_in decode parts in
    if starts_with cookie_prefix trimmed
    then (if is_empty value then none else some (get_or (decode value) value))
    else others

unfoldable pub extract_session_token_from_cookie : (Text → Option Text) → Option Text → Option Text
extract_session_token_from_cookie decode none = none
extract_session_token_from_cookie decode (some header) =
    if is_empty header then none else token_in decode (split b';' header)

abbrev pub bearer : Text
bearer = text "Bearer "

-- extractTokenFromAuthHeader of middleware/index.ts
unfoldable pub extract_token_from_auth_header : Option Text → Option Text
extract_token_from_auth_header none = none
extract_token_from_auth_header (some h) = if starts_with bearer h then some (drop 7 h) else none

abbrev pub or_header : Option Text → Option Text → Option Text
or_header none header = extract_token_from_auth_header header
or_header (some token) header =
    if is_empty token then extract_token_from_auth_header header else some token

unfoldable pub extract_request_token :
    (Text → Option Text) → Option Text → Option Text → Option Text
extract_request_token decode cookie authorization =
    or_header (extract_session_token_from_cookie decode cookie) authorization
