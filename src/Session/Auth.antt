-- ===== src/Session/Auth.antt =====
-- middleware/index.ts and websocket/auth.ts: who gets past the check of a session, over HTTP and over a
-- socket. `verify now token` is `jwt.verify` at the time `now`: `none` where it throws.
pub mod Laws
use wfmcontrol_m.Prelude.{
  ℕ, Bool, true, false, ◌&&◌, ◌||◌, not, Option, none, some, List, [], ◌∷◌, ◌++◌, any,
  if◌then◌else◌, leb, ◌==◌, length,
}
use wfmcontrol_m.Text.{Text, text, text_eq, is_empty, is_digit, trim}
use wfmcontrol_m.Session.{JwtPayload, Permission}
use wfmcontrol_m.Session.Cookie.{
  extract_session_token_from_cookie, extract_request_token, extract_token_from_auth_header,
}
use wfmcontrol_m.Session.Revocation.{State, is_session_active}

pub data Mode : Type 0 where
  read : Mode
  write : Mode

abbrev grants : Mode → Permission → Bool
grants read perm = perm.r
grants write perm = perm.w

abbrev grant_of : Text → Mode → List Permission → Bool
grant_of id mode [] = false
grant_of id mode (perm ∷ perms) =
    if text_eq perm.function_id id then grants mode perm else grant_of id mode perms

unfoldable pub has_permission : JwtPayload → Text → Mode → Bool
has_permission user id mode = grant_of id mode user.permissions

-- `next` carries req.user; a refusal carries its status.
pub data Response : Type 0 where
  next : JwtPayload → Response
  refused : ℕ → Response

abbrev pub answer_active : JwtPayload → Bool → Response
answer_active p true = next p
answer_active p false = refused 401

abbrev pub answer_verified : State → Option JwtPayload → Response
answer_verified s none = refused 401
answer_verified s (some p) = answer_active p (is_session_active s p)

abbrev pub answer_token : (Text → Option JwtPayload) → State → Option Text → Response
answer_token verify s none = refused 401
answer_token verify s (some token) =
    if is_empty token then refused 401 else answer_verified s (verify token)

unfoldable pub auth_middleware :
    (Text → Option Text)
    → (ℕ → Text → Option JwtPayload)
    → ℕ
    → State
    → Option Text
    → Option Text
    → Response
auth_middleware uri verify now s cookie authorization =
    answer_token (verify now) s (extract_request_token uri cookie authorization)

unfoldable pub require_permission : Text → Mode → Option JwtPayload → Response
require_permission id mode none = refused 401
require_permission id mode (some user) =
    if has_permission user id mode then next user else refused 403

unfoldable pub require_any_permission : List Text → Mode → Option JwtPayload → Response
require_any_permission ids mode none = refused 401
require_any_permission ids mode (some user) =
    if any (λ id. has_permission user id mode) ids then next user else refused 403

-- The parts of a handshake that are texts.
pub record Handshake : Type 0 where
  pub cookie : Option Text
  pub auth_token : Option Text
  pub authorization : Option Text

abbrev pub or_auth_token : Handshake → Option Text → Option Text
or_auth_token h none = extract_token_from_auth_header h.authorization
or_auth_token h (some token) =
    if is_empty (trim token)
    then extract_token_from_auth_header h.authorization
    else some (trim token)

abbrev pub or_handshake : Handshake → Option Text → Option Text
or_handshake h none = or_auth_token h h.auth_token
or_handshake h (some token) = if is_empty token then or_auth_token h h.auth_token else some token

unfoldable pub extract_socket_token : (Text → Option Text) → Handshake → Option Text
extract_socket_token uri h = or_handshake h (extract_session_token_from_cookie uri h.cookie)

pub data SocketAnswer : Type 0 where
  joined : JwtPayload → SocketAnswer
  authentication_required : SocketAnswer
  session_revoked : SocketAnswer
  invalid_or_expired : SocketAnswer

abbrev pub socket_active : JwtPayload → Bool → SocketAnswer
socket_active p true = joined p
socket_active p false = session_revoked

abbrev pub socket_verified : State → Option JwtPayload → SocketAnswer
socket_verified s none = invalid_or_expired
socket_verified s (some p) = socket_active p (is_session_active s p)

abbrev pub socket_token : (Text → Option JwtPayload) → State → Option Text → SocketAnswer
socket_token verify s none = authentication_required
socket_token verify s (some token) =
    if is_empty token then authentication_required else socket_verified s (verify token)

unfoldable pub socket_auth_middleware :
    (Text → Option Text) → (ℕ → Text → Option JwtPayload) → ℕ → State → Handshake → SocketAnswer
socket_auth_middleware uri verify now s h = socket_token (verify now) s (extract_socket_token uri h)

abbrev room_if : Bool → Text → List Text
room_if true room = room ∷ []
room_if false room = []

-- The rooms that a socket joins.
unfoldable pub join_permission_streams : JwtPayload → List Text
join_permission_streams user =
    text "stream:dashboard"
      ∷ room_if (has_permission user (text "MONITOR_VIEW") read) (text "stream:execution")
    ++ room_if (has_permission user (text "ALERTS_VIEW") read) (text "stream:alerts")

abbrev is_word : ℕ → Bool
is_word c =
    leb b'a' c && leb c b'z' || leb b'A' c && leb c b'Z' || is_digit c || c == b'_' || c == b'-'

-- /^[\w-]{8,64}$/
unfoldable pub is_valid_execution_id : Text → Bool
is_valid_execution_id s =
    leb 8 (length s) && leb (length s) 64 && not (any (λ c. not (is_word c)) s)
