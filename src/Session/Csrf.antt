-- ===== src/Session/Csrf.antt =====
-- utils/csrf-token.ts and middleware/csrf.ts. The HMAC, base64url and `jwt.decode` are parameters:
-- `sign` is signPayload, `encode` and `decode` turn a text into base64url of its UTF-8 and back (`none`
-- where decoding throws), `session` is `jwt.decode`.
pub mod Laws
use wfmcontrol_m.Prelude.{
  ℕ, suc, Bool, true, false, ◌&&◌, ◌||◌, not, Option, none, some, get_or, List, [], ◌∷◌, ◌++◌, any,
  if◌then◌else◌, ltb,
}
use wfmcontrol_m.Prelude.Int.{ℤ, pos}
use wfmcontrol_m.Text.{Text, text, text_eq, is_empty, index_of, last_index_of, take, drop, trim}
use wfmcontrol_m.Text.Decimal.{show_int}
use wfmcontrol_m.Session.{JwtPayload}
use wfmcontrol_m.Session.Cookie.{extract_session_token_from_cookie}
use wfmcontrol_m.Session.Revocation.{present}

pub record Crypto : Type 0 where
  pub sign : Text → Text
  pub encode : Text → Text
  pub decode : Text → Option Text
  pub session : Text → Option JwtPayload

abbrev pub tv_text : JwtPayload → Text
tv_text p = show_int (get_or p.tv (pos 0))

-- `${jti}:${tv ?? 0}`
abbrev pub csrf_payload : Text → JwtPayload → Text
csrf_payload jti p = jti ++ b':' ∷ tv_text p

abbrev pub csrf_token : Crypto → Text → Text
csrf_token k payload = k.encode payload ++ b'.' ∷ k.sign payload

abbrev token_for : Crypto → JwtPayload → Option Text → Option Text
token_for k p none = none
token_for k p (some jti) = some (csrf_token k (csrf_payload jti p))

abbrev token_of : Crypto → Option JwtPayload → Option Text
token_of k none = none
token_of k (some p) = token_for k p (present p.jti)

unfoldable pub create_csrf_token_from_session : Crypto → Text → Option Text
create_csrf_token_from_session k session_token = token_of k (k.session session_token)

abbrev matches_jti : Text → JwtPayload → Option Text → Bool
matches_jti token_jti p none = false
matches_jti token_jti p (some jti) = text_eq jti token_jti

abbrev matches_session : Text → Text → Option JwtPayload → Bool
matches_session token_jti token_tv none = false
matches_session token_jti token_tv (some p) =
    matches_jti token_jti p (present p.jti) && text_eq (tv_text p) token_tv

-- From `payload.indexOf(':')`; an index of 0 is refused too.
abbrev check_claims : Crypto → Text → Text → Option ℕ → Bool
check_claims k session_token payload none = false
check_claims k session_token payload (some colon) =
    ltb 0 colon
    && matches_session (take colon payload) (drop (suc colon) payload) (k.session session_token)

abbrev check_payload : Crypto → Text → Text → Option Text → Bool
check_payload k session_token sig none = false
check_payload k session_token sig (some payload) =
    text_eq sig (k.sign payload) && check_claims k session_token payload (index_of b':' payload)

abbrev check_token : Crypto → Text → Text → Option ℕ → Bool
check_token k csrf session_token none = false
check_token k csrf session_token (some dot) =
    ltb 0 dot && check_payload k session_token (drop (suc dot) csrf) (k.decode (take dot csrf))

unfoldable pub validate_csrf_token : Crypto → Text → Text → Bool
validate_csrf_token k csrf session_token =
    if is_empty csrf || is_empty session_token
    then false
    else check_token k csrf session_token (last_index_of b'.' csrf)

pub record Request : Type 0 where
  pub method : Text
  pub path : Text
  pub cookie : Option Text
  pub csrf_header : Option Text

abbrev pub one_of : List Text → Text → Bool
one_of ts t = any (λ u. text_eq u t) ts

abbrev pub mutating_methods : List Text
mutating_methods = text "POST" ∷ text "PUT" ∷ text "PATCH" ∷ text "DELETE" ∷ []

abbrev pub public_mutating_paths : List Text
public_mutating_paths = text "/auth/login" ∷ text "/auth/register" ∷ text "/auth/sso-login" ∷ []

abbrev non_empty : Text → Option Text
non_empty t = if is_empty t then none else some t

unfoldable pub read_csrf_header : Request → Option Text
read_csrf_header req = elim req.csrf_header [ none ↦ none | some raw ↦ non_empty (trim raw) ]

abbrev header_valid : Crypto → Text → Option Text → Bool
header_valid k session none = false
header_valid k session (some csrf) = validate_csrf_token k csrf session

abbrev checked : Crypto → Request → Option Text → Bool
checked k req none = true
checked k req (some session) =
    if is_empty session then true else header_valid k session (read_csrf_header req)

-- true: `next()`, false: status 403. `uri` is decodeURIComponent.
unfoldable pub csrf_middleware : (Text → Option Text) → Crypto → Request → Bool
csrf_middleware uri k req =
    not (one_of mutating_methods req.method)
    || one_of public_mutating_paths req.path
    || checked k req (extract_session_token_from_cookie uri req.cookie)
