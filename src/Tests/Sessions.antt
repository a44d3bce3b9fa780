-- ===== src/Tests/Sessions.antt =====
-- Sessions, CSRF tokens and the checks of both, for one user and a code in which every unit moves up.
use wfmcontrol_m.Prelude.{
  ℕ, ◌+◌, ◌-◌, ◌*◌, ◌<◌, ◌≡◌, ◌↔◌, refl, ap, ◌∙◌, Bool, true, false, Option, none, some, get_or,
  List, [], ◌∷◌, ◌++◌, map, arith, ltb,
}
use wfmcontrol_m.Prelude.Int.{pos}
use wfmcontrol_m.Text.{Text, text, mem_char, last_index_of, index_of}
use wfmcontrol_m.Text.Decimal.{show_int, show_nat}
use wfmcontrol_m.Session.{JwtPayload}
use wfmcontrol_m.Session.Cookie.{
  extract_request_token, extract_session_token_from_cookie, extract_token_from_auth_header,
}
use wfmcontrol_m.Session.Revocation.{
  State, is_session_active, expected_version, version_of, revoke_token, revoke_all_user_tokens,
}
use wfmcontrol_m.Session.Revocation.Laws.{
  Event, revoke_user, revoke_master, sweep, run_events, swept_by,
}
use wfmcontrol_m.Session.Revocation.Laws.Versions.{revoke_all_user_tokens-ends_sessions}
use wfmcontrol_m.Session.Csrf.{Crypto, create_csrf_token_from_session, validate_csrf_token}
use wfmcontrol_m.Session.Csrf.Laws.{
  IsBase64Url, SameClaims, validate-create, validate-create-SameClaims,
}
use wfmcontrol_m.Session.Auth.{
  auth_middleware, refused, next, joined, Handshake, socket_auth_middleware,
}
use wfmcontrol_m.Session.Auth.Laws.{IsJwt, auth_middleware-logout, socket_auth_middleware_iff}

abbrev kim : Text
kim = text "kim"

abbrev jti : Text
jti = text "j1"

abbrev payload : Text → JwtPayload
payload u = record {
  user_id = u;
  permissions = [];
  jti = some jti;
  tv = some (pos 0);
  is_master = false;
  exp = some 5000;
}

abbrev state : State
state = record {
  revoked = [];
  users = record { id = kim; token_version = pos 0 } ∷ [];
  master_version = some (text "7");
}

abbrev events : List Event
events = revoke_master ∷ sweep 4000 ∷ revoke_user (text "lee") ∷ []

abbrev bumped : State
bumped = record state { users = record { id = kim; token_version = pos 1 } ∷ [] }

revoke_all_user_tokens-ends_sessions_example :
    is_session_active (run_events events bumped) (payload kim) ≡ false
revoke_all_user_tokens-ends_sessions_example =
    revoke_all_user_tokens-ends_sessions state bumped (payload kim) events refl refl
      (unfold is_session_active expected_version version_of in refl)
      (unfold revoke_all_user_tokens in refl)

abbrev master : JwtPayload
master = record (payload (text "master")) { tv = some (pos 7); is_master = true }

abbrev raised : State
raised = record state { master_version = some (text "8") }

-- Every unit moves up by 47, past the ".".
abbrev encode : Text → Text
encode s = map (λ c. c + 47) s

abbrev decode : Text → Option Text
decode s = some (map (λ c. c - 47) s)

decode-encode : (s : Text) → map (λ c. c - 47) (encode s) ≡ s
decode-encode [] = refl
decode-encode (c ∷ s) = rw (decode-encode s) (ap (λ d. d ∷ s) (omega arith))

encode_no_dot : (s : Text) → mem_char b'.' (encode s) ≡ false
encode_no_dot [] = refl
encode_no_dot (c ∷ s) = ground (arith, encode_no_dot s)

abbrev crypto : Crypto
crypto = record { sign = encode; encode = encode; decode = decode; session = λ t. some (payload t) }

crypto-IsBase64Url : IsBase64Url crypto
crypto-IsBase64Url = record {
  decode-encode = λ p plain. ap (λ s. some s) (decode-encode p);
  decode_empty = refl;
  encode_no_dot = encode_no_dot;
  sign_no_dot = encode_no_dot;
}

validate-create_example :
    (csrf : Text) × (create_csrf_token_from_session crypto kim ≡ some csrf)
    × (validate_csrf_token crypto csrf kim ≡ true)
validate-create_example =
    validate-create crypto crypto-IsBase64Url kim (payload kim) jti refl refl refl refl refl refl

abbrev kim_csrf : Text
kim_csrf = encode (text "j1:0") ++ text "." ++ encode (text "j1:0")

validate-create-SameClaims_example : SameClaims (payload kim) (payload (text "lee"))
validate-create-SameClaims_example =
    validate-create-SameClaims crypto crypto-IsBase64Url kim (text "lee") (payload kim)
      (payload (text "lee")) jti refl refl refl refl refl refl refl kim_csrf
      (unfold create_csrf_token_from_session show_int show_nat in refl)
      (unfold validate_csrf_token last_index_of index_of show_int show_nat in refl)

-- A verifier that accepts every token before the expiry.
abbrev verify_before : Bool → Text → Option JwtPayload
verify_before true t = some (payload t)
verify_before false t = none

abbrev verify : ℕ → Text → Option JwtPayload
verify now t = verify_before (ltb now 5000000) t

decode_jwt : Text → Option JwtPayload
decode_jwt t = some (payload t)

verify_before-decode :
    (b : Bool) (t : Text) (p : JwtPayload) → verify_before b t ≡ some p → decode_jwt t ≡ some p
unfolding decode_jwt
verify_before-decode true t p h = h
verify_before-decode false t p h = cc

verify_before-expiry :
    (now : ℕ) (b : Bool) (t : Text) (p : JwtPayload) (exp : ℕ)
    → b ≡ ltb now 5000000
    → verify_before b t ≡ some p
    → p.exp ≡ some exp
    → now < exp * 1000
verify_before-expiry now true t p exp e h x =
    let same : payload t ≡ p = ap (λ o. get_or o p) h in
    let five : 5000 ≡ exp = ap (λ o. get_or o 0) (ap (λ (q : JwtPayload). q.exp) same ∙ x) in
    ground (arith, e, five)
verify_before-expiry now false t p exp e h x = cc

verify-IsJwt : IsJwt decode_jwt verify
verify-IsJwt = record {
  verify-decode = λ now t p h. verify_before-decode (ltb now 5000000) t p h;
  verify_expiry = λ now t p exp h x. verify_before-expiry now (ltb now 5000000) t p exp refl h x;
}

abbrev as_it_is : Text → Option Text
as_it_is t = some t

abbrev header : Text
header = text "Bearer kim"

auth_middleware-logout_example :
    auth_middleware as_it_is verify 4500
      (run_events events (revoke_token (decode_jwt kim) (text "logout") state))
      none
      (some header)
    ≡ refused 401
auth_middleware-logout_example =
    auth_middleware-logout as_it_is decode_jwt verify verify-IsJwt state none (some header) kim
      (payload kim) jti 5000 (text "logout") events 4500
      (unfold extract_request_token extract_session_token_from_cookie
          extract_token_from_auth_header in
        refl)
      (unfold decode_jwt in refl) refl refl (λ e. omega (arith, e)) refl (unfold swept_by in refl)

abbrev handshake : Handshake
handshake = record { cookie = none; auth_token = none; authorization = some header }

socket_auth_middleware_iff_example :
    (socket_auth_middleware as_it_is verify 10 state handshake ≡ joined (payload kim))
    ↔ (auth_middleware as_it_is verify 10 state none (some header) ≡ next (payload kim))
socket_auth_middleware_iff_example =
    socket_auth_middleware_iff as_it_is verify 10 state handshake (payload kim) refl
