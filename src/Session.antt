-- ===== src/Session.antt =====
-- Session tokens: backend/src/services/token-revocation-service.ts, utils/csrf-token.ts,
-- utils/session-cookie.ts, middleware/index.ts, middleware/csrf.ts and websocket/auth.ts.
-- A JWT is opaque: `jwt.decode` and `jwt.verify` are functions from texts to payloads. Times are
-- milliseconds; `exp` is in seconds, as in the token.
pub mod Cookie
pub mod Revocation
pub mod Csrf
pub mod Auth
use wfmcontrol_m.Prelude.{ℕ, Bool, true, false, ◌||◌, Option, none, some, List}
use wfmcontrol_m.Prelude.Int.{ℤ}
use wfmcontrol_m.Text.{Text, text, text_eq}

pub record Permission : Type 0 where
  pub function_id : Text
  pub r : Bool
  pub w : Bool

-- A missing field is `none`; a missing `isMaster` is false.
pub record JwtPayload : Type 0 where
  pub user_id : Text
  pub permissions : List Permission
  pub jti : Option Text
  pub tv : Option ℤ
  pub is_master : Bool
  pub exp : Option ℕ

abbrev pub master_id : Text
master_id = text "master"

abbrev pub acts_as_master : JwtPayload → Bool
acts_as_master p = p.is_master || text_eq p.user_id master_id
