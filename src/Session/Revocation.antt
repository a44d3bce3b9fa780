-- ===== src/Session/Revocation.antt =====
-- token-revocation-service.ts: the denylist of token ids and the token versions.
-- The clock and the random token id are arguments. `update` of a row that is not there throws: `none`.
pub mod Laws
use wfmcontrol_m.Prelude.{
  ℕ, ◌+◌, ◌*◌, Bool, true, false, not, Option, none, some, get_or, List, [], ◌∷◌, map, filter, any,
  length, ltb, ◌-◌, ◌==◌, if◌then◌else◌, is_some,
}
use wfmcontrol_m.Prelude.Int.{ℤ, pos, negsuc}
use wfmcontrol_m.Text.{Text, text, text_eq, is_empty}
use wfmcontrol_m.Text.Decimal.{parse_int, show_int}
use wfmcontrol_m.Session.{JwtPayload, acts_as_master}

pub record RevokedToken : Type 0 where
  pub jti : Text
  pub user_id : Text
  pub expires_at : ℕ
  pub reason : Text

pub record User : Type 0 where
  pub id : Text
  pub token_version : ℤ

-- The tables `revokedToken` and `user`, and the entry `auth.masterTokenVersion` of the configuration.
pub record State : Type 0 where
  pub revoked : List RevokedToken
  pub users : List User
  pub master_version : Option Text

unfoldable pub get_master_token_version : State → ℤ
get_master_token_version s =
    let raw = get_or s.master_version [] in
    let set = if is_empty raw then text "0" else raw in get_or (parse_int set) (pos 0)

unfoldable pub version_of : Text → List User → ℤ
version_of u [] = pos 0
version_of u (x ∷ xs) = if text_eq x.id u then x.token_version else version_of u xs

-- getUserTokenVersion
abbrev pub get_user_token_version : State → Text → ℤ
get_user_token_version s u = version_of u s.users

unfoldable pub expected_version : State → JwtPayload → ℤ
expected_version s p =
    if acts_as_master p then get_master_token_version s else get_user_token_version s p.user_id

-- The payload that createSessionToken signs.
unfoldable pub create_session : State → Text → ℕ → JwtPayload → JwtPayload
create_session s jti exp p = record p {
  tv = some (expected_version s p);
  jti = some jti;
  exp = some exp;
}

abbrev pub is_revoked : Text → List RevokedToken → Bool
is_revoked jti rows = any (λ r. text_eq r.jti jti) rows

-- upsert: an existing row gets the reason alone
unfoldable pub revoke_jti : Text → Text → ℕ → Text → State → State
revoke_jti jti user expires reason s =
    if is_revoked jti s.revoked
    then record s {
      revoked = map (λ r. if text_eq r.jti jti then record r { reason = reason } else r) s.revoked;
    }
    else record s {
      revoked =
          record { jti = jti; user_id = user; expires_at = expires; reason = reason } ∷ s.revoked;
    }

abbrev pub present : Option Text → Option Text
present none = none
present (some t) = if is_empty t then none else some t

abbrev pub or_unknown : Text → Text
or_unknown u = if is_empty u then text "unknown" else u

abbrev pub revoke_decoded : Text → Text → Option ℕ → Option Text → State → State
revoke_decoded reason user none jti s = s
revoke_decoded reason user (some exp) none s = s
revoke_decoded reason user (some exp) (some jti) s =
    if exp == 0 then s else revoke_jti jti (or_unknown user) (exp * 1000) reason s

-- revokeTokenString, from what `jwt.decode` gives
unfoldable pub revoke_token : Option JwtPayload → Text → State → State
revoke_token none reason s = s
revoke_token (some p) reason s = revoke_decoded reason p.user_id p.exp (present p.jti) s

abbrev pub increment : ℤ → ℤ
increment (pos n) = pos (n + 1)
increment (negsuc n) = if n == 0 then pos 0 else negsuc (n - 1)

abbrev pub has_user : Text → List User → Bool
has_user u xs = any (λ x. text_eq x.id u) xs

unfoldable pub revoke_all_user_tokens : Text → State → Option State
revoke_all_user_tokens u s =
    if has_user u s.users
    then some (record s {
      users =
          map
            (λ x.
              if text_eq x.id u then record x { token_version = increment x.token_version } else x)
            s.users;
    })
    else none

-- configService.update throws for a key that is not loaded
unfoldable pub revoke_master_tokens : State → Option State
revoke_master_tokens s = elim s.master_version [
  | none ↦ none
  | some raw ↦
      some (record s { master_version = some (show_int (increment (get_master_token_version s))) })
]

abbrev pub int_eq : ℤ → ℤ → Bool
int_eq (pos a) (pos b) = a == b
int_eq (negsuc a) (negsuc b) = a == b
int_eq _ _ = false

abbrev pub active_with : State → JwtPayload → Option Text → Option ℤ → Bool
active_with s p none tv = false
active_with s p (some jti) none = false
active_with s p (some jti) (some tv) =
    if is_revoked jti s.revoked then false else int_eq tv (expected_version s p)

unfoldable pub is_session_active : State → JwtPayload → Bool
is_session_active s p = active_with s p (present p.jti) p.tv

-- the state left, and the number of rows deleted
unfoldable pub purge_expired : ℕ → State → State × ℕ
purge_expired now s = (
  record s { revoked = filter (λ r. not (ltb r.expires_at now)) s.revoked },
  length (filter (λ r. ltb r.expires_at now) s.revoked),
)
