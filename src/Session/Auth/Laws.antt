-- ===== src/Session/Auth/Laws.antt =====
-- The session check over HTTP and over sockets: its agreement, and what logging out does to it.
use wfmcontrol_m.Prelude.{
  ℕ, ◌*◌, ◌<◌, ◌≤◌, ◌≡◌, ◌≢◌, ◌↔◌, ap, sym, ◌∙◌, Bool, true, false, Option, none, some, get_or,
  List, [], ◌∷◌, arith, inl, inr, Option-cases,
}
use wfmcontrol_m.Text.{Text}
use wfmcontrol_m.Session.{JwtPayload}
use wfmcontrol_m.Session.Cookie.{
  extract_session_token_from_cookie, extract_request_token, or_header,
}
use wfmcontrol_m.Session.Revocation.{State, is_revoked, is_session_active, present, revoke_token}
use wfmcontrol_m.Session.Revocation.Laws.{
  Event, logout, revoke_user, revoke_master, sweep, run_events, swept_by, revoke_token-ends_session,
}
use wfmcontrol_m.Session.Auth.{
  next, refused, auth_middleware, Handshake, extract_socket_token, joined, socket_auth_middleware,
  answer_token, answer_verified, answer_active, socket_active, socket_verified, socket_token,
  or_handshake,
}

-- What `jwt.verify` gives is what `jwt.decode` gives, and it throws from the expiry on.
pub record IsJwt (decode : Text → Option JwtPayload) (verify : ℕ → Text → Option JwtPayload)
    : Type 0 where
  pub verify-decode :
      (now : ℕ) (token : Text) (p : JwtPayload) → verify now token ≡ some p → decode token ≡ some p
  pub verify_expiry :
      (now : ℕ) (token : Text) (p : JwtPayload) (exp : ℕ)
      → verify now token ≡ some p
      → p.exp ≡ some exp
      → now < exp * 1000

swept_by_later :
    (now t : ℕ) (es : List Event) → now ≤ t → swept_by now es ≡ true → swept_by t es ≡ true
unfolding swept_by
swept_by_later now t [] le h = h
swept_by_later now t (logout p reason ∷ es) le h = swept_by_later now t es le h
swept_by_later now t (revoke_user u ∷ es) le h = swept_by_later now t es le h
swept_by_later now t (revoke_master ∷ es) le h = swept_by_later now t es le h
swept_by_later now t (sweep at ∷ es) le h = ground (arith, swept_by_later now t es le)

-- Once a session has been logged out, a request with its token is refused with status 401, at every
-- later time and after every sequence of later calls: until its expiry because the denylist has it,
-- even if expired rows are swept in between, and from then on because `jwt.verify` throws. The
-- token carries an id and an expiry and was not revoked before, and no sweep has run at a later
-- time than the request.
pub auth_middleware-logout :
    (uri : Text → Option Text) (decode : Text → Option JwtPayload)
    (verify : ℕ → Text → Option JwtPayload)
    → IsJwt decode verify
    → (s : State) (cookie authorization : Option Text) (token : Text) (p : JwtPayload) (jti : Text)
      (exp : ℕ) (reason : Text) (es : List Event) (now : ℕ)
    → extract_request_token uri cookie authorization ≡ some token
    → decode token ≡ some p
    → present p.jti ≡ some jti
    → p.exp ≡ some exp
    → exp ≢ 0
    → is_revoked jti s.revoked ≡ false
    → swept_by now es ≡ true
    → auth_middleware uri verify now
        (run_events es (revoke_token (decode token) reason s))
        cookie
        authorization
      ≡ refused 401
unfolding auth_middleware
auth_middleware-logout uri decode verify j s cookie authorization token p jti exp reason es now t d
      e f nonzero h c =
    elim (Option-cases (verify now token)) [
      | inl v ↦ simp (t, v) (ground arith)
      | inr (q, v) ↦
          let same : q ≡ p = ap (λ o. get_or o p) (sym (j.verify-decode now token q v) ∙ d) in
          let valid : verify now token ≡ some p = v ∙ ap (λ x. some x) same in
          let swept =
            swept_by_later now (exp * 1000) es
              (omega (arith, j.verify_expiry now token p exp valid f)) c in
          let ended : is_session_active (run_events es (revoke_token (decode token) reason s)) p
              ≡ false =
            ap (λ o. is_session_active (run_events es (revoke_token o reason s)) p) d
            ∙ revoke_token-ends_session s p jti exp reason es e f nonzero h swept in
          simp (t, valid, ended) (ground arith)
    ]

answer_active_iff :
    (q p : JwtPayload) (b : Bool) → (socket_active q b ≡ joined p) ↔ (answer_active q b ≡ next p)
answer_active_iff q p true = (λ e. cc, λ e. cc)
answer_active_iff q p false = (λ e. cc, λ e. cc)

answer_verified_iff :
    (s : State) (v : Option JwtPayload) (p : JwtPayload)
    → (socket_verified s v ≡ joined p) ↔ (answer_verified s v ≡ next p)
answer_verified_iff s none p = (λ e. cc, λ e. cc)
answer_verified_iff s (some q) p = answer_active_iff q p (is_session_active s q)

answer_token_iff :
    (verify : Text → Option JwtPayload) (s : State) (t : Option Text) (p : JwtPayload)
    → (socket_token verify s t ≡ joined p) ↔ (answer_token verify s t ≡ next p)
answer_token_iff verify s none p = (λ e. cc, λ e. cc)
answer_token_iff verify s (some []) p = (λ e. cc, λ e. cc)
answer_token_iff verify s (some (c ∷ t)) p = answer_verified_iff s (verify (c ∷ t)) p

same_token :
    (h : Handshake) (t : Option Text)
    → h.auth_token ≡ none
    → or_handshake h t ≡ or_header t h.authorization
same_token h none e = simp e
same_token h (some t) e = simp e

-- A socket whose handshake has no token of its own gets in exactly when a request with the same cookie
-- and the same header does, and as the same user.
pub socket_auth_middleware_iff :
    (uri : Text → Option Text) (verify : ℕ → Text → Option JwtPayload) (now : ℕ) (s : State)
    (h : Handshake) (p : JwtPayload)
    → h.auth_token ≡ none
    → (socket_auth_middleware uri verify now s h ≡ joined p)
      ↔ (auth_middleware uri verify now s h.cookie h.authorization ≡ next p)
socket_auth_middleware_iff uri verify now s h p e =
    unfold socket_auth_middleware auth_middleware extract_socket_token extract_request_token in
    rw (same_token h (extract_session_token_from_cookie uri h.cookie) e) (
      answer_token_iff (verify now) s
        (or_header (extract_session_token_from_cookie uri h.cookie) h.authorization) p)
