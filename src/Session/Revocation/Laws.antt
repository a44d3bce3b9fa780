-- ===== src/Session/Revocation/Laws.antt =====
-- What ends a session: logout, a new token version of the user, a new version of the master.
pub mod Versions
use wfmcontrol_m.Prelude.{
  ℕ, ◌+◌, ◌-◌, ◌*◌, ◌≤◌, ◌≡◌, refl, ap, sym, ◌∙◌, Bool, true, false, ◌&&◌, ◌||◌, not, Option, none,
  some, get_or, List, [], ◌∷◌, map, filter, any, arith, ltb, leb, ◌==◌, if◌then◌else◌, ◌≢◌,
  Option-cases, inl, inr,
}
use wfmcontrol_m.Prelude.Int.{ℤ, pos, negsuc}
use wfmcontrol_m.Text.{Text, text_eq, is_empty}
use wfmcontrol_m.Text.Laws.{text_eq_refl, text_eq→eq}
use wfmcontrol_m.Session.{JwtPayload}
use wfmcontrol_m.Session.Revocation.{
  State, RevokedToken, User, present, is_revoked, revoke_jti, revoke_decoded, or_unknown,
  revoke_token, revoke_all_user_tokens, revoke_master_tokens, purge_expired, is_session_active,
  create_session, expected_version, int_eq, active_with,
}

-- A later call of the service; the sweep has the time at which it runs.
pub data Event : Type 0 where
  logout : Option JwtPayload → Text → Event
  revoke_user : Text → Event
  revoke_master : Event
  sweep : ℕ → Event

-- A call that throws leaves the state as it was.
unfoldable pub run_event : Event → State → State
run_event (logout p reason) s = revoke_token p reason s
run_event (revoke_user u) s = get_or (revoke_all_user_tokens u s) s
run_event revoke_master s = get_or (revoke_master_tokens s) s
run_event (sweep now) s = (purge_expired now s).0

unfoldable pub run_events : List Event → State → State
run_events [] s = s
run_events (e ∷ es) s = run_events es (run_event e s)

-- No sweep of the list runs later than `t`.
unfoldable pub swept_by : ℕ → List Event → Bool
swept_by t [] = true
swept_by t (sweep now ∷ es) = leb now t && swept_by t es
swept_by t (_ ∷ es) = swept_by t es

abbrev denies : Text → ℕ → RevokedToken → Bool
denies jti t r = text_eq r.jti jti && leb t r.expires_at

abbrev denied : Text → ℕ → State → Bool
denied jti t s = any (denies jti t) s.revoked

denied-is_revoked :
    (jti : Text) (t : ℕ) (rs : List RevokedToken)
    → any (denies jti t) rs ≡ true
    → is_revoked jti rs ≡ true
denied-is_revoked jti t [] h = h
denied-is_revoked jti t (r ∷ rs) h = ground (arith, denied-is_revoked jti t rs)

denied-reason :
    (jti : Text) (t : ℕ) (other reason : Text) (rs : List RevokedToken)
    → any
        (denies jti t)
        (map (λ r. if text_eq r.jti other then record r { reason = reason } else r) rs)
      ≡ any (denies jti t) rs
denied-reason jti t other reason [] = refl
denied-reason jti t other reason (r ∷ rs) = ground (arith, denied-reason jti t other reason rs)

denied-revoke_jti :
    (jti : Text) (t : ℕ) (other user : Text) (exp : ℕ) (reason : Text) (s : State)
    → denied jti t s ≡ true
    → denied jti t (revoke_jti other user exp reason s) ≡ true
unfolding revoke_jti
denied-revoke_jti jti t other user exp reason s h =
    ground (arith, denied-reason jti t other reason s.revoked)

denied-revoke_decoded :
    (jti : Text) (t : ℕ) (reason user : Text) (exp : Option ℕ) (other : Option Text) (s : State)
    → denied jti t s ≡ true
    → denied jti t (revoke_decoded reason user exp other s) ≡ true
denied-revoke_decoded jti t reason user none other s h = h
denied-revoke_decoded jti t reason user (some exp) none s h = h
denied-revoke_decoded jti t reason user (some exp) (some other) s h =
    ground (arith, denied-revoke_jti jti t other (or_unknown user) (exp * 1000) reason s h)

denied-revoke_token :
    (jti : Text) (t : ℕ) (p : Option JwtPayload) (reason : Text) (s : State)
    → denied jti t s ≡ true
    → denied jti t (revoke_token p reason s) ≡ true
unfolding revoke_token
denied-revoke_token jti t none reason s h = h
denied-revoke_token jti t (some p) reason s h =
    denied-revoke_decoded jti t reason p.user_id p.exp (present p.jti) s h

denied-sweep :
    (jti : Text) (t now : ℕ) (rs : List RevokedToken)
    → now ≤ t
    → any (denies jti t) rs ≡ true
    → any (denies jti t) (filter (λ r. not (ltb r.expires_at now)) rs) ≡ true
denied-sweep jti t now [] le h = h
denied-sweep jti t now (r ∷ rs) le h = ground (arith, denied-sweep jti t now rs le)

denied-run_events :
    (jti : Text) (t : ℕ) (es : List Event) (s : State)
    → swept_by t es ≡ true
    → denied jti t s ≡ true
    → denied jti t (run_events es s) ≡ true
unfolding run_events swept_by run_event
denied-run_events jti t [] s c h = h
denied-run_events jti t (logout p reason ∷ es) s c h =
    denied-run_events jti t es (revoke_token p reason s) c (denied-revoke_token jti t p reason s h)
denied-run_events jti t (revoke_user u ∷ es) s c h =
    denied-run_events jti t es (get_or (revoke_all_user_tokens u s) s) c
      (unfold revoke_all_user_tokens in ground arith)
denied-run_events jti t (revoke_master ∷ es) s c h =
    denied-run_events jti t es (get_or (revoke_master_tokens s) s) c
      (unfold revoke_master_tokens in ground (arith, Option-cases s.master_version))
denied-run_events jti t (sweep now ∷ es) s c h =
    denied-run_events jti t es (purge_expired now s).0 (ground arith)
      (unfold purge_expired in denied-sweep jti t now s.revoked (ground arith) h)

int_eq_refl : (n : ℤ) → int_eq n n ≡ true
int_eq_refl (pos a) = ground arith
int_eq_refl (negsuc a) = ground arith

denied_inactive :
    (s : State) (p : JwtPayload) (jti : Text) (t : ℕ)
    → present p.jti ≡ some jti
    → denied jti t s ≡ true
    → is_session_active s p ≡ false
unfolding is_session_active
denied_inactive s p jti t e h = elim (Option-cases p.tv) [
  | inl f ↦ simp (e, f)
  | inr (v, f) ↦ simp (e, f, denied-is_revoked jti t s.revoked h)
]

revoked_denied :
    (p : JwtPayload) (jti : Text) (exp : ℕ) (reason : Text) (s : State)
    → present p.jti ≡ some jti
    → p.exp ≡ some exp
    → (exp ≢ 0)
    → is_revoked jti s.revoked ≡ false
    → denied jti (exp * 1000) (revoke_token (some p) reason s) ≡ true
unfolding revoke_token revoke_jti
revoked_denied p jti exp reason s e f nonzero h =
    let set : (exp == 0) ≡ false = ground arith in
    let reached : leb (exp * 1000) (exp * 1000) ≡ true = ground arith in
    simp (e, f, set, h, text_eq_refl jti, reached)

-- A logged-out session stays ended: whatever calls follow, as long as no sweep runs after the expiry of
-- the token, the session is not active. The token was not revoked before and carries an expiry.
pub revoke_token-ends_session :
    (s : State) (p : JwtPayload) (jti : Text) (exp : ℕ) (reason : Text) (es : List Event)
    → present p.jti ≡ some jti
    → p.exp ≡ some exp
    → exp ≢ 0
    → is_revoked jti s.revoked ≡ false
    → swept_by (exp * 1000) es ≡ true
    → is_session_active (run_events es (revoke_token (some p) reason s)) p ≡ false
revoke_token-ends_session s p jti exp reason es e f nonzero h c =
    denied_inactive (run_events es (revoke_token (some p) reason s)) p jti (exp * 1000) e (
      denied-run_events jti (exp * 1000) es (revoke_token (some p) reason s) c
        (revoked_denied p jti exp reason s e f nonzero h))

-- A session that was just created is active, if its random id is not empty and not on the denylist.
pub create_session-is_session_active :
    (s : State) (jti : Text) (exp : ℕ) (p : JwtPayload)
    → is_empty jti ≡ false
    → is_revoked jti s.revoked ≡ false
    → is_session_active s (create_session s jti exp p) ≡ true
unfolding create_session is_session_active expected_version
create_session-is_session_active s jti exp p e h = simp (e, h, int_eq_refl (expected_version s p))
