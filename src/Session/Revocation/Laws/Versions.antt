-- ===== src/Session/Revocation/Laws/Versions.antt =====
-- What a new token version does to the sessions of a user and of the master.
use wfmcontrol_m.Prelude.{
  ℕ, ◌≡◌, refl, ap, ◌∙◌, Bool, true, false, Option, none, some, get_or, List, [], ◌∷◌, map, arith,
  ltb, if◌then◌else◌, inl, inr, Option-cases, Bool-cases,
}
use wfmcontrol_m.Prelude.Int.{ℤ, pos, negsuc}
use wfmcontrol_m.Text.{Text, text_eq, is_empty}
use wfmcontrol_m.Text.Laws.{text_eq_refl, text_eq→eq}
use wfmcontrol_m.Text.Decimal.{show_int, parse_int, parse_int-show_int}
use wfmcontrol_m.Session.{JwtPayload, acts_as_master}
use wfmcontrol_m.Session.Revocation.{
  State, User, present, increment, version_of, has_user, revoke_decoded, revoke_jti, revoke_token,
  revoke_all_user_tokens, revoke_master_tokens, purge_expired, is_session_active, expected_version,
  get_master_token_version, int_eq, active_with,
}
use wfmcontrol_m.Session.Revocation.Laws.{
  Event, logout, revoke_user, revoke_master, sweep, run_event, run_events,
}

abbrev below : ℤ → ℤ → Bool
below (pos a) (pos b) = ltb a b
below (pos a) (negsuc b) = false
below (negsuc a) (pos b) = true
below (negsuc a) (negsuc b) = ltb b a

below-increment : (n : ℤ) → below n (increment n) ≡ true
below-increment (pos a) = ground arith
below-increment (negsuc a) = ground arith

below_later : (n m : ℤ) → below n m ≡ true → below n (increment m) ≡ true
below_later (pos a) (pos b) h = ground arith
below_later (pos a) (negsuc b) h = ground arith
below_later (negsuc a) (pos b) h = ground arith
below_later (negsuc a) (negsuc b) h = ground arith

below_other : (n m : ℤ) → below n m ≡ true → int_eq n m ≡ false
below_other (pos a) (pos b) h = ground arith
below_other (pos a) (negsuc b) h = ground arith
below_other (negsuc a) (pos b) h = ground arith
below_other (negsuc a) (negsuc b) h = ground arith

int_eq→eq : (n m : ℤ) → int_eq n m ≡ true → n ≡ m
int_eq→eq (pos a) (pos b) h = ground arith
int_eq→eq (pos a) (negsuc b) h = cc
int_eq→eq (negsuc a) (pos b) h = cc
int_eq→eq (negsuc a) (negsuc b) h = ground arith

bump : Text → List User → List User
bump u xs =
    map (λ x. if text_eq x.id u then record x { token_version = increment x.token_version } else x)
      xs

version_of-bump :
    (u : Text) (xs : List User)
    → has_user u xs ≡ true
    → version_of u (bump u xs) ≡ increment (version_of u xs)
unfolding version_of bump
version_of-bump u [] h = cc
version_of-bump u (x ∷ xs) h = ground (arith, version_of-bump u xs)

version_of-bump_other :
    (u v : Text) (xs : List User) → text_eq v u ≡ false → version_of v (bump u xs) ≡ version_of v xs
unfolding version_of bump
version_of-bump_other u v [] h = refl
version_of-bump_other u v (x ∷ xs) h =
    ground
      (arith, version_of-bump_other u v xs, text_eq→eq x.id u, text_eq→eq x.id v, text_eq_refl u)

below-bump :
    (n : ℤ) (u v : Text) (xs : List User)
    → below n (version_of v xs) ≡ true
    → below n (version_of v (bump u xs)) ≡ true
unfolding version_of bump
below-bump n u v [] h = h
below-bump n u v (x ∷ xs) h = ground (arith, below-bump n u v xs, below_later n x.token_version)

users-revoke_decoded :
    (reason user : Text) (exp : Option ℕ) (jti : Option Text) (s : State)
    → (revoke_decoded reason user exp jti s).users ≡ s.users
users-revoke_decoded reason user none jti s = refl
users-revoke_decoded reason user (some exp) none s = refl
users-revoke_decoded reason user (some exp) (some jti) s = unfold revoke_jti in ground arith

users-revoke_token :
    (p : Option JwtPayload) (reason : Text) (s : State) → (revoke_token p reason s).users ≡ s.users
unfolding revoke_token
users-revoke_token none reason s = refl
users-revoke_token (some p) reason s = users-revoke_decoded reason p.user_id p.exp (present p.jti) s

users-revoke_all :
    (u : Text) (s after : State)
    → revoke_all_user_tokens u s ≡ some after
    → (after.users ≡ bump u s.users)
      × (after.revoked ≡ s.revoked)
      × (after.master_version ≡ s.master_version)
unfolding revoke_all_user_tokens bump
users-revoke_all u s after e = ground (arith, ap (λ o. get_or o s) e)

below-run_event :
    (n : ℤ) (v : Text) (e : Event) (s : State)
    → below n (version_of v s.users) ≡ true
    → below n (version_of v (run_event e s).users) ≡ true
unfolding run_event
below-run_event n v (logout p reason) s h = rw (users-revoke_token p reason s) h
below-run_event n v (revoke_user u) s h = elim (Option-cases (revoke_all_user_tokens u s)) [
  | inl e ↦ simp e h
  | inr (after, e) ↦ simp (e, (users-revoke_all u s after e).0) (below-bump n u v s.users h)
]
below-run_event n v revoke_master s h =
    unfold revoke_master_tokens in ground (arith, Option-cases s.master_version)
below-run_event n v (sweep now) s h = unfold purge_expired in h

below-run_events :
    (n : ℤ) (v : Text) (es : List Event) (s : State)
    → below n (version_of v s.users) ≡ true
    → below n (version_of v (run_events es s).users) ≡ true
unfolding run_events
below-run_events n v [] s h = h
below-run_events n v (e ∷ es) s h =
    below-run_events n v es (run_event e s) (below-run_event n v e s h)

active_with-version :
    (s : State) (p : JwtPayload) (jti : Option Text) (tv : Option ℤ)
    → active_with s p jti tv ≡ true
    → tv ≡ some (expected_version s p)
active_with-version s p none tv h = cc
active_with-version s p (some jti) none h = cc
active_with-version s p (some jti) (some tv) h =
    ap (λ n. some n) (int_eq→eq tv (expected_version s p) (ground arith))

active_with-frame :
    (s t : State) (p : JwtPayload) (jti : Option Text) (tv : Option ℤ)
    → t.revoked ≡ s.revoked
    → expected_version t p ≡ expected_version s p
    → active_with t p jti tv ≡ active_with s p jti tv
active_with-frame s t p none tv r e = refl
active_with-frame s t p (some jti) none r e = refl
active_with-frame s t p (some jti) (some tv) r e = simp (r, e)

empty_unreadable : (t : Text) {n : ℤ} → is_empty t ≡ true → parse_int t ≡ some n → ⊥
unfolding parse_int
empty_unreadable [] e h = cc
empty_unreadable (c ∷ t) e h = cc

show_int-not_empty : (n : ℤ) → is_empty (show_int n) ≡ false
show_int-not_empty n = elim (Bool-cases (is_empty (show_int n))) [
  | inl e ↦ elim (empty_unreadable (show_int n) e (parse_int-show_int n)) [ ]
  | inr e ↦ e
]

master_version-after :
    (s after : State)
    → revoke_master_tokens s ≡ some after
    → get_master_token_version after ≡ increment (get_master_token_version s)
unfolding revoke_master_tokens
master_version-after s after e =
    let v = increment (get_master_token_version s) in
    let m : after.master_version ≡ some (show_int v) =
      ground (arith, Option-cases s.master_version, ap (λ o. get_or o s) e) in
    unfold get_master_token_version in simp (m, show_int-not_empty v, parse_int-show_int v)

inactive_version :
    (s : State) (p : JwtPayload) (tv : ℤ)
    → p.tv ≡ some tv
    → int_eq tv (expected_version s p) ≡ false
    → is_session_active s p ≡ false
unfolding is_session_active
inactive_version s p tv e h = elim (Option-cases (present p.jti)) [
  | inl f ↦ simp (e, f)
  | inr (jti, f) ↦ simp (e, f, h) (ground arith)
]

-- Revoking the tokens of a user ends every session of the user that was active, for good: no later
-- sequence of calls of the service makes it active again. The session does not act as the master, and
-- the user is in the table.
pub revoke_all_user_tokens-ends_sessions :
    (s after : State) (p : JwtPayload) (es : List Event)
    → acts_as_master p ≡ false
    → has_user p.user_id s.users ≡ true
    → is_session_active s p ≡ true
    → revoke_all_user_tokens p.user_id s ≡ some after
    → is_session_active (run_events es after) p ≡ false
revoke_all_user_tokens-ends_sessions s after p es user known active e =
    let u = p.user_id in
    let was : p.tv ≡ some (version_of u s.users) =
      unfold is_session_active expected_version in
      active_with-version s p (present p.jti) p.tv active ∙ simp user in
    let bumped : below (version_of u s.users) (version_of u after.users) ≡ true =
      simp ((users-revoke_all u s after e).0, version_of-bump u s.users known)
        (below-increment (version_of u s.users)) in
    let later = below-run_events (version_of u s.users) u es after bumped in
    inactive_version (run_events es after) p (version_of u s.users) was (
      unfold expected_version in
      simp user
        (below_other (version_of u s.users) (version_of u (run_events es after).users) later))

-- Revoking the tokens of a user leaves every session of another user as it was, the master's too.
pub revoke_all_user_tokens-other_sessions :
    (u : Text) (s after : State) (p : JwtPayload)
    → text_eq p.user_id u ≡ false
    → revoke_all_user_tokens u s ≡ some after
    → is_session_active after p ≡ is_session_active s p
revoke_all_user_tokens-other_sessions u s after p other e =
    let (users, rows, master) = users-revoke_all u s after e in
    let same : expected_version after p ≡ expected_version s p =
      unfold expected_version get_master_token_version in
      simp (users, master, version_of-bump_other u p.user_id s.users other) in
    unfold is_session_active in active_with-frame s after p (present p.jti) p.tv rows same

-- Raising the version of the master ends every active session that acts as the master.
pub revoke_master_tokens-ends_sessions :
    (s after : State) (p : JwtPayload)
    → acts_as_master p ≡ true
    → is_session_active s p ≡ true
    → revoke_master_tokens s ≡ some after
    → is_session_active after p ≡ false
revoke_master_tokens-ends_sessions s after p master active e =
    let v = get_master_token_version s in
    let was : p.tv ≡ some v =
      unfold is_session_active expected_version in
      active_with-version s p (present p.jti) p.tv active ∙ simp master in
    inactive_version after p v was (
      unfold expected_version in
      simp (master, master_version-after s after e)
        (below_other v (increment v) (below-increment v)))
