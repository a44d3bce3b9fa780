-- ===== src/Access/Laws.antt =====
-- The way of a request from the first sign-in to the account.
use wfmcontrol_m.Prelude.{
  ℕ, ◌≡◌, refl, ap, sym, ◌∙◌, Bool, true, false, ◌&&◌, Option, none, some, get_or, List, [], ◌∷◌,
  ◌++◌, ◌==◌, arith, inl, inr, Option-cases, Bool-cases,
}
use wfmcontrol_m.Text.{Text}
use wfmcontrol_m.Text.Laws.{text_eq_refl}
use wfmcontrol_m.Access.{
  pending, approved, AccessRequest, User, Accounts, active, AccessRequestOptions, Call, find_user,
  is_allowed_sso_domain, resolve_access_request_status, update_request, has_profiles,
}
use wfmcontrol_m.Access.Review.{
  ReviewError, request_not_found, already, Result, ok, error, find_id, approve_access_request,
  approve_found, write_approval, username_for, new_user, known_profile, approve_row, display_for,
  ReviewOptions, reject_access_request,
}

find_user-append :
    (email : Text) (us : List User) (u : User)
    → find_user email us ≡ none
    → u.email ≡ email
    → find_user email (us ++ u ∷ []) ≡ some u
unfolding find_user
find_user-append email [] u h e = simp (e, text_eq_refl email)
find_user-append email (x ∷ us) u h e = ground (arith, find_user-append email us u)

pub record CanApprove (request profile : ℕ) (r : AccessRequest) (s : Accounts) : Type 0 where
  pub found : find_id request s.requests ≡ some r
  pub waiting : r.status ≡ pending
  pub profile_known : known_profile profile s.profile_ids ≡ true
  pub no_account : find_user r.email s.users ≡ none

eqb→eq : (a b : ℕ) → (a == b) ≡ true → a ≡ b
eqb→eq a b h = ground arith

find_id-id :
    (i : ℕ) (rs : List AccessRequest) (r : AccessRequest) → find_id i rs ≡ some r → r.id ≡ i
unfolding find_id
find_id-id i [] r h = cc
find_id-id i (x ∷ rs) r h = elim (Bool-cases (x.id == i)) [
  | inl e ↦
      let same : some x ≡ some r = simp e at h in
      ap (λ o. (get_or o x).id) (sym same) ∙ eqb→eq x.id i e
  | inr e ↦ find_id-id i rs r (simp e at h)
]

find_id-update_request :
    (f : AccessRequest → AccessRequest) (rs : List AccessRequest) (r : AccessRequest)
    → ((x : AccessRequest) → (f x).id ≡ x.id)
    → find_id r.id rs ≡ some r
    → find_id r.id (update_request r.id f rs) ≡ some (f r)
unfolding find_id
find_id-update_request f [] r keeps h = cc
find_id-update_request f (x ∷ rs) r keeps h = elim (Bool-cases (x.id == r.id)) [
  | inl e ↦
      let same : some x ≡ some r = simp e at h in
      simp (e, keeps x) (ap (λ o. some (f (get_or o x))) same)
  | inr e ↦ simp e (find_id-update_request f rs r keeps (simp e at h))
]

-- A pending request for an address without an account can be approved. From then on the account of that
-- address has the username that the approval answered with and the profile, and no other; the request is
-- APPROVED and names the account; and whoever signs in with the address gets in, which changes nothing
-- more. The address is of the allowed domain and the profile exists.
pub approve-resolve :
    (lower : Text → Text) (allowed : Text) (now fresh request profile : ℕ) (reviewer : Text)
    (o : ReviewOptions) (r : AccessRequest) (s : Accounts) (c : Call) (asked : AccessRequestOptions)
    → CanApprove request profile r s
    → is_allowed_sso_domain lower allowed r.email ≡ true
    → (username : Text) × (after : Accounts) × (approve_access_request lower now fresh request
          profile reviewer o s
        ≡ ok (username, after))
      × ((resolve_access_request_status lower allowed c r.email asked after).0.status ≡ active)
      × ((resolve_access_request_status lower allowed c r.email asked after).0.can_login ≡ true)
      × ((resolve_access_request_status lower allowed c r.email asked after).1 ≡ after)
      × (u : User) × (find_user r.email after.users ≡ some u)
      × (u.username ≡ username)
      × (u.profiles ≡ profile ∷ [])
      × (row : AccessRequest) × (find_id request after.requests ≡ some row)
      × (row.status ≡ approved)
      × (row.user_id ≡ some u.id)
approve-resolve lower allowed now fresh request profile reviewer o r s c asked can domain =
    let username = username_for lower o r s.users in
    let display = display_for o r username in
    let after = write_approval now fresh reviewer username display profile r s in
    let found : find_user r.email after.users
        ≡ some (new_user fresh username r.email display profile) =
      unfold write_approval in
      find_user-append r.email s.users (new_user fresh username r.email display profile)
        can.no_account refl in
    let row = approve_row now fresh reviewer display in
    let here : find_id r.id s.requests ≡ some r =
      ap (λ i. find_id i s.requests) (find_id-id request s.requests r can.found) ∙ can.found in
    let there : find_id request after.requests ≡ some (row r) =
      unfold write_approval in
      ap (λ i. find_id i (update_request r.id row s.requests))
        (sym (find_id-id request s.requests r can.found))
      ∙ find_id-update_request row s.requests r (λ x. refl) here in
    (
      username,
      after,
      unfold approve_access_request in
          simp (can.found, can.waiting, can.profile_known, can.no_account),
      unfold resolve_access_request_status in simp (domain, found),
      unfold resolve_access_request_status in simp (domain, found),
      unfold resolve_access_request_status in simp (domain, found),
      new_user fresh username r.email display profile,
      found,
      refl,
      refl,
      row r,
      there,
      refl,
      refl,
    )

not_true : false ≡ true → ⊥
not_true h = cc

both_left : (a b : Bool) → (a && b) ≡ true → a ≡ true
both_left a b h = ground arith

answer_denied :
    (lower : Text → Text) (allowed : Text) (c : Call) (email : Text) (o : AccessRequestOptions)
    (s : Accounts)
    → is_allowed_sso_domain lower allowed email ≡ false
    → (resolve_access_request_status lower allowed c email o s).0.can_login ≡ false
answer_denied lower allowed c email o s e = unfold resolve_access_request_status in simp e

answer_unknown :
    (lower : Text → Text) (allowed : Text) (c : Call) (email : Text) (o : AccessRequestOptions)
    (s : Accounts)
    → is_allowed_sso_domain lower allowed email ≡ true
    → find_user email s.users ≡ none
    → (resolve_access_request_status lower allowed c email o s).0.can_login ≡ false
answer_unknown lower allowed c email o s e f = unfold resolve_access_request_status in simp (e, f)

answer_known :
    (lower : Text → Text) (allowed : Text) (c : Call) (email : Text) (o : AccessRequestOptions)
    (s : Accounts) (u : User)
    → is_allowed_sso_domain lower allowed email ≡ true
    → find_user email s.users ≡ some u
    → (resolve_access_request_status lower allowed c email o s).0.can_login ≡ true
    → (u.is_active && has_profiles u) ≡ true
unfolding resolve_access_request_status
answer_known lower allowed c email o s u e f h = simp (e, f) at h

-- Only an active account of an allowed address gets in, and letting it in changes nothing.
pub resolve-can_login :
    (lower : Text → Text) (allowed : Text) (c : Call) (email : Text) (o : AccessRequestOptions)
    (s : Accounts)
    → (resolve_access_request_status lower allowed c email o s).0.can_login ≡ true
    → (u : User) × (find_user email s.users ≡ some u)
      × (u.is_active ≡ true)
      × (is_allowed_sso_domain lower allowed email ≡ true)
      × ((resolve_access_request_status lower allowed c email o s).1 ≡ s)
resolve-can_login lower allowed c email o s h =
    elim (Bool-cases (is_allowed_sso_domain lower allowed email)) [
      | inr e ↦ elim (not_true (sym (answer_denied lower allowed c email o s e) ∙ h)) [ ]
      | inl e ↦ elim (Option-cases (find_user email s.users)) [
        | inl f ↦ elim (not_true (sym (answer_unknown lower allowed c email o s e f) ∙ h)) [ ]
        | inr (u, f) ↦ (
          u,
          f,
          both_left u.is_active (has_profiles u) (answer_known lower allowed c email o s u e f h),
          e,
          unfold resolve_access_request_status in simp (e, f),
        )
      ]
    ]

state_of : Result (Text × Accounts) → Accounts → Accounts
state_of (ok got) s = got.1
state_of (error e) s = s

error_ok : {e : ReviewError} {x : Text × Accounts} → error e ≡ ok x → ⊥
error_ok h = cc

-- An approval that succeeds wrote the request that it names.
approved_state :
    (lower : Text → Text) (now fresh profile : ℕ) (reviewer : Text) (o : ReviewOptions)
    (r : AccessRequest) (s : Accounts) (got : Text × Accounts)
    → approve_found lower now fresh profile reviewer o (some r) s ≡ ok got
    → got.1
      ≡ write_approval now fresh reviewer
          (username_for lower o r s.users)
          (display_for o r (username_for lower o r s.users))
          profile
          r
          s
approved_state lower now fresh profile reviewer o r s got h =
    ground (arith, ap (λ x. state_of x s) h)

approve_missing :
    (lower : Text → Text) (now fresh request profile : ℕ) (reviewer : Text) (o : ReviewOptions)
    (s : Accounts)
    → find_id request s.requests ≡ none
    → approve_access_request lower now fresh request profile reviewer o s ≡ error request_not_found
approve_missing lower now fresh request profile reviewer o s e =
    unfold approve_access_request in simp e

decided :
    (lower : Text → Text) (now fresh request profile : ℕ) (reviewer : Text) (o : ReviewOptions)
    (remark : Option Text) (s : Accounts) (r : AccessRequest)
    → find_id request s.requests ≡ some r
    → r.status ≡ approved
    → (approve_access_request lower now fresh request profile reviewer o s
        ≡ error (already approved))
      × (reject_access_request now request reviewer remark s ≡ error (already approved))
decided lower now fresh request profile reviewer o remark s r e a =
    unfold approve_access_request reject_access_request in (simp (e, a), simp (e, a))

-- A request is decided once: after an approval, approving or rejecting it again is an error, and says
-- that it is approved.
pub approve-decided :
    (lower : Text → Text) (now fresh request profile : ℕ) (reviewer : Text) (o : ReviewOptions)
    (s after : Accounts) (username : Text) (now' fresh' profile' : ℕ) (reviewer' : Text)
    (o' : ReviewOptions) (remark : Option Text)
    → approve_access_request lower now fresh request profile reviewer o s ≡ ok (username, after)
    → (approve_access_request lower now' fresh' request profile' reviewer' o' after
        ≡ error (already approved))
      × (reject_access_request now' request reviewer' remark after ≡ error (already approved))
unfolding write_approval
approve-decided lower now fresh request profile reviewer o s after username now' fresh' profile'
      reviewer' o' remark h =
    elim (Option-cases (find_id request s.requests)) [
      | inl e ↦
          elim (error_ok
            (sym (approve_missing lower now fresh request profile reviewer o s e) ∙ h)) [ ]
      | inr (r, e) ↦
          let name = username_for lower o r s.users in
          let row = approve_row now fresh reviewer (display_for o r name) in
          let state =
            approved_state lower now fresh profile reviewer o r s (username, after)
              (unfold approve_access_request in simp e at h) in
          let here : find_id r.id s.requests ≡ some r =
            ap (λ i. find_id i s.requests) (find_id-id request s.requests r e) ∙ e in
          let there : find_id request after.requests ≡ some (row r) =
            ap (λ (a : Accounts). find_id request a.requests) state
            ∙ ap (λ i. find_id i (update_request r.id row s.requests))
                (sym (find_id-id request s.requests r e))
            ∙ find_id-update_request row s.requests r (λ x. refl) here in
          decided lower now' fresh' request profile' reviewer' o' remark after (row r) there refl
    ]
