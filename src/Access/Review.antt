-- ===== src/Access/Review.antt =====
-- approveAccessRequest and rejectAccessRequest.
use wfmcontrol_m.Prelude.{
  ℕ, Bool, true, false, ◌&&◌, ◌||◌, Option, none, some, List, [], ◌∷◌, ◌++◌, map, any, filter,
  if◌then◌else◌, ◌==◌, leb,
}
use wfmcontrol_m.Text.{Text, text, is_empty, split, is_digit}
use wfmcontrol_m.Access.{
  RequestStatus, pending, approved, rejected, AccessRequest, User, Accounts, find_user, trimmed,
  or_else, update_request,
}
use wfmcontrol_m.Access.Username.{unique_username}

pub data ReviewError : Type 0 where
  request_not_found : ReviewError
  already : RequestStatus → ReviewError
  profile_not_found : ReviewError
  user_exists : ReviewError

pub data Result (A : Type 0) : Type 0 where
  ok : A → Result A
  error : ReviewError → Result A

unfoldable pub find_id : ℕ → List AccessRequest → Option AccessRequest
find_id i [] = none
find_id i (r ∷ rs) = if r.id == i then some r else find_id i rs

abbrev is_name_char : ℕ → Bool
is_name_char c = leb b'a' c && leb c b'z' || is_digit c || c == b'.' || c == b'_' || c == b'-'

abbrev or_user : Text → Text
or_user t = if is_empty t then text "user" else t

abbrev first : List Text → Text
first [] = []
first (a ∷ rest) = a

unfoldable pub email_local_part : (Text → Text) → Text → Text
email_local_part lower email = or_user (filter is_name_char (lower (first (split b'@' email))))

pub record ReviewOptions : Type 0 where
  pub display_name : Option Text
  pub username : Option Text

abbrev or_text : Option Text → Text → Text
or_text none default = default
or_text (some t) default = t

abbrev unless_empty : Option Text → Option Text
unless_empty none = none
unless_empty (some t) = if is_empty t then none else some t

unfoldable pub username_for : (Text → Text) → ReviewOptions → AccessRequest → List User → Text
username_for lower o r us = unique_username (map (λ u. u.username) us) (
    or_text (or_else (trimmed o.username) (trimmed r.requested_username))
      (email_local_part lower r.email))

abbrev pub display_for : ReviewOptions → AccessRequest → Text → Text
display_for o r username =
    or_text (or_else (trimmed o.display_name) (unless_empty r.display_name)) username

abbrev pub approve_row : ℕ → ℕ → Text → Text → AccessRequest → AccessRequest
approve_row now user reviewer display r = record r {
  status = approved;
  reviewed_at = some now;
  reviewed_by = some reviewer;
  display_name = some display;
  user_id = some user;
}

abbrev pub new_user : ℕ → Text → Text → Text → ℕ → User
new_user i username email display profile = record {
  id = i;
  username = username;
  email = email;
  display_name = display;
  is_active = true;
  profiles = profile ∷ [];
}

-- The transaction: the user with its profile, and the request.
unfoldable pub write_approval : ℕ → ℕ → Text → Text → Text → ℕ → AccessRequest → Accounts → Accounts
write_approval now fresh reviewer username display profile r s = record s {
  users = s.users ++ new_user fresh username r.email display profile ∷ [];
  requests = update_request r.id (approve_row now fresh reviewer display) s.requests;
}

abbrev pub is_pending : RequestStatus → Bool
is_pending pending = true
is_pending _ = false

abbrev pub known_profile : ℕ → List ℕ → Bool
known_profile p ps = any (λ q. q == p) ps

abbrev pub no_user : Option User → Bool
no_user none = true
no_user (some u) = false

abbrev pub approve_found :
    (Text → Text)
    → ℕ
    → ℕ
    → ℕ
    → Text
    → ReviewOptions
    → Option AccessRequest
    → Accounts
    → Result (Text × Accounts)
approve_found lower now fresh profile reviewer o none s = error request_not_found
approve_found lower now fresh profile reviewer o (some r) s =
    if is_pending r.status
    then if known_profile profile s.profile_ids
      then if no_user (find_user r.email s.users)
        then ok (
          username_for lower o r s.users,
          write_approval now fresh reviewer (username_for lower o r s.users)
              (display_for o r (username_for lower o r s.users)) profile r s,
        )
        else error user_exists
      else error profile_not_found
    else error (already r.status)

unfoldable pub approve_access_request :
    (Text → Text) → ℕ → ℕ → ℕ → ℕ → Text → ReviewOptions → Accounts → Result (Text × Accounts)
approve_access_request lower now fresh request profile reviewer o s =
    approve_found lower now fresh profile reviewer o (find_id request s.requests) s

abbrev reject_row : ℕ → Text → Option Text → AccessRequest → AccessRequest
reject_row now reviewer remark r = record r {
  status = rejected;
  reviewed_at = some now;
  reviewed_by = some reviewer;
  review_note = trimmed remark;
}

abbrev pub reject_found : ℕ → Text → Option Text → Option AccessRequest → Accounts → Result Accounts
reject_found now reviewer remark none s = error request_not_found
reject_found now reviewer remark (some r) s =
    if is_pending r.status
    then ok
        (record s { requests = update_request r.id (reject_row now reviewer remark) s.requests })
    else error (already r.status)

unfoldable pub reject_access_request : ℕ → ℕ → Text → Option Text → Accounts → Result Accounts
reject_access_request now request reviewer remark s =
    reject_found now reviewer remark (find_id request s.requests) s
