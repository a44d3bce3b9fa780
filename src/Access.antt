-- ===== src/Access.antt =====
-- backend/src/services/access-request-service.ts and the domain test of utils/sso-email.ts: who may sign
-- in, and the queue of requests that an administrator approves or rejects. `lower` is
-- `toLowerCase`; ids, clocks and the hash of the random password come from outside. A message is
-- a constructor in place of its text.
pub mod Username
pub mod Review
pub mod Laws
use wfmcontrol_m.Prelude.{
  ℕ, Bool, true, false, ◌&&◌, ◌||◌, not, Option, none, some, List, [], ◌∷◌, ◌++◌, map, any,
  if◌then◌else◌, ◌==◌,
}
use wfmcontrol_m.Text.{Text, text, text_eq, is_empty, trim, split}

pub data RequestStatus : Type 0 where
  pending : RequestStatus
  approved : RequestStatus
  rejected : RequestStatus

pub record AccessRequest : Type 0 where
  pub id : ℕ
  pub email : Text
  pub status : RequestStatus
  pub source_ip : Option Text
  pub display_name : Option Text
  pub requested_username : Option Text
  pub requested_at : ℕ
  pub reviewed_at : Option ℕ
  pub reviewed_by : Option Text
  pub review_note : Option Text
  pub user_id : Option ℕ

pub record User : Type 0 where
  pub id : ℕ
  pub username : Text
  pub email : Text
  pub display_name : Text
  pub is_active : Bool
  pub profiles : List ℕ

pub record Accounts : Type 0 where
  pub users : List User
  pub requests : List AccessRequest
  pub profile_ids : List ℕ

pub data AccessStatus : Type 0 where
  requested : RequestStatus → AccessStatus
  active : AccessStatus
  domain_denied : AccessStatus

pub data Message : Type 0 where
  restricted_to : Text → Message
  deactivated : Message
  no_profile : Message
  pending_approval : Message

pub record SsoAccessStatus : Type 0 where
  pub sso_enabled : Bool
  pub email : Text
  pub status : AccessStatus
  pub can_login : Bool
  pub display_name : Option Text
  pub message : Option Message

pub record AccessRequestOptions : Type 0 where
  pub display_name : Option Text
  pub requested_username : Option Text

abbrev pub no_options : AccessRequestOptions
no_options = record { display_name = none; requested_username = none }

abbrev or_default : Text → Text
or_default domain = if is_empty domain then text "zebra.com" else domain

abbrev strip_at : Text → Text
strip_at [] = []
strip_at (c ∷ s) = if c == b'@' then s else c ∷ s

abbrev second : List Text → Option Text
second [] = none
second (a ∷ []) = none
second (a ∷ b ∷ rest) = some b

abbrev domain_is : (Text → Text) → Text → Option Text → Bool
domain_is lower allowed none = false
domain_is lower allowed (some d) = text_eq (lower d) allowed

abbrev domain_allowed : (Text → Text) → Text → Text → Bool
domain_allowed lower allowed email =
    if is_empty allowed then true else domain_is lower allowed (second (split b'@' email))

-- `allowed` is config.sso.allowedDomain
unfoldable pub is_allowed_sso_domain : (Text → Text) → Text → Text → Bool
is_allowed_sso_domain lower allowed email =
    domain_allowed lower (strip_at (lower (trim (or_default allowed)))) email

unfoldable pub find_user : Text → List User → Option User
find_user email [] = none
find_user email (u ∷ us) = if text_eq u.email email then some u else find_user email us

unfoldable pub find_request : Text → List AccessRequest → Option AccessRequest
find_request email [] = none
find_request email (r ∷ rs) = if text_eq r.email email then some r else find_request email rs

-- `t?.trim() || null`
abbrev pub trimmed : Option Text → Option Text
trimmed none = none
trimmed (some t) = if is_empty (trim t) then none else some (trim t)

abbrev pub or_else : Option Text → Option Text → Option Text
or_else none other = other
or_else (some t) other = some t

abbrev pub truthy : Option Text → Bool
truthy none = false
truthy (some t) = not (is_empty t)

abbrev pub update_request :
    ℕ → (AccessRequest → AccessRequest) → List AccessRequest → List AccessRequest
update_request i f rs = map (λ r. if r.id == i then f r else r) rs

-- What a call gets from outside: the time and the id of a new row.
pub record Call : Type 0 where
  pub now : ℕ
  pub fresh : ℕ
  pub source_ip : Option Text

abbrev pub new_request : Call → Text → AccessRequestOptions → AccessRequest
new_request c email o = record {
  id = c.fresh;
  email = email;
  status = pending;
  source_ip = c.source_ip;
  display_name = trimmed o.display_name;
  requested_username = trimmed o.requested_username;
  requested_at = c.now;
  reviewed_at = none;
  reviewed_by = none;
  review_note = none;
  user_id = none;
}

-- An undefined source address leaves the field as it was.
abbrev pub reopened : Call → AccessRequestOptions → AccessRequest → AccessRequest
reopened c o r = record r {
  status = pending;
  reviewed_at = none;
  reviewed_by = none;
  review_note = none;
  requested_at = c.now;
  source_ip = or_else c.source_ip r.source_ip;
  display_name = or_else (trimmed o.display_name) r.display_name;
  requested_username = or_else (trimmed o.requested_username) r.requested_username;
}

abbrev pub renamed : Call → AccessRequestOptions → AccessRequest → AccessRequest
renamed c o r = record r {
  source_ip = or_else c.source_ip r.source_ip;
  display_name = or_else (trimmed o.display_name) r.display_name;
  requested_username = or_else (trimmed o.requested_username) r.requested_username;
}

abbrev pub is_rejected : RequestStatus → Bool
is_rejected rejected = true
is_rejected _ = false

-- The three branches on the request: what it becomes.
unfoldable pub next_request : Call → AccessRequestOptions → AccessRequest → AccessRequest
next_request c o r =
    if is_rejected r.status
    then reopened c o r
    else if truthy o.display_name || truthy o.requested_username
    then renamed c o r
    else r

unfoldable pub upsert_request :
    Call → Text → AccessRequestOptions → Option AccessRequest → Accounts → AccessRequest × Accounts
upsert_request c email o none s =
    (new_request c email o, record s { requests = s.requests ++ new_request c email o ∷ [] })
upsert_request c email o (some r) s =
    (next_request c o r, record s { requests = update_request r.id (next_request c o) s.requests })

abbrev message_for : RequestStatus → Option Message
message_for pending = some pending_approval
message_for _ = none

abbrev pub request_answer : Text → AccessRequest → SsoAccessStatus
request_answer email r = record {
  sso_enabled = false;
  email = email;
  status = requested r.status;
  can_login = false;
  display_name = r.display_name;
  message = message_for r.status;
}

abbrev pub has_profiles : User → Bool
has_profiles u = elim u.profiles [ [] ↦ false | p ∷ ps ↦ true ]

abbrev pub user_answer : Text → User → SsoAccessStatus
user_answer email u = record {
  sso_enabled = false;
  email = email;
  status = if u.is_active then active else requested rejected;
  can_login = u.is_active && has_profiles u;
  display_name = some u.display_name;
  message =
      if u.is_active then (if has_profiles u then none else some no_profile) else some deactivated;
}

abbrev pub denied_answer : Text → Text → AccessRequestOptions → SsoAccessStatus
denied_answer allowed email o = record {
  sso_enabled = false;
  email = email;
  status = domain_denied;
  can_login = false;
  display_name = o.display_name;
  message = some (restricted_to (or_default allowed));
}

abbrev pub answer_request : Text → AccessRequest × Accounts → SsoAccessStatus × Accounts
answer_request email got = (request_answer email got.0, got.1)

abbrev pub resolve_known :
    Call → Text → AccessRequestOptions → Option User → Accounts → SsoAccessStatus × Accounts
resolve_known c email o (some u) s = (user_answer email u, s)
resolve_known c email o none s =
    answer_request email (upsert_request c email o (find_request email s.requests) s)

unfoldable pub resolve_access_request_status :
    (Text → Text)
    → Text
    → Call
    → Text
    → AccessRequestOptions
    → Accounts
    → SsoAccessStatus × Accounts
resolve_access_request_status lower allowed c email o s =
    if is_allowed_sso_domain lower allowed email
    then resolve_known c email o (find_user email s.users) s
    else (denied_answer allowed email o, s)

unfoldable pub resolve_sso_access_status :
    (Text → Text) → Text → Call → Text → Accounts → SsoAccessStatus × Accounts
resolve_sso_access_status lower allowed c email s =
    let got = resolve_access_request_status lower allowed c email no_options s in
    (record (got.0) { sso_enabled = true }, got.1)
