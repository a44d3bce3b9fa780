-- ===== src/Tests/Admin.antt =====
-- The configuration and the access requests.
use wfmcontrol_m.Prelude.{Option, ◌≡◌, refl, Bool, true, false, none, some, [], ◌∷◌}
use wfmcontrol_m.Prelude.Int.{ℤ, pos}
use wfmcontrol_m.Text.{Text, text, trim_start, trim, split_from}
use wfmcontrol_m.Text.Decimal.{parse_int, read_signed, read_digits}
use wfmcontrol_m.Config.{clamp_config_int, mask, validate_config_value, kind_of}
use wfmcontrol_m.Config.Laws.{InRange}
use wfmcontrol_m.Config.Store.{
  ConfigEntry, ConfigState, Cipher, lookup, value_of, get_int, update_config,
}
use wfmcontrol_m.Config.Store.Laws.{get_int-InRange, get_int-update_config, update_config-mask}
use wfmcontrol_m.Access.{
  AccessRequest, User, Accounts, pending, approved, active, no_options, Call, find_user,
  is_allowed_sso_domain, resolve_access_request_status,
}
use wfmcontrol_m.Access.Username.{taken, first_free, unique_username, unique_username-taken}
use wfmcontrol_m.Access.Review.{
  ReviewOptions, ok, error, already, find_id, write_approval, username_for, email_local_part,
  approve_access_request, reject_access_request,
}
use wfmcontrol_m.Access.Laws.{CanApprove, approve-resolve, approve-decided}

abbrev pool : Text
pool = text "infra.db2PoolMax"

abbrev any_cron : Text → Bool
any_cron t = true

abbrev entry : ConfigEntry
entry = record {
  key = pool;
  value = text "4";
  category = text "INFRA";
  description = none;
  is_secret = false;
  updated_by = none;
  updated_at = 0;
}

abbrev config : ConfigState
config = record { cache = entry ∷ []; rows = entry ∷ [] }

abbrev updated : ConfigState
updated = record {
  cache = record entry { value = text "8"; updated_by = some (text "kim"); updated_at = 9 } ∷ [];
  rows = record entry { value = text "8"; updated_by = some (text "kim"); updated_at = 9 } ∷ [];
}

abbrev cipher : Cipher
cipher = record { cron = any_cron; encrypt = λ t. some t; decrypt = λ t. some t }

abbrev exact : ℤ → Option ℤ
exact n = some n

get_int-InRange_example : InRange pool (get_int exact config pool (pos 3))
get_int-InRange_example = get_int-InRange exact config pool (pos 3)

get_int-update_config_example : get_int exact updated pool (pos 3) ≡ pos 8
get_int-update_config_example =
    get_int-update_config exact cipher pool (text "8") (some (text "kim")) 9 config updated (pos 3)
      (pos 8) refl (unfold parse_int read_signed read_digits trim_start in refl) refl
      (unfold update_config lookup validate_config_value kind_of parse_int read_signed read_digits
          trim_start in
        refl)

update_config-mask_example :
    (after : ConfigState) × (update_config cipher pool mask none 9 config ≡ some after)
    × (value_of (lookup pool after.cache) ≡ some mask)
    × (get_int exact after pool (pos 3) ≡ clamp_config_int pool (pos 3))
update_config-mask_example =
    update_config-mask exact cipher pool none 9 config entry (pos 3) (unfold lookup in refl) refl

abbrev lower : Text → Text
lower t = t

abbrev zebra : Text
zebra = text "zebra.com"

abbrev kim_mail : Text
kim_mail = text "kim@zebra.com"

abbrev request : AccessRequest
request = record {
  id = 3;
  email = kim_mail;
  status = pending;
  source_ip = none;
  display_name = none;
  requested_username = none;
  requested_at = 5;
  reviewed_at = none;
  reviewed_by = none;
  review_note = none;
  user_id = none;
}

abbrev accounts : Accounts
accounts = record { users = []; requests = request ∷ []; profile_ids = 1 ∷ [] }

abbrev call : Call
call = record { now = 50; fresh = 77; source_ip = none }

abbrev no_review : ReviewOptions
no_review = record { display_name = none; username = none }

request-CanApprove : CanApprove 3 1 request accounts
unfolding find_id find_user
request-CanApprove = record {
  found = refl;
  waiting = refl;
  profile_known = refl;
  no_account = refl;
}

approve-resolve_example :
    (username : Text) × (after : Accounts) × (approve_access_request lower 40 9 3 1
        (text "boss")
        no_review
        accounts
      ≡ ok (username, after))
    × ((resolve_access_request_status lower zebra call kim_mail no_options after).0.status ≡ active)
    × ((resolve_access_request_status lower zebra call kim_mail no_options after).0.can_login
        ≡ true)
    × ((resolve_access_request_status lower zebra call kim_mail no_options after).1 ≡ after)
    × (u : User) × (find_user kim_mail after.users ≡ some u)
    × (u.username ≡ username)
    × (u.profiles ≡ 1 ∷ [])
    × (row : AccessRequest) × (find_id 3 after.requests ≡ some row)
    × (row.status ≡ approved)
    × (row.user_id ≡ some u.id)
approve-resolve_example =
    approve-resolve lower zebra 40 9 3 1 (text "boss") no_review request accounts call no_options
      request-CanApprove (unfold is_allowed_sso_domain trim trim_start split_from in refl)

abbrev kim : User
kim = record {
  id = 9;
  username = text "kim";
  email = kim_mail;
  display_name = text "kim";
  is_active = true;
  profiles = 1 ∷ [];
}

abbrev with_kim : Accounts
with_kim = record {
  users = kim ∷ [];
  requests =
      record request {
        status = approved;
        reviewed_at = some 40;
        reviewed_by = some (text "boss");
        display_name = some (text "kim");
        user_id = some 9;
      }
      ∷ [];
  profile_ids = 1 ∷ [];
}

approve-decided_example :
    (approve_access_request lower 60 10 3 1 (text "boss") no_review with_kim
      ≡ error (already approved))
    × (reject_access_request 60 3 (text "boss") none with_kim ≡ error (already approved))
approve-decided_example =
    approve-decided lower 40 9 3 1 (text "boss") no_review accounts with_kim (text "kim") 60 10 1
      (text "boss") no_review none
      (unfold approve_access_request find_id find_user write_approval username_for unique_username
          first_free email_local_part split_from in
        refl)

unique_username-taken_example :
    taken
      (text "kim" ∷ text "kim1" ∷ [])
      (unique_username (text "kim" ∷ text "kim1" ∷ []) (text "kim"))
    ≡ false
unique_username-taken_example = unique_username-taken (text "kim" ∷ text "kim1" ∷ []) (text "kim")
