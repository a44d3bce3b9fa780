-- ===== src/Redaction.antt =====
-- utils/log-redaction.ts: secrets are taken out of what is logged. A value of an object is JSON here; the
-- text of a number, which passes unchanged, stands for it.
pub mod Laws
use wfmcontrol_m.Prelude.{
  ℕ, zero, suc, ◌+◌, Bool, true, false, not, ◌&&◌, ◌||◌, Option, none, some, List, [], ◌∷◌, ◌++◌,
  map, any, filter, leb, ◌==◌, if◌then◌else◌, get_or, length,
}
use wfmcontrol_m.Text.{Text, text, text_eq, is_empty, is_digit, is_space, mem_char, take, drop}
use wfmcontrol_m.Text.Search.{lower}
use wfmcontrol_m.Regex.{
  Regex, Match, ◌⋆◌, ◌⊕◌, chr, star, group, lit, lit_i, plus, opt, space, is_word, at_least,
  group_of, replace_all,
}

abbrev pub redacted : Text
redacted = text "[redacted]"

abbrev pub sensitive_keys : List Text
sensitive_keys =
    text "password"
    ∷ text "passwd"
    ∷ text "pwd"
    ∷ text "pass"
    ∷ text "secret"
    ∷ text "token"
    ∷ text "apikey"
    ∷ text "api_key"
    ∷ text "apiKey"
    ∷ text "authorization"
    ∷ text "auth"
    ∷ text "jwt"
    ∷ text "bearer"
    ∷ text "privatekey"
    ∷ text "private_key"
    ∷ text "db2password"
    ∷ text "db2_password"
    ∷ text "db2pass"
    ∷ text "db2_pass"
    ∷ text "db2_pass_override"
    ∷ text "db2_user_override"
    ∷ text "smtppass"
    ∷ text "smtp_pass"
    ∷ text "smtpuser"
    ∷ text "smtp_user"
    ∷ text "jwtsecret"
    ∷ text "jwt_secret"
    ∷ text "config_encryption_key"
    ∷ text "master_password"
    ∷ text "master_password_hash"
    ∷ text "credential"
    ∷ text "credentials"
    ∷ text "access_key"
    ∷ text "accesskey"
    ∷ text "refresh_token"
    ∷ text "accesstoken"
    ∷ text "access_token"
    ∷ text "sessiontoken"
    ∷ text "session_token"
    ∷ text "keeper_token"
    ∷ text "one_time_token"
    ∷ []

abbrev pub is_alphanumeric : ℕ → Bool
is_alphanumeric c = is_digit c || leb b'a' (lower c) && leb (lower c) b'z'

unfoldable pub normalize_key : Text → Text
normalize_key key = map lower (filter is_alphanumeric key)

unfoldable pub is_sensitive_key : Text → Bool
is_sensitive_key key = any (λ k. text_eq k (normalize_key key)) sensitive_keys

abbrev base64_url : Regex
base64_url = chr (λ c. is_word c || c == b'-')

abbrev jwt_pattern : Regex
jwt_pattern =
    lit "eyJ"
    ⋆ at_least 8 base64_url
    ⋆ lit "."
    ⋆ at_least 8 base64_url
    ⋆ lit "."
    ⋆ at_least 8 base64_url

abbrev bearer_pattern : Regex
bearer_pattern =
    lit_i "Bearer"
    ⋆ plus space
    ⋆ plus (chr (λ c. is_alphanumeric c || mem_char c (text "-._~+/")))
    ⋆ star (lit "=")

abbrev jdbc_creds_pattern : Regex
jdbc_creds_pattern =
    lit_i "jdbc:"
    ⋆ plus (chr (λ c. is_alphanumeric c || c == b'+'))
    ⋆ lit "://"
    ⋆ plus (chr (λ c. not (is_space c || mem_char c (text ":/"))))
    ⋆ lit ":"
    ⋆ plus (chr (λ c. not (is_space c || mem_char c (text "@/"))))
    ⋆ lit "@"

abbrev secret_value : Regex
secret_value = plus (chr (λ c. not (is_space c || mem_char c (b'\'' ∷ 34 ∷ text "&`,;"))))

abbrev env_secret_pattern : Regex
env_secret_pattern =
    group 1 (
      (lit_i "DB2_PASS_OVERRIDE"
        ⊕ lit_i "DB2_USER_OVERRIDE"
        ⊕ (lit_i "CONFIG_ENCRYPTION_KEY" ⋆ opt (lit_i "_PREVIOUS"))
        ⊕ lit_i "JWT_SECRET"
        ⊕ (lit_i "MASTER_PASSWORD" ⋆ opt (lit_i "_HASH")))
      ⋆ star space
      ⋆ lit "="
      ⋆ star space)
    ⋆ secret_value

abbrev kv_secret_pattern : Regex
kv_secret_pattern =
    group 1 (
      (lit_i "password"
        ⊕ lit_i "passwd"
        ⊕ lit_i "pwd"
        ⊕ lit_i "secret"
        ⊕ lit_i "token"
        ⊕ (lit_i "api" ⋆ opt (chr (λ c. c == b'_' || c == b'-')) ⋆ lit_i "key"))
      ⋆ star space
      ⋆ (lit "=" ⊕ lit ":")
      ⋆ star space)
    ⋆ secret_value

abbrev enc_blob_pattern : Regex
enc_blob_pattern =
    lit "enc:v1:" ⋆ at_least 16 (chr (λ c. is_alphanumeric c || mem_char c (text "+/=")))

-- The text up to `://`, with it.
unfoldable pub through_scheme : Text → Text
through_scheme [] = []
through_scheme (c ∷ s) =
    let rest = c ∷ through_scheme s in
    if text_eq (take 3 (c ∷ s)) (text "://") then text "://" else rest

abbrev keep_first : Match → Text
keep_first m = get_or (group_of 1 m) [] ++ redacted

unfoldable pub redact_string : Text → Text
redact_string s =
    let jwt = replace_all jwt_pattern (λ m. redacted) s in
    let bearer = replace_all bearer_pattern (λ m. text "Bearer " ++ redacted) jwt in
    let jdbc =
      replace_all jdbc_creds_pattern (λ m. through_scheme m.matched ++ redacted ++ text "@")
        bearer in
    let env = replace_all env_secret_pattern keep_first jdbc in
    let kv = replace_all kv_secret_pattern keep_first env in
    replace_all enc_blob_pattern (λ m. redacted) kv

mutual
  pub data Value : Type 0 where
    null : Value
    bool : Bool → Value
    number : Text → Value
    string : Text → Value
    array : Values → Value
    object : Fields → Value

  pub data Values : Type 0 where
    no_value : Values
    value : Value → Values → Values

  pub data Fields : Type 0 where
    no_field : Fields
    field : Text → Value → Fields → Fields

unfoldable mutual
  -- redactValue of a value without a key
  pub redact_value : Value → Value
  redact_value null = null
  redact_value (bool b) = bool b
  redact_value (number t) = number t
  redact_value (string t) = string (redact_string t)
  redact_value (array vs) = array (redact_values vs)
  redact_value (object fs) = object (redact_fields fs)

  pub redact_values : Values → Values
  redact_values no_value = no_value
  redact_values (value v vs) = value (redact_value v) (redact_values vs)

  pub redact_fields : Fields → Fields
  redact_fields no_field = no_field
  redact_fields (field k v fs) =
      let plain = redact_value v in
      field k (if not (is_empty k) && is_sensitive_key k then string redacted else plain)
        (redact_fields fs)

unfoldable pub scrub_remote_log_lines : List Text → List Text
scrub_remote_log_lines lines = map redact_string lines
