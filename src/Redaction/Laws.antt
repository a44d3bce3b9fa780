-- ===== src/Redaction/Laws.antt =====
-- What is left under the keys of a redacted value, and which entries of the list of keys match.
use wfmcontrol_m.Prelude.{
  ℕ, ◌≡◌, refl, ap, ◌∙◌, Bool, true, false, not, ◌&&◌, List, map, filter, [], ◌∷◌, any, ◌==◌, arith,
  Bool-cases, inl, inr,
}
use wfmcontrol_m.Text.{Text, text, text_eq, is_empty}
use wfmcontrol_m.Text.Laws.{text_eq→eq}
use wfmcontrol_m.Text.Search.{lower}
use wfmcontrol_m.Redaction.{
  Value, Values, Fields, null, bool, number, string, array, object, no_value, value, no_field,
  field, redact_value, redact_values, redact_fields, redact_string, redacted, is_sensitive_key,
  normalize_key, is_alphanumeric, sensitive_keys,
}

abbrev is_plain : ℕ → Bool
is_plain c = is_alphanumeric c && lower c == c

-- A character that the normal form of a key never has.
abbrev pub is_separated : Text → Bool
is_separated k = any (λ c. not (is_plain c)) k

lower_plain : (c : ℕ) → is_alphanumeric c ≡ true → not (is_plain (lower c)) ≡ false
lower_plain c h = ground arith

normalize_key-separated : (key : Text) → is_separated (normalize_key key) ≡ false
unfolding normalize_key
normalize_key-separated [] = refl
normalize_key-separated (c ∷ key) = elim (Bool-cases (is_alphanumeric c)) [
  | inl e ↦ simp e (rw (lower_plain c e) (normalize_key-separated key))
  | inr e ↦ simp e (normalize_key-separated key)
]

-- The words that a key is compared with to any effect: letters and digits alone, in lower case.
abbrev pub secret_words : List Text
secret_words =
    text "password"
    ∷ text "passwd"
    ∷ text "pwd"
    ∷ text "pass"
    ∷ text "secret"
    ∷ text "token"
    ∷ text "apikey"
    ∷ text "authorization"
    ∷ text "auth"
    ∷ text "jwt"
    ∷ text "bearer"
    ∷ text "privatekey"
    ∷ text "db2password"
    ∷ text "db2pass"
    ∷ text "smtppass"
    ∷ text "smtpuser"
    ∷ text "jwtsecret"
    ∷ text "credential"
    ∷ text "credentials"
    ∷ text "accesskey"
    ∷ text "accesstoken"
    ∷ text "sessiontoken"
    ∷ []

-- The letters and digits of the key, in lower case, are one of these words.
unfoldable pub is_secret_key : Text → Bool
is_secret_key key = any (λ w. text_eq w (map lower (filter is_alphanumeric key))) secret_words

any-unseparated :
    (key : Text) (entries : List Text)
    → any (λ k. text_eq k (normalize_key key)) entries
      ≡ any (λ k. text_eq k (normalize_key key)) (filter (λ k. not (is_separated k)) entries)
any-unseparated key [] = refl
any-unseparated key (k ∷ ks) = elim (Bool-cases (text_eq k (normalize_key key))) [
  | inl e ↦
      let clean : is_separated k ≡ false =
        ap is_separated (text_eq→eq k (normalize_key key) e) ∙ normalize_key-separated key in
      rw clean (ground (arith, e))
  | inr e ↦ elim (Bool-cases (is_separated k)) [
    | inl p ↦ simp (e, p) (any-unseparated key ks)
    | inr p ↦ simp (e, p) (any-unseparated key ks)
  ]
]

-- A key is sensitive exactly if its letters and digits, in lower case, are one of the words of the list
-- that are written with such characters alone: the entries with an underscore or a capital letter match
-- nothing. So `master_password` and `refresh_token` are in the list, and are not sensitive.
pub is_sensitive_key-separated :
    (key : Text)
    → (is_sensitive_key key ≡ is_secret_key key)
      × (is_sensitive_key (text "master_password") ≡ false)
      × (is_sensitive_key (text "refresh_token") ≡ false)
      × (any (λ k. text_eq k (text "master_password")) sensitive_keys ≡ true)
      × (any (λ k. text_eq k (text "refresh_token")) sensitive_keys ≡ true)
unfolding is_sensitive_key is_secret_key normalize_key
is_sensitive_key-separated key = (any-unseparated key sensitive_keys, refl, refl, refl, refl)

abbrev Under : Bool → Value → Type 0 → Type 0
Under true v P = v ≡ string redacted
Under false v P = P

unfoldable mutual
  -- The second value is the first with its secrets out: at every depth, the value of a field with a secret
  -- key is the mark, any other text is scrubbed, and all else is the same, the keys included.
  pub IsRedacted : Value → Value → Type 0
  IsRedacted null w = w ≡ null
  IsRedacted (bool b) w = w ≡ bool b
  IsRedacted (number t) w = w ≡ number t
  IsRedacted (string t) w = w ≡ string (redact_string t)
  IsRedacted (array vs) w = (ws : Values) × (w ≡ array ws) × AreRedacted vs ws
  IsRedacted (object fs) w = (gs : Fields) × (w ≡ object gs) × HaveRedacted fs gs

  AreRedacted : Values → Values → Type 0
  AreRedacted no_value ws = ws ≡ no_value
  AreRedacted (value v vs) ws =
      (x : Value) × (rest : Values) × (ws ≡ value x rest) × IsRedacted v x × AreRedacted vs rest

  HaveRedacted : Fields → Fields → Type 0
  HaveRedacted no_field gs = gs ≡ no_field
  HaveRedacted (field k v fs) gs =
      (x : Value) × (rest : Fields) × (gs ≡ field k x rest)
      × Under (not (is_empty k) && is_secret_key k) x (IsRedacted v x)
      × HaveRedacted fs rest

mutual
  unfolding IsRedacted redact_value

  redact_value-scrubbed : (v : Value) → IsRedacted v (redact_value v)
  redact_value-scrubbed null = refl
  redact_value-scrubbed (bool b) = refl
  redact_value-scrubbed (number t) = refl
  redact_value-scrubbed (string t) = refl
  redact_value-scrubbed (array vs) = (redact_values vs, refl, redact_values-scrubbed vs)
  redact_value-scrubbed (object fs) = (redact_fields fs, refl, redact_fields-scrubbed fs)

  redact_values-scrubbed : (vs : Values) → AreRedacted vs (redact_values vs)
  redact_values-scrubbed no_value = refl
  redact_values-scrubbed (value v vs) =
      (redact_value v, redact_values vs, refl, redact_value-scrubbed v, redact_values-scrubbed vs)

  redact_fields-scrubbed : (fs : Fields) → HaveRedacted fs (redact_fields fs)
  redact_fields-scrubbed no_field = refl
  redact_fields-scrubbed (field k v fs) =
      let same = (is_sensitive_key-separated k).0 in
      elim (Bool-cases (not (is_empty k) && is_secret_key k)) [
        | inl e ↦ (
          string redacted,
          redact_fields fs,
          simp (same, e) refl,
          simp e refl,
          redact_fields-scrubbed fs,
        )
        | inr e ↦ (
          redact_value v,
          redact_fields fs,
          simp (same, e) refl,
          simp e (redact_value-scrubbed v),
          redact_fields-scrubbed fs,
        )
      ]
