-- ===== src/Config/Store.antt =====
-- services/config-service.ts: the cache of entries and the rows of `appConfig` behind it. `encrypt` is
-- encryptSecret (`none`: no key is configured), `decrypt` is decryptSecret (`none`: it throws). The
-- database stamps a row that it updates with the same time as the service its entry.
pub mod Laws
use wfmcontrol_m.Prelude.{
  ℕ, Bool, true, false, ◌&&◌, ◌||◌, not, Option, none, some, List, [], ◌∷◌, map, any, if◌then◌else◌,
}
use wfmcontrol_m.Prelude.Int.{ℤ}
use wfmcontrol_m.Text.{Text, text, text_eq, is_empty, trim}
use wfmcontrol_m.Text.Decimal.{parse_int}
use wfmcontrol_m.Config.{validate_config_value, clamp_config_int, mask}

-- The label is left out: it is only shown.
pub record ConfigEntry : Type 0 where
  pub key : Text
  pub value : Text
  pub category : Text
  pub description : Option Text
  pub is_secret : Bool
  pub updated_by : Option Text
  pub updated_at : ℕ

-- In `rows` the value is the stored one, in `cache` the plain one.
pub record ConfigState : Type 0 where
  pub cache : List ConfigEntry
  pub rows : List ConfigEntry

pub record Cipher : Type 0 where
  pub cron : Text → Bool
  pub encrypt : Text → Option Text
  pub decrypt : Text → Option Text

abbrev pub value_or_raw : Text → Option Text → Text
value_or_raw raw none = raw
value_or_raw raw (some value) = value

unfoldable pub load_entry : Cipher → ConfigEntry → ConfigEntry
load_entry k row =
    if row.is_secret && not (is_empty row.value)
    then record row { value = value_or_raw row.value (k.decrypt row.value) }
    else row

-- The loop of `load` over the rows.
unfoldable pub load : Cipher → ConfigState → ConfigState
load k s = record s { cache = map (load_entry k) s.rows }

unfoldable pub lookup : Text → List ConfigEntry → Option ConfigEntry
lookup key [] = none
lookup key (e ∷ es) = if text_eq e.key key then some e else lookup key es

abbrev pub value_of : Option ConfigEntry → Option Text
value_of none = none
value_of (some e) = some e.value

abbrev text_or : Text → Option Text → Text
text_or default none = default
text_or default (some v) = v

unfoldable pub get_string : ConfigState → Text → Text → Text
get_string s key default = text_or default (value_of (lookup key s.cache))

abbrev pub int_or : ℤ → Option ℤ → ℤ
int_or default none = default
int_or default (some n) = n

-- What parseInt makes of an integer: `double` gives the number nearest to it, or `none` for an infinite one.
abbrev pub finite : (ℤ → Option ℤ) → Option ℤ → Option ℤ
finite double none = none
finite double (some n) = double n

abbrev pub parsed_or : (ℤ → Option ℤ) → Text → ℤ → Option Text → ℤ
parsed_or double key default none = clamp_config_int key default
parsed_or double key default (some v) =
    if is_empty v
    then clamp_config_int key default
    else clamp_config_int key (int_or default (finite double (parse_int v)))

unfoldable pub get_int : (ℤ → Option ℤ) → ConfigState → Text → ℤ → ℤ
get_int double s key default = parsed_or double key default (value_of (lookup key s.cache))

abbrev flag_or : Bool → Option Text → Bool
flag_or default none = default
flag_or default (some v) =
    if is_empty v then default else text_eq v (text "true") || text_eq v (text "1")

unfoldable pub get_bool : ConfigState → Text → Bool → Bool
get_bool s key default = flag_or default (value_of (lookup key s.cache))

abbrev pub update_entry : Text → (ConfigEntry → ConfigEntry) → List ConfigEntry → List ConfigEntry
update_entry key f es = map (λ e. if text_eq e.key key then f e else e) es

abbrev pub user_or_null : Option Text → Option Text
user_or_null none = none
user_or_null (some u) = if is_empty u then none else some u

abbrev pub set_value : Text → Option Text → ℕ → ConfigEntry → ConfigEntry
set_value value user now e = record e {
  value = value;
  updated_by = user_or_null user;
  updated_at = now;
}

abbrev pub write_value : Text → Text → Text → Option Text → ℕ → ConfigState → ConfigState
write_value key stored value user now s = record s {
  rows = update_entry key (set_value stored user now) s.rows;
  cache = update_entry key (set_value value user now) s.cache;
}

abbrev pub write_encrypted :
    Text → Option Text → Text → Option Text → ℕ → ConfigState → Option ConfigState
write_encrypted key none value user now s = none
write_encrypted key (some stored) value user now s = some (write_value key stored value user now s)

abbrev pub is_db2_password : Text → Text → Bool
is_db2_password key value =
    text_eq key (text "secrets.db2Password") && (not (is_empty value) && not (text_eq value mask))

abbrev pub update_existing :
    Cipher → Text → Text → Option Text → ℕ → ConfigEntry → ConfigState → Option ConfigState
update_existing k key value user now existing s =
    if validate_config_value k.cron key value
    then if is_db2_password key value
      then write_encrypted key (k.encrypt value) value user now s
      else if existing.is_secret && text_eq value mask
      then some s
      else some (write_value key value value user now s)
    else none

abbrev pub update_found :
    Cipher → Text → Text → Option Text → ℕ → Option ConfigEntry → ConfigState → Option ConfigState
update_found k key value user now none s = none
update_found k key value user now (some existing) s =
    update_existing k key value user now existing s

-- What `update` does to the state; a key without an entry throws.
unfoldable pub update_config :
    Cipher → Text → Text → Option Text → ℕ → ConfigState → Option ConfigState
update_config k key value user now s = update_found k key value user now (lookup key s.cache) s

-- The result of `update` says whether a restart is needed.
unfoldable pub requires_restart : ConfigEntry → Bool
requires_restart e = text_eq e.category (text "SECRETS") || text_eq e.category (text "INFRA")

abbrev pub non_empty_text : Text → Option Text
non_empty_text t = if is_empty t then none else some t

abbrev set_description : Text → Option Text → ℕ → ConfigEntry → ConfigEntry
set_description description user now e = record e {
  description = non_empty_text (trim description);
  updated_by = user_or_null user;
  updated_at = now;
}

unfoldable pub update_description : Text → Text → Option Text → ℕ → ConfigState → Option ConfigState
update_description key description user now s = elim (lookup key s.cache) [
  | none ↦ none
  | some existing ↦ some (record s {
    rows = update_entry key (set_description description user now) s.rows;
    cache = update_entry key (set_description description user now) s.cache;
  })
]

-- What the admin page gets: secrets are masked.
unfoldable pub get_all : ConfigState → List ConfigEntry
get_all s = map (λ e. if e.is_secret then record e { value = mask } else e) s.cache

unfoldable pub reveal_secret : ConfigState → Text → Option Text
reveal_secret s key = elim (lookup key s.cache) [
  | none ↦ none
  | some e ↦ if e.is_secret then some e.value else none
]
