-- ===== src/Config/Store/Laws.antt =====
-- What an update of the configuration means to the readers, and to the next start of the service.
use mathlib.Core.Option
use wfmcontrol_m.Prelude.{
  ℕ, ◌≡◌, refl, ap, sym, ◌∙◌, Bool, true, false, ◌&&◌, Option, none, some, get_or, List, [], ◌∷◌,
  arith, inl, inr, ◌⊎◌, Option-cases, Bool-cases,
}
use wfmcontrol_m.Prelude.Int.{ℤ}
use wfmcontrol_m.Text.{Text, text_eq, is_empty}
use wfmcontrol_m.Text.Decimal.{parse_int}
use wfmcontrol_m.Config.{validate_config_value, clamp_config_int, mask}
use wfmcontrol_m.Config.Laws.{InRange, clamp_config_int-InRange, validate_config_value-clamp}
use wfmcontrol_m.Config.Store.{
  ConfigEntry, ConfigState, Cipher, lookup, value_of, get_int, finite, parsed_or, int_or,
  update_config, update_existing, update_entry, set_value, write_value, write_encrypted,
  is_db2_password,
}

parsed_or-InRange :
    (double : ℤ → Option ℤ) (key : Text) (default : ℤ) (v : Option Text)
    → InRange key (parsed_or double key default v)
parsed_or-InRange double key default none = (clamp_config_int-InRange key default).0
parsed_or-InRange double key default (some []) = (clamp_config_int-InRange key default).0
parsed_or-InRange double key default (some (c ∷ v)) =
    (clamp_config_int-InRange key (int_or default (finite double (parse_int (c ∷ v))))).0

-- Whatever is stored and whatever the default is, an integer read from the configuration lies in the
-- range of its key.
pub get_int-InRange :
    (double : ℤ → Option ℤ) (s : ConfigState) (key : Text) (default : ℤ)
    → InRange key (get_int double s key default)
get_int-InRange double s key default =
    unfold get_int in parsed_or-InRange double key default (value_of (lookup key s.cache))

lookup-update_entry :
    (key : Text) (f : ConfigEntry → ConfigEntry) (es : List ConfigEntry) (e : ConfigEntry)
    → ((x : ConfigEntry) → (f x).key ≡ x.key)
    → lookup key es ≡ some e
    → lookup key (update_entry key f es) ≡ some (f e)
unfolding lookup
lookup-update_entry key f [] e keeps h = cc
lookup-update_entry key f (x ∷ es) e keeps h = elim (Bool-cases (text_eq x.key key)) [
  | inl t ↦ simp (t, keeps x) (ap (λ o. Option.map f o) (simp t at h))
  | inr t ↦ simp t (lookup-update_entry key f es e keeps (simp t at h))
]

-- update_existing, once its tests are known
update-refused :
    (k : Cipher) (key value : Text) (user : Option Text) (now : ℕ) (e : ConfigEntry)
    (s : ConfigState)
    → validate_config_value k.cron key value ≡ false
    → update_existing k key value user now e s ≡ none
update-refused k key value user now e s v = simp v

update-encrypted :
    (k : Cipher) (key value : Text) (user : Option Text) (now : ℕ) (e : ConfigEntry)
    (s : ConfigState) (c : Option Text)
    → validate_config_value k.cron key value ≡ true
    → is_db2_password key value ≡ true
    → k.encrypt value ≡ c
    → update_existing k key value user now e s ≡ write_encrypted key c value user now s
update-encrypted k key value user now e s c v d n = simp (v, d, n)

update-plain :
    (k : Cipher) (key value : Text) (user : Option Text) (now : ℕ) (e : ConfigEntry)
    (s : ConfigState)
    → validate_config_value k.cron key value ≡ true
    → is_db2_password key value ≡ false
    → (e.is_secret && text_eq value mask) ≡ false
    → update_existing k key value user now e s ≡ some (write_value key value value user now s)
update-plain k key value user now e s v d m = simp (v, d, m)

unmasked_plain : (a b : Bool) → b ≡ false → (a && b) ≡ false
unmasked_plain a b h = ground arith

none_not_written : {x : ConfigState} → none ≡ some x → ⊥
none_not_written h = cc

-- The update either wrote the value into the cache and something into the rows, or it left the state
-- alone for the mask of a secret.
written :
    (k : Cipher) (key value : Text) (user : Option Text) (now : ℕ) (e : ConfigEntry)
    (s after : ConfigState)
    → text_eq value mask ≡ false
    → update_existing k key value user now e s ≡ some after
    → (stored : Text) × (after ≡ write_value key stored value user now s)
      × (validate_config_value k.cron key value ≡ true)
      × ((is_db2_password key value ≡ true) × (k.encrypt value ≡ some stored)
          ⊎ (is_db2_password key value ≡ false) × (stored ≡ value))
written k key value user now e s after unmasked h =
    elim (Bool-cases (validate_config_value k.cron key value)) [
      | inl v ↦ elim (Bool-cases (is_db2_password key value)) [
        | inl d ↦ elim (Option-cases (k.encrypt value)) [
          | inl n ↦
              elim (none_not_written
                (sym (update-encrypted k key value user now e s none v d n) ∙ h)) [ ]
          | inr (stored, n) ↦ (
            stored,
            sym (
                ap (λ o. get_or o s)
                  (sym (update-encrypted k key value user now e s (some stored) v d n) ∙ h)),
            v,
            inl (d, n),
          )
        ]
        | inr d ↦ (
          value,
          sym (
              ap (λ o. get_or o s)
                (sym (
                    update-plain k key value user now e s v d
                      (unmasked_plain e.is_secret (text_eq value mask) unmasked))
                  ∙ h)),
          v,
          inr (d, refl),
        )
      ]
      | inr v ↦ elim (none_not_written (sym (update-refused k key value user now e s v) ∙ h)) [ ]
    ]

update_config-missing :
    (k : Cipher) (key value : Text) (user : Option Text) (now : ℕ) (s : ConfigState)
    → lookup key s.cache ≡ none
    → update_config k key value user now s ≡ none
update_config-missing k key value user now s l = unfold update_config in simp l

update_config-existing :
    (k : Cipher) (key value : Text) (user : Option Text) (now : ℕ) (e : ConfigEntry)
    (s : ConfigState)
    → lookup key s.cache ≡ some e
    → update_config k key value user now s ≡ update_existing k key value user now e s
update_config-existing k key value user now e s l = unfold update_config in simp l

not_empty_parsed : (value : Text) (n : ℤ) → parse_int value ≡ some n → is_empty value ≡ false
unfolding parse_int
not_empty_parsed [] n e = cc
not_empty_parsed (c ∷ value) n e = refl

lookup-written :
    (key stored value : Text) (user : Option Text) (now : ℕ) (e : ConfigEntry) (s : ConfigState)
    → lookup key s.cache ≡ some e
    → lookup key (write_value key stored value user now s).cache ≡ some (set_value value user now e)
lookup-written key stored value user now e s l =
    lookup-update_entry key (set_value value user now) s.cache e (λ x. refl) l

get_int-lookup :
    (double : ℤ → Option ℤ) (s : ConfigState) (key value : Text) (default n : ℤ) (e : ConfigEntry)
    → lookup key s.cache ≡ some e
    → e.value ≡ value
    → parse_int value ≡ some n
    → double n ≡ some n
    → get_int double s key default ≡ clamp_config_int key n
get_int-lookup double s key value default n e l v p x =
    unfold get_int in rw (l, v) (simp (not_empty_parsed value n p, p, x))

-- An integer that the administrator saved, of those that a double holds exactly, is the one that the
-- service reads from then on, unclamped, whatever default the reader gives. The value is not the mask.
pub get_int-update_config :
    (double : ℤ → Option ℤ) (k : Cipher) (key value : Text) (user : Option Text) (now : ℕ)
    (s after : ConfigState) (default n : ℤ)
    → text_eq value mask ≡ false
    → parse_int value ≡ some n
    → double n ≡ some n
    → update_config k key value user now s ≡ some after
    → get_int double after key default ≡ n
get_int-update_config double k key value user now s after default n unmasked p x h =
    elim (Option-cases (lookup key s.cache)) [
      | inl l ↦
          elim (none_not_written (sym (update_config-missing k key value user now s l) ∙ h)) [ ]
      | inr (e, l) ↦
          let (stored, w, v, how) =
            written k key value user now e s after unmasked
              (sym (update_config-existing k key value user now e s l) ∙ h) in
          ap (λ t. get_int double t key default) w
          ∙ get_int-lookup double (write_value key stored value user now s) key value default n
              (set_value value user now e) (lookup-written key stored value user now e s l) refl p x
          ∙ validate_config_value-clamp k.cron key value n unmasked p v
    ]

mask_valid : (k : Cipher) (key : Text) → validate_config_value k.cron key mask ≡ true
mask_valid k key = unfold validate_config_value in refl

mask_plain : (key : Text) → is_db2_password key mask ≡ false
mask_plain key = ground arith

-- The eight bullets that stand for a secret pass the check of every key: saving them for an entry
-- that is no secret succeeds and makes them the value of the entry, so that an integer is read as
-- its clamped default.
pub update_config-mask :
    (double : ℤ → Option ℤ) (k : Cipher) (key : Text) (user : Option Text) (now : ℕ)
    (s : ConfigState) (e : ConfigEntry) (default : ℤ)
    → lookup key s.cache ≡ some e
    → e.is_secret ≡ false
    → (after : ConfigState) × (update_config k key mask user now s ≡ some after)
      × (value_of (lookup key after.cache) ≡ some mask)
      × (get_int double after key default ≡ clamp_config_int key default)
update_config-mask double k key user now s e default l open_entry =
    let after = write_value key mask mask user now s in
    let found = lookup-written key mask mask user now e s l in
    (
      after,
      update_config-existing k key mask user now e s l
          ∙ update-plain k key mask user now e s (mask_valid k key) (mask_plain key)
              (simp open_entry),
      simp found,
      unfold get_int in rw found (unfold parse_int in refl),
    )
