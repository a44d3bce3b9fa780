-- ===== src/Config/Laws.antt =====
-- The limits: what is checked on saving and what is clamped on reading agree.
use mathlib.Core.Path.{subst}
use wfmcontrol_m.Prelude.{◌≡◌, ◌↔◌, refl, sym, ◌∙◌, Bool, true, false, ◌&&◌, some, arith}
use wfmcontrol_m.Prelude.Int.{ℤ, pos, negsuc}
use wfmcontrol_m.Text.{Text, text_eq}
use wfmcontrol_m.Text.Decimal.{parse_int}
use wfmcontrol_m.Config.{
  KeyKind, db_polling, db2_limited, boolean, cron_schedule, free, kind_of, mask, at_least, at_most,
  validate_as, validate_config_value, clamp_as, clamp_config_int,
}

-- The range of the integers of a key: at least 5 minutes for a polling interval, 1 to 10 for the
-- concurrency and the pool of DB2, and any integer for the others.
abbrev pub range_test : KeyKind → ℤ → Bool
range_test db_polling n = at_least 5 n
range_test db2_limited n = at_least 1 n && at_most 10 n
range_test boolean n = true
range_test cron_schedule n = true
range_test free n = true

unfoldable pub InRange : Text → ℤ → Type 0
InRange key n = range_test (kind_of key) n ≡ true

clamp_as-range_test : (kind : KeyKind) (n : ℤ) → range_test kind (clamp_as n kind) ≡ true
clamp_as-range_test db_polling (pos n) = ground arith
clamp_as-range_test db_polling (negsuc n) = ground arith
clamp_as-range_test db2_limited (pos n) = ground arith
clamp_as-range_test db2_limited (negsuc n) = ground arith
clamp_as-range_test boolean n = refl
clamp_as-range_test cron_schedule n = refl
clamp_as-range_test free n = refl

clamp_as_fixed : (kind : KeyKind) (n : ℤ) → range_test kind n ≡ true → clamp_as n kind ≡ n
clamp_as_fixed db_polling (pos n) h = ground arith
clamp_as_fixed db_polling (negsuc n) h = cc
clamp_as_fixed db2_limited (pos n) h = ground arith
clamp_as_fixed db2_limited (negsuc n) h = cc
clamp_as_fixed boolean n h = refl
clamp_as_fixed cron_schedule n h = refl
clamp_as_fixed free n h = refl

-- Clamping puts every integer into the range of its key, and leaves alone exactly what is in it.
pub clamp_config_int-InRange :
    (key : Text) (n : ℤ)
    → InRange key (clamp_config_int key n) × ((clamp_config_int key n ≡ n) ↔ InRange key n)
unfolding InRange clamp_config_int
clamp_config_int-InRange key n = (
  clamp_as-range_test (kind_of key) n,
  (
    λ e. subst (λ m. range_test (kind_of key) m ≡ true) e (clamp_as-range_test (kind_of key) n),
    clamp_as_fixed (kind_of key) n,
  ),
)

validate_as-range_test :
    (cron : Text → Bool) (kind : KeyKind) (value : Text) (n : ℤ)
    → parse_int value ≡ some n
    → validate_as cron value kind ≡ true
    → range_test kind n ≡ true
validate_as-range_test cron db_polling value n e h = sym (simp e refl) ∙ h
validate_as-range_test cron db2_limited value n e h = sym (simp e refl) ∙ h
validate_as-range_test cron boolean value n e h = refl
validate_as-range_test cron cron_schedule value n e h = refl
validate_as-range_test cron free value n e h = refl

-- A value that may be saved, other than the mask of a secret, is read back as it is: clamping does not
-- change the integer in it.
pub validate_config_value-clamp :
    (cron : Text → Bool) (key value : Text) (n : ℤ)
    → text_eq value mask ≡ false
    → parse_int value ≡ some n
    → validate_config_value cron key value ≡ true
    → clamp_config_int key n ≡ n
unfolding validate_config_value clamp_config_int
validate_config_value-clamp cron key value n unmasked e h =
    clamp_as_fixed (kind_of key) n
      (validate_as-range_test cron (kind_of key) value n e (sym (simp unmasked refl) ∙ h))
