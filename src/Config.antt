-- ===== src/Config.antt =====
-- utils/config-limits.ts and services/config-service.ts: the entries of the configuration, the limits on
-- what may be saved, and the typed getters. `cron.validate`, the encryption of secrets and the clock
-- are arguments. `none` stands for an error thrown.
pub mod Laws
pub mod Store
use wfmcontrol_m.Prelude.{
  ℕ, suc, zero, Bool, true, false, ◌&&◌, ◌||◌, not, Option, none, some, List, [], ◌∷◌, any,
  if◌then◌else◌, leb,
}
use wfmcontrol_m.Prelude.Int.{ℤ, pos, negsuc}
use wfmcontrol_m.Text.{Text, text, text_eq, trim}
use wfmcontrol_m.Text.Decimal.{parse_int}

abbrev pub min_db_polling_mins : ℕ
min_db_polling_mins = 5

abbrev pub max_db2 : ℕ
max_db2 = 10

-- The eight bullets (U+2022) that stand for a secret.
abbrev pub mask : Text
mask = 8226 ∷ 8226 ∷ 8226 ∷ 8226 ∷ 8226 ∷ 8226 ∷ 8226 ∷ 8226 ∷ []

abbrev pub is_one_of : List Text → Text → Bool
is_one_of ts t = any (λ u. text_eq u t) ts

abbrev pub bool_config_keys : List Text
bool_config_keys =
    text "engine.syncEnabled"
    ∷ text "engine.dbJobsSyncEnabled"
    ∷ text "engine.punchSyncEnabled"
    ∷ text "engine.autoEscalationNotifyEnabled"
    ∷ text "display.maintenanceAdHocWindows"
    ∷ text "display.payrollEnabled"
    ∷ text "display.payrollMonitorEnabled"
    ∷ text "display.showUnprocPunchTab"
    ∷ text "infra.trustProxy"
    ∷ text "infra.requireHttps"
    ∷ text "infra.ssoEnabled"
    ∷ text "infra.ldapEnabled"
    ∷ text "infra.ldapUseStartTls"
    ∷ text "infra.ldapTlsRejectUnauthorized"
    ∷ text "infra.ldapAllowLocalFallback"
    ∷ text "secrets.keeperEnabled"
    ∷ text "secrets.smtpTlsEnabled"
    ∷ text "secrets.smtpTlsRejectUnauthorized"
    ∷ text "infra.db2SslEnabled"
    ∷ []

abbrev pub cron_config_keys : List Text
cron_config_keys = text "engine.purgeSchedule" ∷ text "engine.cronSyncSchedule" ∷ []

abbrev pub db_polling_minute_keys : List Text
db_polling_minute_keys =
    text "polling.batchRefreshMins"
    ∷ text "polling.punchRefreshMins"
    ∷ text "polling.backgroundPollingMins"
    ∷ text "polling.dbMonitorSyncMins"
    ∷ text "polling.batchCacheTtlMins"
    ∷ text "polling.punchCacheTtlMins"
    ∷ []

-- What a key is checked as; the tests run in this order.
pub data KeyKind : Type 0 where
  db_polling : KeyKind
  db2_limited : KeyKind
  boolean : KeyKind
  cron_schedule : KeyKind
  free : KeyKind

unfoldable pub kind_of : Text → KeyKind
kind_of key =
    if is_one_of db_polling_minute_keys key
    then db_polling
    else if text_eq key (text "engine.db2QueryConcurrency")
    then db2_limited
    else if text_eq key (text "infra.db2PoolMax")
    then db2_limited
    else if is_one_of bool_config_keys key
    then boolean
    else if is_one_of cron_config_keys key
    then cron_schedule
    else free

abbrev pub at_least : ℕ → ℤ → Bool
at_least m (pos n) = leb m n
at_least m (negsuc n) = false

abbrev pub at_most : ℕ → ℤ → Bool
at_most m (pos n) = leb n m
at_most m (negsuc n) = true

abbrev satisfies : (ℤ → Bool) → Option ℤ → Bool
satisfies test none = false
satisfies test (some n) = test n

abbrev pub validate_as : (Text → Bool) → Text → KeyKind → Bool
validate_as cron value db_polling =
    satisfies (λ n. at_least min_db_polling_mins n) (parse_int value)
validate_as cron value db2_limited =
    satisfies (λ n. at_least 1 n && at_most max_db2 n) (parse_int value)
validate_as cron value boolean = text_eq value (text "true") || text_eq value (text "false")
validate_as cron value cron_schedule = cron (trim value)
validate_as cron value free = true

-- true: returns, false: throws a ConfigValidationError
unfoldable pub validate_config_value : (Text → Bool) → Text → Text → Bool
validate_config_value cron key value =
    if text_eq value mask then true else validate_as cron value (kind_of key)

-- Math.max(n, m) and Math.min(n, m), for a natural m
abbrev pub max_with : ℕ → ℤ → ℤ
max_with m n = if at_least m n then n else pos m

abbrev pub min_with : ℕ → ℤ → ℤ
min_with m n = if at_most m n then n else pos m

abbrev pub clamp_as : ℤ → KeyKind → ℤ
clamp_as n db_polling = max_with min_db_polling_mins n
clamp_as n db2_limited = min_with max_db2 (max_with 1 n)
clamp_as n boolean = n
clamp_as n cron_schedule = n
clamp_as n free = n

unfoldable pub clamp_config_int : Text → ℤ → ℤ
clamp_config_int key n = clamp_as n (kind_of key)
