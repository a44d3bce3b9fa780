-- ===== src/Sync/ZoneScan.antt =====
-- detectAllTimezones: the zones of the servers of all clients, the ones never tried first. Each server has
-- a connection of its own; the waits between servers are left out, and `now` is the clock of them all.
pub mod Laws
use wfmcontrol_m.Prelude.{
  ℕ, suc, ◌+◌, Bool, true, false, not, ◌&&◌, Option, none, some, List, [], ◌∷◌, ◌++◌, map, any,
  filter, length, ltb, ◌==◌, if◌then◌else◌, is_some,
}
use wfmcontrol_m.Table.{update}
use wfmcontrol_m.Text.{Text, text, text_eq, is_empty}
use wfmcontrol_m.Sync.{Job, Client, AppServer}
use wfmcontrol_m.Sync.Ssh.{Reply, resolved, rejected, Shell}
use wfmcontrol_m.Sync.Discovery.{
  SyncStore, set_client, appserver_update, zone_over, sync_disabled_error,
}
use wfmcontrol_m.Sync.Discovery.Entry.{of_client}

pub data Priority : Type 0 where
  pending : Priority
  retry : Priority
  detected : Priority
  cooldown : Priority

pub record ZoneFilter : Type 0 where
  pub cluster : Option Text
  pub client_ids : List ℕ
  pub force : Bool

pub record ZoneResult : Type 0 where
  pub code : Text
  pub timezone : Option Text
  pub error_message : Option Text
  pub priority : Priority

pub record ZoneReport : Type 0 where
  pub total : ℕ
  pub succeeded : ℕ
  pub failed : ℕ
  pub skipped : ℕ
  pub cooldown_count : ℕ
  pub results : List ZoneResult

pub record ZoneEnv : Type 0 where
  pub sync_enabled : Bool
  pub credentials : Option Text
  pub connect : Text → Reply Shell
  pub now : ℕ

abbrev in_cluster : Option Text → Client → Bool
in_cluster none c = true
in_cluster (some k) c =
    if is_empty k then true else elim c.cluster [ none ↦ false | some d ↦ text_eq d k ]

abbrev among : List ℕ → Client → Bool
among [] c = true
among (i ∷ is) c = any (λ j. c.id == j) (i ∷ is)

abbrev is_selected : ZoneFilter → Client → Bool
is_selected f c = c.is_active && in_cluster f.cluster c && among f.client_ids c

-- Less than a day ago.
abbrev is_recent : ℕ → Option ℕ → Bool
is_recent now none = false
is_recent now (some t) = ltb now (t + 86400000)

abbrev has_zone : Option Text → Bool
has_zone none = false
has_zone (some z) = not (is_empty z)

unfoldable pub priority_of : Bool → ℕ → List AppServer → Priority
priority_of force now [] = pending
priority_of force now (a ∷ as') =
    if not force && is_recent now a.tz_last_attempt_at
    then cooldown
    else if has_zone a.timezone
    then detected
    else if is_some a.tz_last_attempt_at
    then retry
    else pending

abbrev pub rank : Priority → ℕ
rank pending = 0
rank retry = 1
rank detected = 2
rank cooldown = 3

abbrev pub with_priority : Bool → ℕ → Priority → List Client → List Client
with_priority force now p cs = filter (λ c. rank (priority_of force now c.servers) == rank p) cs

pub record Scan : Type 0 where
  pub store : SyncStore
  pub succeeded : ℕ
  pub failed : ℕ
  pub skipped : ℕ
  pub results : List ZoneResult

abbrev result : Client → Option Text → Option Text → Priority → ZoneResult
result c tz e p = record { code = c.code; timezone = tz; error_message = e; priority = p }

abbrev attempted : ℕ → AppServer → AppServer
attempted now a = record a { tz_last_attempt_at = some now }

-- The zone goes to the server, the client and the client's jobs.
unfoldable pub store_detected : ℕ → Client → AppServer → Text → SyncStore → SyncStore
store_detected now c a tz w =
    let on_server =
      set_client c.id
        (appserver_update a.id
          (λ b. record b { timezone = some tz; tz_last_attempt_at = some now }))
        w in
    let on_client = set_client c.id (λ d. record d { timezone = tz }) on_server in
    record on_client {
      jobs =
          map
            (λ j.
              if of_client c.id j.client_id && not j.deleted
              then record j { server_timezone = some tz; timezone = tz }
              else j)
            on_client.jobs;
    }

unfoldable pub probe : ZoneEnv → Client → AppServer → Priority → Reply Shell → Scan → Scan
probe env c a p (rejected e) s = record s {
  store = set_client c.id (appserver_update a.id (attempted env.now)) s.store;
  failed = suc s.failed;
  results = s.results ++ result c none (some e) p ∷ [];
}
probe env c a p (resolved shell) s =
    let tz = zone_over shell in
    record s {
      store = store_detected env.now c a tz s.store;
      succeeded = suc s.succeeded;
      results = s.results ++ result c (some tz) none p ∷ [];
    }

unfoldable pub scan_client : ZoneEnv → Priority → Client → List AppServer → Scan → Scan
scan_client env p c [] s = record s {
  failed = suc s.failed;
  results = s.results ++ result c none (some (text "No active Prod server")) p ∷ [];
}
scan_client env p c (a ∷ as') s =
    let skip = record s {
      skipped = suc s.skipped;
      results = s.results ++ result c a.timezone none p ∷ [];
    } in
    if rank p == 2 then skip else probe env c a p (env.connect a.dns) s

unfoldable pub scan_all : ZoneEnv → Priority → List Client → Scan → Scan
scan_all env p [] s = s
scan_all env p (c ∷ cs) s = scan_all env p cs (scan_client env p c c.servers s)

abbrev zone_now : List AppServer → Option Text
zone_now [] = none
zone_now (a ∷ as') = a.timezone

abbrev pub cooled : Client → ZoneResult
cooled c = result c (zone_now c.servers) none cooldown

-- The detected ones come last, so that the list is that of the source.
unfoldable pub scan_selected : ZoneEnv → Bool → List Client → SyncStore → SyncStore × ZoneReport
scan_selected env force cs w =
    let group : Priority → List Client = λ p. with_priority force env.now p cs in
    let start : Scan = record { store = w; succeeded = 0; failed = 0; skipped = 0; results = [] } in
    let first = scan_all env pending (group pending) start in
    let second = scan_all env retry (group retry) first in
    let third = scan_all env detected (group detected) second in
    let cooling = group cooldown in
    (
      third.store,
      record {
        total =
            length (group pending)
            + length (group retry)
            + length (group detected)
            + length cooling;
        succeeded = third.succeeded;
        failed = third.failed;
        skipped = third.skipped + length cooling;
        cooldown_count = length cooling;
        results = third.results ++ map cooled cooling;
      },
    )

abbrev on_credentials :
    Option Text → SyncStore → SyncStore × ZoneReport → SyncStore × Reply ZoneReport
on_credentials (some e) w done = (w, rejected e)
on_credentials none w done = (done.0, resolved done.1)

unfoldable pub detect_all_timezones :
    ZoneEnv → ZoneFilter → SyncStore → SyncStore × Reply ZoneReport
detect_all_timezones env f w =
    if not env.sync_enabled
    then (w, rejected sync_disabled_error)
    else on_credentials env.credentials w
        (scan_selected env f.force (filter (is_selected f) w.clients) w)
