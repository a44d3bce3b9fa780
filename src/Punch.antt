-- ===== src/Punch.antt =====
-- services/unproc-punch-alert-service.ts and utils/punch-stale.ts: the alerts on unprocessed punches, one
-- row at most for a client, and the stale rows of the live data. Times are milliseconds; `parse_date` is
-- what `new Date` makes of a text, `none` for an invalid date.
pub mod Laws
use wfmcontrol_m.Prelude.{
  ℕ, suc, ◌+◌, ◌-◌, ◌*◌, ◌/◌, Bool, true, false, not, ◌&&◌, ◌||◌, Option, none, some, List, [], ◌∷◌,
  ◌++◌, map, any, filter, find, leb, ltb, ◌==◌, if◌then◌else◌, get_or, is_some,
}
use wfmcontrol_m.Text.{Text, text, text_eq, is_empty}
use wfmcontrol_m.Regex.{Regex, Match, ◌⋆◌, group, at_start, lit, digit, exec, group_of}
use wfmcontrol_m.Escalation.{
  Status, open_status, acknowledged, suppressed, is_open_status, is_suppressed,
}

pub record UnprocPunchAlert : Type 0 where
  pub id : ℕ
  pub client_id : Text
  pub status : Status
  pub acknowledged_by : Option Text
  pub acknowledged_at : Option ℕ
  pub suppressed_by : Option Text
  pub suppressed_at : Option ℕ
  pub suppress_until : Option ℕ
  pub suppress_reason : Option Text
  pub email_sent_at : Option ℕ

-- The table, and the id of the next row.
pub record PunchAlerts : Type 0 where
  pub rows : List UnprocPunchAlert
  pub next_id : ℕ

abbrev pub is_for : Text → UnprocPunchAlert → Bool
is_for c a = text_eq a.client_id c

unfoldable pub update_client :
    Text → (UnprocPunchAlert → UnprocPunchAlert) → List UnprocPunchAlert → List UnprocPunchAlert
update_client c f [] = []
update_client c f (a ∷ as') = (if is_for c a then f a else a) ∷ update_client c f as'

abbrev new_alert : ℕ → Text → UnprocPunchAlert
new_alert i c = record {
  id = i;
  client_id = c;
  status = open_status;
  acknowledged_by = none;
  acknowledged_at = none;
  suppressed_by = none;
  suppressed_at = none;
  suppress_until = none;
  suppress_reason = none;
  email_sent_at = none;
}

-- upsert by the client, where `f` sets on a new row what the `create` of the source sets.
unfoldable pub upsert_client :
    Text → (UnprocPunchAlert → UnprocPunchAlert) → PunchAlerts → PunchAlerts
upsert_client c f t =
    if any (is_for c) t.rows
    then record t { rows = update_client c f t.rows }
    else record { rows = t.rows ++ f (new_alert t.next_id c) ∷ []; next_id = suc t.next_id }

abbrev pub end_suppression : UnprocPunchAlert → UnprocPunchAlert
end_suppression a = record a {
  suppressed_by = none;
  suppressed_at = none;
  suppress_until = none;
  suppress_reason = none;
}

abbrev pub end_acknowledgement : UnprocPunchAlert → UnprocPunchAlert
end_acknowledgement a = record a { acknowledged_by = none; acknowledged_at = none }

abbrev pub acknowledge_row : ℕ → Text → UnprocPunchAlert → UnprocPunchAlert
acknowledge_row now user a = record (end_suppression a) {
  status = acknowledged;
  acknowledged_by = some user;
  acknowledged_at = some now;
}

unfoldable pub acknowledge : ℕ → Text → Text → PunchAlerts → PunchAlerts
acknowledge now c user t = upsert_client c (acknowledge_row now user) t

abbrev or_null : Option Text → Option Text
or_null none = none
or_null (some t) = if is_empty t then none else some t

abbrev pub suppress_row : ℕ → Text → ℕ → Option Text → UnprocPunchAlert → UnprocPunchAlert
suppress_row now user minutes reason a = record (end_acknowledgement a) {
  status = suppressed;
  suppressed_by = some user;
  suppressed_at = some now;
  suppress_until = some (now + minutes * 60000);
  suppress_reason = or_null reason;
}

unfoldable pub suppress : ℕ → Text → Text → ℕ → Option Text → PunchAlerts → PunchAlerts
suppress now c user minutes reason t = upsert_client c (suppress_row now user minutes reason) t

unfoldable pub record_email_sent : ℕ → List Text → PunchAlerts → PunchAlerts
record_email_sent now [] t = t
record_email_sent now (c ∷ cs) t =
    record_email_sent now cs (upsert_client c (λ a. record a { email_sent_at = some now }) t)

unfoldable pub reset_to_open : Text → PunchAlerts → PunchAlerts
reset_to_open c t = record t {
  rows =
      update_client c
        (λ a. record (end_suppression (end_acknowledgement a)) { status = open_status }) t.rows;
}

abbrev pub is_expired : ℕ → UnprocPunchAlert → Bool
is_expired now a = elim a.suppress_until [
  | none ↦ false
  | some until ↦ is_suppressed a.status && ltb until now
]

abbrev pub reopen : ℕ → UnprocPunchAlert → UnprocPunchAlert
reopen now a = if is_expired now a then record (end_suppression a) { status = open_status } else a

-- A row that is reopened is left out of the answer, whatever else it holds.
abbrev pub is_listed : ℕ → UnprocPunchAlert → Bool
is_listed now a =
    not (is_expired now a) && (not (is_open_status a.status) || is_some a.email_sent_at)

-- The rows written back, and the answer: the alerts by their client.
unfoldable pub get_alert_statuses : ℕ → PunchAlerts → PunchAlerts × List UnprocPunchAlert
get_alert_statuses now t =
    (record t { rows = map (reopen now) t.rows }, filter (is_listed now) t.rows)

abbrev sent_of : Option UnprocPunchAlert → Option ℕ
sent_of none = none
sent_of (some a) = a.email_sent_at

abbrev before_cutoff : ℕ → ℕ → Option ℕ → Bool
before_cutoff now cooldown none = true
before_cutoff now cooldown (some sent) = ltb (sent + cooldown * 60000) now

pub record PunchRow : Type 0 where
  pub client_id : Text
  pub punch_count : Option ℕ
  pub last_update_time : Option Text
  pub db_current_time : Option Text
  pub error_message : Option Text

abbrev pub is_eligible : ℕ → ℕ → List UnprocPunchAlert → PunchRow → Bool
is_eligible now cooldown statuses r =
    before_cutoff now cooldown (sent_of (find (is_for r.client_id) statuses))

unfoldable pub filter_notify_eligible :
    ℕ → ℕ → List UnprocPunchAlert → List PunchRow → List PunchRow
filter_notify_eligible now cooldown statuses rs = filter (is_eligible now cooldown statuses) rs

abbrev two_digits : Regex
two_digits = digit ⋆ digit

abbrev db2_time : Regex
db2_time =
    at_start
    ⋆ group 1 (two_digits ⋆ two_digits)
    ⋆ lit "-"
    ⋆ group 2 two_digits
    ⋆ lit "-"
    ⋆ group 3 two_digits
    ⋆ lit "-"
    ⋆ group 4 two_digits
    ⋆ lit "."
    ⋆ group 5 two_digits
    ⋆ lit "."
    ⋆ group 6 two_digits

abbrev part : ℕ → Match → Text
part k m = get_or (group_of k m) []

abbrev iso_of : Match → Text
iso_of m =
    part 1 m
    ++ text "-"
    ++ part 2 m
    ++ text "-"
    ++ part 3 m
    ++ text "T"
    ++ part 4 m
    ++ text ":"
    ++ part 5 m
    ++ text ":"
    ++ part 6 m
    ++ text "Z"

abbrev parse_or_iso : (Text → Option ℕ) → Text → Option Match → Option ℕ
parse_or_iso parse_date s (some m) = parse_date (iso_of m)
parse_or_iso parse_date s none = parse_date s

-- The time of an invalid date compares as false, as `none` does where this is used.
unfoldable pub parse_db2_ts : (Text → Option ℕ) → Option Text → Option ℕ
parse_db2_ts parse_date none = none
parse_db2_ts parse_date (some s) =
    if is_empty s then none else parse_or_iso parse_date s (exec db2_time s)

abbrev has_error : Option Text → Bool
has_error none = false
has_error (some e) = not (is_empty e)

-- now - last > hours
abbrev apart : ℕ → Option ℕ → Option ℕ → Bool
apart mins none last = false
apart mins (some now) none = false
apart mins (some now) (some last) = ltb (last + mins * 60000) now

unfoldable pub is_stale_punch_row : (Text → Option ℕ) → ℕ → ℕ → PunchRow → Bool
is_stale_punch_row parse_date count_min stale_mins r =
    ltb count_min (get_or r.punch_count 0)
    && not (has_error r.error_message)
    && apart stale_mins (parse_db2_ts parse_date r.db_current_time)
        (parse_db2_ts parse_date r.last_update_time)

-- Math.max(0, Math.round(difference in minutes))
abbrev age : Option ℕ → Option ℕ → Option ℕ
age none last = none
age (some now) none = none
age (some now) (some last) = some ((now - last + 30000) / 60000)

unfoldable pub stale_age_mins : (Text → Option ℕ) → PunchRow → Option ℕ
stale_age_mins parse_date r =
    age (parse_db2_ts parse_date r.db_current_time) (parse_db2_ts parse_date r.last_update_time)

abbrev age_of : (Text → Option ℕ) → PunchRow → ℕ
age_of parse_date r = get_or (stale_age_mins parse_date r) 0

-- The oldest first; rows of the same age keep their order.
unfoldable pub insert_older : (Text → Option ℕ) → PunchRow → List PunchRow → List PunchRow
insert_older parse_date r [] = r ∷ []
insert_older parse_date r (s ∷ rs) =
    let rest = insert_older parse_date r rs in
    if leb (age_of parse_date s) (age_of parse_date r) then r ∷ s ∷ rs else s ∷ rest

unfoldable pub sort_older : (Text → Option ℕ) → List PunchRow → List PunchRow
sort_older parse_date [] = []
sort_older parse_date (r ∷ rs) = insert_older parse_date r (sort_older parse_date rs)

unfoldable pub filter_stale_punch_rows : (Text → Option ℕ) → ℕ → ℕ → List PunchRow → List PunchRow
filter_stale_punch_rows parse_date count_min stale_mins rs =
    sort_older parse_date (filter (is_stale_punch_row parse_date count_min stale_mins) rs)
