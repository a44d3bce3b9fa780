-- ===== src/Sync/Timezone.antt =====
-- detectServerTimezone, and detectAllTimezones over the servers of the clients.
use wfmcontrol_m.Prelude.{Bool, not, ◌&&◌, Option, none, some, List, [], ◌∷◌, get_or, if◌then◌else◌}
use wfmcontrol_m.Text.{Text, text, trim, is_empty, mem_char, text_eq}
use wfmcontrol_m.Regex.{Regex, ◌⋆◌, group, at_end, lit, plus, dot, exec, group_of}

-- The commands, in their order.
pub data ZoneCommand : Type 0 where
  timedatectl : ZoneCommand
  cat_timezone : ZoneCommand
  readlink_localtime : ZoneCommand
  date_abbreviation : ZoneCommand

abbrev zone_link : Regex
zone_link = lit "zoneinfo/" ⋆ group 1 (plus dot) ⋆ at_end

abbrev pub abbr_map : List (Text × Text)
abbr_map =
    (text "EST", text "America/New_York")
    ∷ (text "EDT", text "America/New_York")
    ∷ (text "CST", text "America/Chicago")
    ∷ (text "CDT", text "America/Chicago")
    ∷ (text "MST", text "America/Denver")
    ∷ (text "MDT", text "America/Denver")
    ∷ (text "PST", text "America/Los_Angeles")
    ∷ (text "PDT", text "America/Los_Angeles")
    ∷ (text "UTC", text "UTC")
    ∷ (text "GMT", text "UTC")
    ∷ []

abbrev lookup_text : Text → List (Text × Text) → Option Text
lookup_text k [] = none
lookup_text k ((j, v) ∷ es) = if text_eq j k then some v else lookup_text k es

abbrev or_utc : Option Text → Text
or_utc o = get_or o (text "UTC")

abbrev names_region : Text → Bool
names_region z = not (is_empty z) && mem_char b'/' z

-- `run` is what each command prints; `none` is an error, after which the answer is UTC.
unfoldable pub detect_server_timezone : (ZoneCommand → Option Text) → Text
detect_server_timezone run = elim (run timedatectl) [
  | none ↦ text "UTC"
  | some out ↦ if names_region (trim out) then trim out else elim (run cat_timezone) [
    | none ↦ text "UTC"
    | some file ↦ if names_region (trim file) then trim file else elim (run readlink_localtime) [
      | none ↦ text "UTC"
      | some link ↦ elim (exec zone_link (trim link)) [
        | some m ↦ or_utc (group_of 1 m)
        | none ↦ elim (run date_abbreviation) [
          | none ↦ text "UTC"
          | some abbr ↦ or_utc (lookup_text (trim abbr) abbr_map)
        ]
      ]
    ]
  ]
]
