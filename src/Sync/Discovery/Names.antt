-- ===== src/Sync/Discovery/Names.antt =====
-- The names that one sync gives to the entries of a crontab.
use wfmcontrol_m.Prelude.{ℕ, Bool, true, ◌≡◌, false, List, [], ◌∷◌, ◌++◌}
use wfmcontrol_m.Text.{Text, text}
use wfmcontrol_m.Access.Username.{candidate, taken}
use wfmcontrol_m.Sync.{Client}
use wfmcontrol_m.Sync.CronLine.{CronEntry}
use wfmcontrol_m.Sync.Discovery.Entry.{base_name}

-- No name twice.
unfoldable pub HasDistinctNames : List Text → Type 0
HasDistinctNames [] = Unit
HasDistinctNames (n ∷ ns) = (taken ns n ≡ false) × HasDistinctNames ns

scheduled : Client → CronEntry → Text
scheduled c e = base_name c e ++ text " (" ++ e.schedule ++ text ")"

-- What the name is, by whether the base name and the base name with the schedule are used.
unfoldable pub Chosen : Bool → Bool → Client → CronEntry → Text → Type 0
unfolding scheduled
Chosen false b c e n = n ≡ base_name c e
Chosen true false c e n = n ≡ scheduled c e
Chosen true true c e n = (k : ℕ) × (n ≡ candidate (scheduled c e ++ text " #") k)

-- `n` is not used, and is the base name if no entry before has it, else this with the schedule if no entry
-- before has that, else this with a number.
unfoldable pub IsNameFor : Client → CronEntry → List Text → Text → Type 0
unfolding scheduled
IsNameFor c e before n =
    (taken before n ≡ false)
    × Chosen (taken before (base_name c e)) (taken before (scheduled c e)) c e n

-- `after` has one name for each entry, put before the names that there were.
unfoldable pub AreNamed : Client → List CronEntry → List Text → List Text → Type 0
AreNamed c [] before after = after ≡ before
AreNamed c (e ∷ es) before after =
    (n : Text) × IsNameFor c e before n × AreNamed c es (n ∷ before) after
