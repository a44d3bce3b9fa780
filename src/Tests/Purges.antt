-- ===== src/Tests/Purges.antt =====
-- The purge on a small database.
use wfmcontrol_m.Prelude.{ℕ, ◌≡◌, refl, String, true, false, Option, none, List, [], ◌∷◌}
use wfmcontrol_m.Prelude.Int.{pos}
use wfmcontrol_m.Purge.{Database, PurgeConfig, run_all}
use wfmcontrol_m.Purge.Polls.{Poll, run_polls, run_all-run_polls}
use wfmcontrol_m.Tests.{world, world-IsFresh, acme_pending}

abbrev never_throws : String → Option String
never_throws id = none

abbrev ticks : ℕ → ℕ × ℕ
ticks round = (900000000, 900000001)

abbrev retention : String → PurgeConfig
retention id = record {
  id = id;
  label = id;
  retain_days = pos 7;
  enabled = true;
  last_purge_at = none;
  last_purge_count = none;
}

abbrev retentions : List PurgeConfig
retentions = retention "alertEvent" ∷ retention "auditLog" ∷ retention "escalatedAlert" ∷ []

abbrev database : Database
database = record {
  sync_history = [];
  job_execution = [];
  alert_event =
      record { id = 1; created_at = 5; acknowledged = true }
      ∷ record { id = 2; created_at = 6; acknowledged = false }
      ∷ [];
  escalated_alert = [];
  audit_log = record { id = 1; date = 5 } ∷ record { id = 2; date = 899999999 } ∷ [];
  cached_cron_job = [];
}

-- ACME is pending at the first poll and gone at the second.
abbrev polls : List Poll
polls =
    record { world = world; codes = []; pending = acme_pending }
    ∷ record { world = world; codes = []; pending = [] }
    ∷ []

abbrev after_polls : Database
after_polls = record database { escalated_alert = run_polls polls [] }

run_all-run_polls_example :
    (run_all never_throws ticks retentions after_polls).2.escalated_alert ≡ run_polls polls []
run_all-run_polls_example =
    run_all-run_polls never_throws ticks retentions after_polls polls []
      (world-IsFresh, (world-IsFresh, tt)) tt tt refl
