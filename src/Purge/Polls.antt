-- ===== src/Purge/Polls.antt =====
-- The purge after the polls: the escalation service resolves an alert by setting it OPEN, and the purge
-- looks for resolved alerts that are acknowledged or suppressed.
use wfmcontrol_m.Prelude.{ℕ, String, ◌≡◌, ◌∙◌, Option, List, [], ◌∷◌, All}
use wfmcontrol_m.Escalation.{Alerts}
use wfmcontrol_m.Escalation.Process.{World, PendingAlert, process_escalations}
use wfmcontrol_m.Escalation.Process.Tracking.{IsFresh, IsTable}
use wfmcontrol_m.Escalation.Process.Resolved.{
  ResolvedOpen, process_escalations-ResolvedOpen, IsTable-process_escalations,
}
use wfmcontrol_m.Purge.{Database, PurgeConfig, run_all}
use wfmcontrol_m.Purge.Laws.{run_all-escalated_alert}

-- One run of processEscalations with what it gets.
pub record Poll : Type 0 where
  pub world : World
  pub codes : List (String × String)
  pub pending : List PendingAlert

pub run_polls : List Poll → Alerts → Alerts
run_polls [] t = t
run_polls (p ∷ ps) t = run_polls ps (process_escalations p.world p.codes p.pending t)

run_polls-ResolvedOpen :
    (ps : List Poll) (t : Alerts)
    → All (λ p. IsFresh p.world) ps
    → IsTable t
    → ResolvedOpen t
    → ResolvedOpen (run_polls ps t)
unfolding run_polls
run_polls-ResolvedOpen [] t fresh keyed h = h
run_polls-ResolvedOpen (p ∷ ps) t (f, fs) keyed h =
    run_polls-ResolvedOpen ps _ fs (IsTable-process_escalations p.world p.codes f p.pending t keyed)
      (process_escalations-ResolvedOpen p.world p.codes f p.pending t keyed h)

-- After any runs of processEscalations, from a table with distinct ids in which every resolved
-- alert is OPEN (the empty one is), a purge with any configuration deletes no escalated alert,
-- however old. The database hands out ids that are not in use.
pub run_all-run_polls :
    (throws : String → Option String) (clock : ℕ → ℕ × ℕ) (cfgs : List PurgeConfig) (db : Database)
    (ps : List Poll) (t : Alerts)
    → All (λ p. IsFresh p.world) ps
    → IsTable t
    → ResolvedOpen t
    → db.escalated_alert ≡ run_polls ps t
    → (run_all throws clock cfgs db).2.escalated_alert ≡ run_polls ps t
run_all-run_polls throws clock cfgs db ps t fresh keyed h same =
    run_all-escalated_alert throws clock cfgs db
      (rw same (run_polls-ResolvedOpen ps t fresh keyed h))
    ∙ same
