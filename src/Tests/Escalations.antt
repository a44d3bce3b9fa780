-- ===== src/Tests/Escalations.antt =====
-- The escalation service and the routes that feed it, on two alerts.
use wfmcontrol_m.Prelude.{
  none, ◌≤◌, ◌≢◌, ◌≡◌, refl, String, true, false, some, List, [], ◌∷◌, arith, map, if◌then◌else◌,
  inl, eq_iff,
}
use wfmcontrol_m.Table.{IsKeyed}
use wfmcontrol_m.Escalation.{EscalatedAlert}
use wfmcontrol_m.Escalation.Notify.{eligible, active_emails, process_auto_escalation}
use wfmcontrol_m.Escalation.Notify.Auto.{process_auto_escalation-one_pass, notified}
use wfmcontrol_m.Escalation.Process.{process_escalations}
use wfmcontrol_m.Escalation.Process.Tracking.{open_count, IsTable, process_escalations-tracks}
use wfmcontrol_m.Escalation.Process.Held.{process_escalations-holds, Keeps, IsHeld}
use wfmcontrol_m.Escalation.Process.Restart.{StartsAt}
use wfmcontrol_m.Escalation.Report.{ReportOptions}
use wfmcontrol_m.DbMonitor.{ClientBatch, critical_groups, batch_status_all, batch_status_client}
use wfmcontrol_m.DbMonitor.Laws.{
  batch_status_all-tracks, batch_status_client-resolves_others, batch_status_client-restarts_others,
}
use wfmcontrol_m.Tests.{
  acme, bolt, two_alerts, settings, accept_all, team, auto_clock, world, world-IsFresh,
  acme_pending,
}

two_alerts-IsTable : IsTable two_alerts
two_alerts-IsTable = (((λ e. omega (arith, e)), tt), (tt, tt))

one_acme : open_count "ACME" two_alerts ≤ 1
one_acme = omega arith

process_escalations-tracks_example :
    open_count "ACME" (process_escalations world [] acme_pending two_alerts) ≡ 1
process_escalations-tracks_example =
    process_escalations-tracks world [] acme_pending two_alerts "ACME" world-IsFresh
      two_alerts-IsTable (λ e. one_acme)

two_not_one : bolt.id ≡ acme.id → ⊥
two_not_one e = omega (arith, e)

two_alerts-IsKeyed : IsKeyed (λ (r : EscalatedAlert). r.id) two_alerts
two_alerts-IsKeyed = two_alerts-IsTable

team_emails : active_emails team ≡ "ops@acme.test" ∷ []
unfolding active_emails
team_emails = refl

acme-IsHeld : IsHeld world.now "ACME" acme
acme-IsHeld = record {
  client = refl;
  unresolved = refl;
  hold = inl (9000000, refl, refl, omega arith);
}

acme-Keeps : Keeps acme two_alerts
acme-Keeps = (
  refl,
  (
    λ e. record {
      client = refl;
      resolved = refl;
      status = refl;
      acknowledged_by = refl;
      acknowledged_at = refl;
      suppressed_by = refl;
      suppressed_at = refl;
      suppress_until = refl;
      suppress_reason = refl;
      email_sent_at = refl;
    },
    ((λ e. elim (two_not_one e) [ ]), tt),
  ),
)

process_escalations-holds_example :
    Keeps acme (process_escalations world [] acme_pending two_alerts)
process_escalations-holds_example =
    process_escalations-holds world [] acme_pending two_alerts "ACME" acme world-IsFresh acme-IsHeld
      refl acme-Keeps

process_auto_escalation-one_pass_example :
    process_auto_escalation settings auto_clock (some accept_all) team two_alerts
    ≡ map
        (λ r.
          if eligible settings auto_clock r
          then notified auto_clock ("ops@acme.test" ∷ []) r
          else r)
        two_alerts
process_auto_escalation-one_pass_example =
    process_auto_escalation-one_pass settings auto_clock accept_all team "ops@acme.test" []
      ("ops@acme.test" ∷ []) [] two_alerts two_alerts-IsKeyed refl (omega arith) team_emails
      (λ some_eligible. refl)

abbrev queues : ClientBatch
queues = record {
  client_id = "BOLT";
  groups = record { job_type = "IMPORT"; stale_pending = 2; pending = 3 } ∷ [];
}

batch_status_all-tracks_example :
    open_count "BOLT" (batch_status_all world [] ("BOLT::IMPORT" ∷ []) (queues ∷ []) two_alerts) ≡ 1
unfolding critical_groups
batch_status_all-tracks_example =
    batch_status_all-tracks world [] ("BOLT::IMPORT" ∷ []) (queues ∷ []) two_alerts "BOLT"
      world-IsFresh two_alerts-IsTable (omega arith)

abbrev names : List String
names = "IMPORT" ∷ []

not_equal : false ≡ true → ⊥
not_equal h = cc

some_names : names ≢ []
some_names e = cc

bolt_not_acme : queues.client_id ≢ acme.client_id
bolt_not_acme e = not_equal ((eq_iff queues.client_id acme.client_id).1 e)

batch_status_client-resolves_others_example :
    open_count "ACME" (batch_status_client world [] names queues two_alerts) ≡ 0
batch_status_client-resolves_others_example =
    batch_status_client-resolves_others world [] names queues two_alerts "ACME" world-IsFresh
      two_alerts-IsTable one_acme some_names (omega arith) bolt_not_acme

batch_status_client-restarts_others_example : StartsAt "ACME" 5000000 (
    batch_status_all world []
      ("BOLT::IMPORT" ∷ [])
      (queues ∷ [])
      (batch_status_client world [] names queues two_alerts))
batch_status_client-restarts_others_example =
    batch_status_client-restarts_others world world [] names ("BOLT::IMPORT" ∷ []) queues
      (queues ∷ []) two_alerts "ACME" world-IsFresh two_alerts-IsTable one_acme some_names
      (omega arith) bolt_not_acme

abbrev same_case : String → String
same_case s = s

abbrev report : ReportOptions
report = record { start = 500; end = 2000; as_of = 2000; cluster = none; client_id = some "BOLT" }
