-- ===== src/Escalation/Notify/Auto.antt =====
-- The automatic notice: two queries, a message and two loops of updates are one pass over the table.
use mathlib.Core.Path.{subst, fun_ext}
use wfmcontrol_m.Prelude.{
  suc, ◌≢◌, ℕ, ◌≡◌, refl, true, false, ◌≤◌, none, some, List, [], ◌∷◌, arith, String, ◌∙◌, ◌==◌,
  map, filter, if◌then◌else◌, ap, All, any, length,
}
use wfmcontrol_m.Table.{IsKeyed, update_each}
use wfmcontrol_m.Table.Laws.{update_each-filter, update_each-filter-map, filter_cong, chosen-filter}
use wfmcontrol_m.Escalation.{Alerts, EscalatedAlert, Settings, notify_due}
use wfmcontrol_m.Escalation.Notify.{
  AutoClock, Transport, Recipient, process_auto_escalation, notify_and_ack, send_escalation_emails,
  send_to, send_with, mark_sent, auto_acknowledge, delivered, active_emails, selected, eligible,
}

abbrev pub notified : AutoClock → List String → EscalatedAlert → EscalatedAlert
notified k emails r = auto_acknowledge k (mark_sent k.send.now emails r)

module _ (cfg : Settings) (k : AutoClock) (later : k.cooldown_now ≤ k.send.cooldown_now) where
  selected_of_eligible :
      (i : ℕ) (ids : List ℕ) (r : EscalatedAlert)
      → any (λ j. r.id == j) (i ∷ ids) ≡ eligible cfg k r
      → selected cfg k.send (i ∷ ids) r ≡ eligible cfg k r
  unfolding selected eligible notify_due
  selected_of_eligible i ids r e = ground arith

  selected_everywhere :
      (i : ℕ) (ids : List ℕ) (t : Alerts)
      → All (λ (r : EscalatedAlert). any (λ j. r.id == j) (i ∷ ids) ≡ eligible cfg k r) t
      → All (λ r. selected cfg k.send (i ∷ ids) r ≡ eligible cfg k r) t
  selected_everywhere i ids [] h = tt
  selected_everywhere i ids (r ∷ t) (e, h) =
      (selected_of_eligible i ids r e, selected_everywhere i ids t h)

suc-eq-zero : (n : ℕ) → (suc n == 0) ≡ false
suc-eq-zero n = ground arith

-- What the loops make of the table when the message has gone out.
module _ (cfg : Settings) (k : AutoClock) (transport : Transport) (rs : List Recipient) (e : String)
    (emails accepted rejected : List String) (later : k.cooldown_now ≤ k.send.cooldown_now)
    (someone : active_emails rs ≡ e ∷ emails) where
  one_pass : Alerts → Alerts
  one_pass t = map (λ r. if eligible cfg k r then notified k (e ∷ emails) r else r) t

  two_loops : Alerts → Alerts → Alerts
  two_loops ss t =
      update_each (λ r. r.id) (auto_acknowledge k) ss
        (update_each (λ r. r.id) (mark_sent k.send.now (e ∷ emails)) ss t)

  two_loops-one_pass :
      (t : Alerts) → IsKeyed (λ r. r.id) t → two_loops (filter (eligible cfg k) t) t ≡ one_pass t
  unfolding two_loops one_pass
  two_loops-one_pass t keyed =
      let mark = mark_sent k.send.now (e ∷ emails) in
      let p = eligible cfg k in
      ap (update_each (λ r. r.id) (auto_acknowledge k) (filter p t))
        (update_each-filter (λ r. r.id) mark (λ r. refl) p t keyed)
      ∙ update_each-filter-map (λ r. r.id) (auto_acknowledge k) (λ r. refl)
          (λ r. if p r then mark r else r) (λ r. ground arith) p t keyed
      ∙ ap (λ f. map f t) (fun_ext (λ r. ground arith))

  module _ (t : Alerts) (a : EscalatedAlert) (rest : Alerts) (keyed : IsKeyed (λ r. r.id) t)
      (found : filter (eligible cfg k) t ≡ a ∷ rest)
      (sent : transport (e ∷ emails) (a ∷ rest) ≡ delivered accepted rejected) where
    abbrev ids : List ℕ
    ids = map (λ (r : EscalatedAlert). r.id) (a ∷ rest)

    -- The second query, by ids and with a later clock, selects what the first one did.
    selected_again : filter (selected cfg k.send ids) t ≡ a ∷ rest
    selected_again =
        let chosen = chosen-filter (λ (r : EscalatedAlert). r.id) (eligible cfg k) t keyed in
        filter_cong (λ (r : EscalatedAlert). r.id) (selected cfg k.send ids) (eligible cfg k) t
          (selected_everywhere cfg k later a.id (map (λ r. r.id) rest) t (rw found at chosen))
        ∙ found

    mailed : send_escalation_emails cfg k.send (some transport) rs ids t ≡ (
      record {
        sent = length (a ∷ rest);
        skipped = 0;
        failures = 0;
        recipients = accepted;
        rejected = rejected;
        error = none;
      },
      update_each (λ r. r.id) (mark_sent k.send.now (e ∷ emails)) (a ∷ rest) t,
    )
    unfolding send_escalation_emails send_with send_to
    mailed = rw (someone, selected_again, sent, send_to)

    notify_and_ack-one_pass : notify_and_ack cfg k (some transport) rs (a ∷ rest) t ≡ one_pass t
    unfolding notify_and_ack update_each two_loops
    notify_and_ack-one_pass =
        rw (mailed, suc-eq-zero (length rest))
          (subst (λ ss. two_loops ss t ≡ one_pass t) found (two_loops-one_pass t keyed))

  process_auto_escalation-eligible :
      (t : Alerts) (ss : Alerts)
      → IsKeyed (λ r. r.id) t
      → filter (eligible cfg k) t ≡ ss
      → (ss ≢ [] → transport (e ∷ emails) ss ≡ delivered accepted rejected)
      → notify_and_ack cfg k (some transport) rs ss t ≡ one_pass t
  unfolding two_loops update_each
  process_auto_escalation-eligible t [] keyed found sent =
      unfold notify_and_ack in
      subst (λ ss. two_loops ss t ≡ one_pass t) found (two_loops-one_pass t keyed)
  process_auto_escalation-eligible t (a ∷ rest) keyed found sent =
      notify_and_ack-one_pass t a rest keyed found (sent (λ q. cc))

-- With the automatic notice enabled, an active recipient, and a server that takes the message, the
-- alerts that are unresolved, open, past the threshold and not emailed within the cooldown are
-- marked as emailed and acknowledged by the system, and every other row stays as it is. The clock
-- does not run back between the two cooldown reads, and ids are distinct.
pub process_auto_escalation-one_pass :
    (cfg : Settings) (k : AutoClock) (transport : Transport) (rs : List Recipient) (e : String)
    (emails accepted rejected : List String) (t : Alerts)
    → IsKeyed (λ r. r.id) t
    → cfg.auto_escalation_notify_enabled ≡ true
    → k.cooldown_now ≤ k.send.cooldown_now
    → active_emails rs ≡ e ∷ emails
    → (filter (eligible cfg k) t ≢ []
        → transport (e ∷ emails) (filter (eligible cfg k) t) ≡ delivered accepted rejected)
    → process_auto_escalation cfg k (some transport) rs t
      ≡ map (λ r. if eligible cfg k r then notified k (e ∷ emails) r else r) t
unfolding process_auto_escalation
process_auto_escalation-one_pass cfg k transport rs e emails x y t keyed on later someone sent =
    simp on (
      unfold one_pass in
      process_auto_escalation-eligible cfg k transport rs e emails x y later someone t
        (filter (eligible cfg k) t) keyed refl sent)
