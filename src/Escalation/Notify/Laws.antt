-- ===== src/Escalation/Notify/Laws.antt =====
-- What sending and acknowledging leave alone: every property of the table that the two loops of
-- updates keep is kept by the automatic notice, whatever the transport answers.
use wfmcontrol_m.Prelude.{
  ℕ, ◌≡◌, refl, Bool, Option, none, some, List, [], ◌∷◌, count, String, All, ◌∙◌, Bool-cases, inl,
  inr, ◌==◌, map, ◌⊎◌, filter,
}
use wfmcontrol_m.Table.{update_each}
use wfmcontrol_m.Table.Laws.{count-update_each}
use wfmcontrol_m.Escalation.{Alerts, EscalatedAlert, Settings}
use wfmcontrol_m.Escalation.Notify.{
  AutoClock, SendClock, Transport, Recipient, process_auto_escalation, notify_and_ack,
  send_escalation_emails, send_to, send_with, mark_sent, auto_acknowledge, Delivery, delivered,
  failed, active_emails, selected, eligible,
}

pub Delivery-cases :
    (d : Delivery)
    → ((x : List String) × (y : List String) × (d ≡ delivered x y))
      ⊎ ((m : String) × (d ≡ failed m))
Delivery-cases (delivered x y) = inl (x, y, refl)
Delivery-cases (failed m) = inr (m, refl)

-- `P` stands for a property of tables, `Q` for one of the rows that are written.
module _ (P : Alerts → Type 0) (Q : EscalatedAlert → Type 0)
    (keep_mark : (now : ℕ) (emails : List String) (ss t : Alerts)
      → All Q ss
      → P t
      → P (update_each (λ r. r.id) (mark_sent now emails) ss t)) where
  pub send_to-keeps :
      (now : ℕ) (transport : Transport) (emails : List String) (ss t : Alerts)
      → All Q ss
      → P t
      → P (send_to now transport emails ss t).1
  unfolding send_to
  send_to-keeps now transport emails [] t q h = h
  send_to-keeps now transport emails (a ∷ rest) t q h =
      elim (Delivery-cases (transport emails (a ∷ rest))) [
        | inl (x, y, e) ↦ rw (e, send_to) (keep_mark now emails (a ∷ rest) t q h)
        | inr (m, e) ↦ rw (e, send_to) h
      ]

  pub send_escalation_emails-keeps :
      (cfg : Settings) (k : SendClock) (mailer : Option Transport) (rs : List Recipient)
      (ids : List ℕ) (t : Alerts)
      → All Q (filter (selected cfg k ids) t)
      → P t
      → P (send_escalation_emails cfg k mailer rs ids t).1
  send_escalation_emails-keeps cfg k none rs ids t q h = unfold send_escalation_emails in h
  send_escalation_emails-keeps cfg k (some transport) rs ids t q h =
      unfold send_escalation_emails in go (active_emails rs)
    where
      go : (emails : List String) → P (send_with cfg k transport rs emails ids t).1
      go [] = unfold send_with in h
      go (e ∷ emails) =
          unfold send_with in
          send_to-keeps k.now transport (e ∷ emails) (filter (selected cfg k ids) t) t q h

  module _
      (keep_ack : (k : AutoClock) (ss t : Alerts)
        → All Q ss
        → P t
        → P (update_each (λ r. r.id) (auto_acknowledge k) ss t)) where
    pub notify_and_ack-keeps :
        (cfg : Settings) (k : AutoClock) (mailer : Option Transport) (rs : List Recipient)
        (ss t : Alerts)
        → All Q ss
        → All Q (filter (selected cfg k.send (map (λ r. r.id) ss)) t)
        → P t
        → P (notify_and_ack cfg k mailer rs ss t)
    notify_and_ack-keeps cfg k mailer rs [] t q q' h = unfold notify_and_ack in h
    notify_and_ack-keeps cfg k mailer rs (a ∷ rest) t q q' h =
        let ids = map (λ (r : EscalatedAlert). r.id) (a ∷ rest) in
        let mailed = send_escalation_emails-keeps cfg k.send mailer rs ids t q' h in
        unfold notify_and_ack in
        elim (Bool-cases ((send_escalation_emails cfg k.send mailer rs ids t).0.sent == 0)) [
          | inl e ↦ rw e mailed
          | inr e ↦ rw e (keep_ack k (a ∷ rest) _ q mailed)
        ]

    pub process_auto_escalation-keeps :
        (cfg : Settings) (k : AutoClock) (mailer : Option Transport) (rs : List Recipient)
        (t : Alerts)
        → All Q (filter (eligible cfg k) t)
        → All Q (filter (selected cfg k.send (map (λ r. r.id) (filter (eligible cfg k) t))) t)
        → P t
        → P (process_auto_escalation cfg k mailer rs t)
    process_auto_escalation-keeps cfg k mailer rs t q q' h =
        unfold process_auto_escalation in
        elim (Bool-cases cfg.auto_escalation_notify_enabled) [
          | inl e ↦
              simp e (notify_and_ack-keeps cfg k mailer rs (filter (eligible cfg k) t) t q q' h)
          | inr e ↦ simp e h
        ]

abbrev Anything : EscalatedAlert → Type 0
Anything r = Unit

All-Anything : (ss : Alerts) → All Anything ss
All-Anything [] = tt
All-Anything (s ∷ ss) = (tt, All-Anything ss)

-- The automatic notice resolves no alert, opens none, and moves none to another client.
pub count-process_auto_escalation :
    (p : EscalatedAlert → Bool)
    → ((now : ℕ) (emails : List String) (r : EscalatedAlert) → p (mark_sent now emails r) ≡ p r)
    → ((k : AutoClock) (r : EscalatedAlert) → p (auto_acknowledge k r) ≡ p r)
    → (cfg : Settings) (k : AutoClock) (mailer : Option Transport) (rs : List Recipient)
      (t : Alerts)
    → count p (process_auto_escalation cfg k mailer rs t) ≡ count p t
count-process_auto_escalation p mark ack cfg k mailer rs t =
    process_auto_escalation-keeps (λ u. count p u ≡ count p t) Anything
      (λ now emails ss u _ e.
        count-update_each (λ r. r.id) p (mark_sent now emails) ss u (mark now emails) ∙ e)
      (λ k' ss u _ e. count-update_each (λ r. r.id) p (auto_acknowledge k') ss u (ack k') ∙ e) cfg k
      mailer rs t (All-Anything _) (All-Anything _) refl
