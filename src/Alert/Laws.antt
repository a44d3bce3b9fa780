-- ===== src/Alert/Laws.antt =====
-- The cooldown of a rule.
use mathlib.Core.Path.{subst⁻¹}
use wfmcontrol_m.Prelude.{
  ℕ, ◌+◌, ◌*◌, ◌≡◌, ◌<◌, refl, ap, ◌∙◌, Bool, true, false, Option, List, [], ◌∷◌, ◌++◌, filter,
  if◌then◌else◌, All, arith, Bool-cases, Option-cases, inl, inr, is_some, map, get_or,
}
use wfmcontrol_m.Table.{update_each, IsKeyed}
use wfmcontrol_m.Table.Laws.{All-filter, update_each-filter}
use wfmcontrol_m.Alert.{
  AlertRule, AlertPayload, AlertStore, AlertChannel, in_cooldown, is_matching, process_rules,
  process_alert, trigger, send_channels, mark_triggered, is_sent,
}

quiet :
    (delivers : ℕ → AlertChannel → Bool) (now : ℕ) (p : AlertPayload) (rs : List AlertRule)
    (s : AlertStore)
    → All (λ r. in_cooldown now r ≡ true) rs
    → process_rules delivers now p rs s ≡ (s, true)
unfolding process_rules
quiet delivers now p [] s h = refl
quiet delivers now p (r ∷ rs) s (c, h) = rw c (quiet delivers now p rs s h)

send_channels-rules :
    (delivers : ℕ → AlertChannel → Bool) (r : AlertRule) (cs : List AlertChannel) (s : AlertStore)
    → (send_channels delivers r cs s).rules ≡ s.rules
unfolding send_channels
send_channels-rules delivers r [] s = refl
send_channels-rules delivers r (c ∷ cs) s =
    send_channels-rules delivers r cs _ ∙ noted (is_sent delivers r c)
  where
    noted :
        (b : Bool) → (if b then record s { sent = s.sent ++ (r.id, c) ∷ [] } else s).rules ≡ s.rules
    noted true = refl
    noted false = refl

-- A rule that may fire: not in its cooldown, and with channels that are JSON.
abbrev pub IsReady : ℕ → AlertRule → Type 0
IsReady now r = (in_cooldown now r ≡ false) × (is_some r.channels ≡ true)

process_rules-rules :
    (delivers : ℕ → AlertChannel → Bool) (now : ℕ) (p : AlertPayload) (rs : List AlertRule)
    (s : AlertStore)
    → All (IsReady now) rs
    → (process_rules delivers now p rs s).0.rules
      ≡ update_each (λ q. q.id) (mark_triggered now) rs s.rules
unfolding process_rules update_each trigger
process_rules-rules delivers now p [] s h = refl
process_rules-rules delivers now p (r ∷ rs) s ((c, k), h) = elim (Option-cases r.channels) [
  | inl n ↦ cc (simp n at k)
  | inr (cs, n) ↦
      let done = send_channels delivers r (get_or r.channels []) (trigger now p r s) in
      rw (c, n)
        (process_rules-rules delivers now p rs done h
          ∙ ap (update_each (λ q. q.id) (mark_triggered now) rs)
              (send_channels-rules delivers r (get_or r.channels []) (trigger now p r s)))
]

filter-in :
    (q : AlertRule → Bool) (r : AlertRule) (rs : List AlertRule)
    → q r ≡ true
    → filter q (r ∷ rs) ≡ r ∷ filter q rs
filter-in q r rs h = rw h refl

filter-out :
    (q : AlertRule → Bool) (r : AlertRule) (rs : List AlertRule)
    → q r ≡ false
    → filter q (r ∷ rs) ≡ filter q rs
filter-out q r rs h = rw h refl

marked_cool :
    (job_of : ℕ → Option ℕ) (p : AlertPayload) (now later : ℕ) (rs : List AlertRule)
    → All (λ r. later < now + r.cooldown_minutes * 60000) rs
    → All
        (λ r. in_cooldown later r ≡ true)
        (filter
          (is_matching job_of p)
          (map (λ r. if is_matching job_of p r then mark_triggered now r else r) rs))
marked_cool job_of p now later [] h = tt
marked_cool job_of p now later (r ∷ rs) (l, h) =
    let rest = map (λ r. if is_matching job_of p r then mark_triggered now r else r) rs in
    let cool = marked_cool job_of p now later rs h in
    let IsCool : List AlertRule → Type 0 = All (λ r. in_cooldown later r ≡ true) in
    elim (Bool-cases (is_matching job_of p r)) [
      | inl e ↦
          subst⁻¹ IsCool
            (ap
              (λ b. filter (is_matching job_of p) ((if b then mark_triggered now r else r) ∷ rest))
              e)
            (subst⁻¹ IsCool (filter-in (is_matching job_of p) (mark_triggered now r) rest e)
              (ground arith, cool))
      | inr e ↦
          subst⁻¹ IsCool
            (ap
              (λ b. filter (is_matching job_of p) ((if b then mark_triggered now r else r) ∷ rest))
              e)
            (subst⁻¹ IsCool (filter-out (is_matching job_of p) r rest e) cool)
    ]

-- Once the rules that match an alert have fired, the same alert does nothing more until their cooldown has
-- run out: it makes no event and sends no notice. So it is where no rule was in its cooldown at first, the
-- channels of each are JSON, and the ids are distinct.
pub process_alert-cooldown :
    (job_of : ℕ → Option ℕ) (delivers : ℕ → AlertChannel → Bool) (now later : ℕ) (p : AlertPayload)
    (s : AlertStore)
    → IsKeyed (λ r. r.id) s.rules
    → All (IsReady now) s.rules
    → All (λ r. later < now + r.cooldown_minutes * 60000) s.rules
    → process_alert job_of delivers later p (process_alert job_of delivers now p s).0
      ≡ ((process_alert job_of delivers now p s).0, true)
unfolding process_alert
process_alert-cooldown job_of delivers now later p s k ready l =
    let chosen = filter (is_matching job_of p) s.rules in
    let first = (process_rules delivers now p chosen s).0 in
    let rows : first.rules
        ≡ map (λ r. if is_matching job_of p r then mark_triggered now r else r) s.rules =
      process_rules-rules delivers now p chosen s
        (All-filter (λ r. r.id) (is_matching job_of p) (IsReady now) s.rules ready)
      ∙ update_each-filter (λ r. r.id) (mark_triggered now) (λ r. refl) (is_matching job_of p)
          s.rules k in
    quiet delivers later p _ first (rw rows (marked_cool job_of p now later s.rules l))
