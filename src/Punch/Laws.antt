-- ===== src/Punch/Laws.antt =====
-- How long a decision on the alert of a client holds, and when it may be mailed.
use wfmcontrol_m.Prelude.{
  ℕ, ◌+◌, ◌*◌, ◌≡◌, ◌≤◌, refl, ◌∙◌, true, false, Option, none, some, List, [], ◌∷◌, ◌++◌, any,
  filter, find, arith, Bool-cases, inl, inr,
}
use wfmcontrol_m.Text.{Text}
use wfmcontrol_m.Text.Laws.{text_eq_refl}
use wfmcontrol_m.Punch.{
  UnprocPunchAlert, PunchAlerts, PunchRow, is_for, update_client, upsert_client, suppress,
  suppress_row, get_alert_statuses, reopen, is_expired, is_listed, is_eligible, new_alert,
}

-- The row that the answer has for a client.
abbrev pub status_of : Text → ℕ → PunchAlerts → Option UnprocPunchAlert
status_of c now t = find (is_for c) (get_alert_statuses now t).1

skip-listed :
    (c : Text) (now : ℕ) (a : UnprocPunchAlert) (rows : List UnprocPunchAlert)
    → is_for c a ≡ false
    → find (is_for c) (filter (is_listed now) (a ∷ rows))
      ≡ find (is_for c) (filter (is_listed now) rows)
skip-listed c now a rows e = elim (Bool-cases (is_listed now a)) [
  | inl l ↦ simp (l, e) refl
  | inr l ↦ simp l refl
]

find-last :
    (c : Text) (now : ℕ) (rows : List UnprocPunchAlert) (b : UnprocPunchAlert)
    → any (is_for c) rows ≡ false
    → b.client_id ≡ c
    → is_listed now b ≡ true
    → find (is_for c) (filter (is_listed now) (rows ++ b ∷ [])) ≡ some b
find-last c now [] b h n l = rw (l, n, text_eq_refl c) refl
find-last c now (a ∷ rows) b h n l = elim (Bool-cases (is_for c a)) [
  | inl e ↦ cc (simp e at h)
  | inr e ↦ skip-listed c now a (rows ++ b ∷ []) e ∙ find-last c now rows b (simp e at h) n l
]

module _ (c : Text) (f : UnprocPunchAlert → UnprocPunchAlert)
    (same : (a : UnprocPunchAlert) → (f a).client_id ≡ a.client_id) (now : ℕ) where
  -- An updated row of the client is the first of its rows, where it is listed.
  find-update :
      (rows : List UnprocPunchAlert)
      → any (is_for c) rows ≡ true
      → ((a : UnprocPunchAlert) → is_listed now (f a) ≡ true)
      → (a : UnprocPunchAlert) × (find (is_for c) (filter (is_listed now) (update_client c f rows))
          ≡ some (f a))
  unfolding update_client
  find-update [] h keep = cc
  find-update (a ∷ rows) h keep = elim (Bool-cases (is_for c a)) [
    | inl e ↦ (a, rw (e, keep a) (rw (same a, e) refl))
    | inr e ↦
        let (b, found) = find-update rows (simp e at h) keep in
        (b, rw e (skip-listed c now a (update_client c f rows) e ∙ found))
  ]

  find-upsert :
      (t : PunchAlerts)
      → ((i : ℕ) → (f (new_alert i c)).client_id ≡ c)
      → ((a : UnprocPunchAlert) → is_listed now (f a) ≡ true)
      → (a : UnprocPunchAlert) × (find
            (is_for c)
            (filter (is_listed now) (upsert_client c f t).rows)
          ≡ some (f a))
  unfolding upsert_client
  find-upsert t named keep = elim (Bool-cases (any (is_for c) t.rows)) [
    | inl e ↦ simp e (find-update t.rows e keep)
    | inr e ↦ simp e (
      new_alert t.next_id c,
      find-last c now t.rows (f (new_alert t.next_id c)) e (named t.next_id) (keep _),
    )
  ]

suppress_row-listed :
    (now minutes later : ℕ) (user : Text) (reason : Option Text)
    → later ≤ now + minutes * 60000
    → (a : UnprocPunchAlert) → is_listed later (suppress_row now user minutes reason a) ≡ true
suppress_row-listed now minutes later user reason h a = ground arith

-- Until a suppression ends, the alert of the client is answered as suppressed by the user who did it,
-- whatever was known of the client before.
pub status_of-suppress :
    (now minutes later : ℕ) (c user : Text) (reason : Option Text) (t : PunchAlerts)
    → later ≤ now + minutes * 60000
    → (a : UnprocPunchAlert) × (status_of c later (suppress now c user minutes reason t)
        ≡ some (suppress_row now user minutes reason a))
unfolding suppress get_alert_statuses
status_of-suppress now minutes later c user reason t h =
    find-upsert c (suppress_row now user minutes reason) (λ a. refl) later t (λ i. refl)
      (suppress_row-listed now minutes later user reason h)

unlisted :
    (c : Text) (now : ℕ) (rows : List UnprocPunchAlert)
    → any (is_for c) rows ≡ false
    → find (is_for c) (filter (is_listed now) rows) ≡ none
unlisted c now [] h = refl
unlisted c now (a ∷ rows) h = elim (Bool-cases (is_for c a)) [
  | inl e ↦ cc (simp e at h)
  | inr e ↦ skip-listed c now a rows e ∙ unlisted c now rows (simp e at h)
]

expired-unlisted :
    (now : ℕ) (a : UnprocPunchAlert) → is_expired now a ≡ true → is_listed now a ≡ false
expired-unlisted now a h = rw h refl

reopened-listed :
    (now sent : ℕ) (a : UnprocPunchAlert)
    → is_expired now a ≡ true
    → a.email_sent_at ≡ some sent
    → (is_listed now (reopen now a) ≡ true)
      × ((reopen now a).client_id ≡ a.client_id)
      × ((reopen now a).email_sent_at ≡ some sent)
reopened-listed now sent a x s = rw x (rw s refl, refl, s)

-- The first answer after a suppression has run out leaves the client out, and with it the time of the last
-- mail, so that the client may be notified at once, however short the time since that mail; the next answer
-- has that time again, and within the cooldown the client may not be notified.
pub is_eligible-expired :
    (now cooldown sent : ℕ) (a : UnprocPunchAlert) (others : List UnprocPunchAlert) (next : ℕ)
    (r : PunchRow)
    → is_expired now a ≡ true
    → a.email_sent_at ≡ some sent
    → now ≤ sent + cooldown * 60000
    → r.client_id ≡ a.client_id
    → any (is_for a.client_id) others ≡ false
    → let first = get_alert_statuses now (record { rows = a ∷ others; next_id = next }) in
      (is_eligible now cooldown first.1 r ≡ true)
      × (is_eligible now cooldown (get_alert_statuses now first.0).1 r ≡ false)
unfolding get_alert_statuses
is_eligible-expired now cooldown sent a others next r x s h c o =
    let (l, same, kept) = reopened-listed now sent a x s in
    (
      rw (expired-unlisted now a x, c, unlisted a.client_id now others o) refl,
      rw (l, c, same, text_eq_refl a.client_id, kept) (ground arith),
    )
