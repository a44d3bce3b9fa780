-- ===== src/Sync/Bulk/Laws.antt =====
-- The totals of the runs over many clients.
use wfmcontrol_m.Prelude.{
  ℕ, suc, ◌+◌, ◌≡◌, refl, sym, ◌∙◌, Bool, true, false, not, Option, none, some, List, [], ◌∷◌,
  filter, count, length, if◌then◌else◌, arith, Bool-cases, inl, inr, length-snoc,
}
use wfmcontrol_m.Text.{Text}
use wfmcontrol_m.Sync.{Client}
use wfmcontrol_m.Sync.Ssh.{Reply, resolved, rejected}
use wfmcontrol_m.Sync.Discovery.{SyncResult, sync_client_crons}
use wfmcontrol_m.Sync.Bulk.{
  World, Place, Totals, sync_all_crons, sync_all_clients, sync_crons_of, sync_clients_of,
  sync_client, tally_cron, tally_client, was_skipped, with_credentials, active_clients,
  start_totals,
}

abbrev accounted : Totals → ℕ
accounted t = t.succeeded + t.failed + t.skipped

tally_cron-accounted :
    (c : Client) (o : Reply SyncResult) (t : Totals)
    → (accounted (tally_cron c o t) ≡ suc (accounted t))
      × (length (tally_cron c o t).results ≡ suc (length t.results))
      × ((tally_cron c o t).total ≡ t.total)
unfolding tally_cron
tally_cron-accounted c (resolved r) t = elim (Bool-cases r.skipped) [
  | inl s ↦ simp s (omega arith, length-snoc t.results r, refl)
  | inr s ↦ simp s (omega arith, length-snoc t.results r, refl)
]
tally_cron-accounted c (rejected e) t = (omega arith, length-snoc t.results _, refl)

sync_crons_of-accounted :
    (places : ℕ → Place) (force : Bool) (i : ℕ) (cs : List Client) (w : World) (t : Totals)
    → let done = (sync_crons_of places force i cs w t).1 in
      (accounted done ≡ length cs + accounted t)
      × (length done.results ≡ length cs + length t.results)
      × (done.total ≡ t.total)
unfolding sync_crons_of
sync_crons_of-accounted places force i [] w t = (omega arith, omega arith, refl)
sync_crons_of-accounted places force i (c ∷ cs) w t =
    let done = sync_client_crons (places i).cron force c.id w.store in
    let (a, b, d) = tally_cron-accounted c done.1 t in
    let (a', b', d') =
      sync_crons_of-accounted places force (suc i) cs (record w { store = done.0 })
        (tally_cron c done.1 t) in
    (omega (arith, a, a'), omega (arith, b, b'), d' ∙ d)

-- After an error the flag is as it was; after a run it is cleared, and `P` holds of the totals.
abbrev pub EndsWith : (Totals → Type 0) → World → World × Reply Totals → Type 0
EndsWith P w (v, rejected e) = v.is_syncing ≡ w.is_syncing
EndsWith P w (v, resolved t) = (v.is_syncing ≡ false) × P t

module _ (P : Totals → Type 0) where
  on_credentials-ends :
      (o : Option Text) (w : World) (done : World × Totals)
      → w.is_syncing ≡ false
      → P done.1
      → EndsWith P w (with_credentials o w done)
  on_credentials-ends none w done i h = (refl, h)
  on_credentials-ends (some e) w done i h = sym i

  guarded :
      (enabled : Bool) (w : World) (e e' : Text) (run : World × Reply Totals)
      → (w.is_syncing ≡ false → EndsWith P w run)
      → EndsWith P w
          (if not enabled then (w, rejected e) else if w.is_syncing then (w, rejected e') else run)
  guarded false w e e' run h = refl
  guarded true w e e' run h = elim (Bool-cases w.is_syncing) [
    | inl i ↦ simp i refl
    | inr i ↦ simp i (h i)
  ]

-- How many clients are active.
abbrev pub active_count : World → ℕ
active_count w = count (λ c. c.is_active) w.store.clients

length-active_clients :
    (cs : List Client) → length (filter (λ c. c.is_active) cs) ≡ count (λ c. c.is_active) cs
length-active_clients [] = refl
length-active_clients (c ∷ cs) = ground (arith, length-active_clients cs)

-- One result for each of `n` clients, and each counted as synced, skipped or failed.
abbrev pub IsAccounted : ℕ → Totals → Type 0
IsAccounted n t = (t.total ≡ n) × (t.succeeded + t.failed + t.skipped ≡ n) × (length t.results ≡ n)

-- A run over the crontabs, whatever the servers do, ends with the flag cleared and with as many results as
-- there are active clients; the counts of those synced, skipped and failed add up to that number, which is
-- the total. A run that is refused leaves the flag as it was.
pub sync_all_crons-IsAccounted :
    (places : ℕ → Place) (force : Bool) (w : World)
    → EndsWith (IsAccounted (active_count w)) w (sync_all_crons places force w)
unfolding sync_all_crons
sync_all_crons-IsAccounted places force w =
    let cs = active_clients w in
    let (a, b, d) =
      sync_crons_of-accounted places force 0 cs (record w { is_syncing = true })
        (start_totals cs) in
    let n = length-active_clients w.store.clients in
    guarded (IsAccounted (active_count w)) (places 0).cron.sync_enabled w _ _ _ (λ i.
      on_credentials-ends (IsAccounted (active_count w)) (places 0).cron.credentials w _ i
        (omega (arith, d, n), omega (arith, a, n), omega (arith, b, n)))

tally_client-failed :
    (rs : List SyncResult) (t : Totals)
    → ((tally_client (resolved rs) t).failed ≡ t.failed)
      × (accounted (tally_client (resolved rs) t) ≡ suc (accounted t))
      × ((tally_client (resolved rs) t).total ≡ t.total)
unfolding tally_client
tally_client-failed rs t = elim (Bool-cases (was_skipped rs)) [
  | inl s ↦ simp s (refl, omega arith, refl)
  | inr s ↦ simp s (refl, omega arith, refl)
]

tally_client-answered :
    (o : Reply (List SyncResult)) (rs : List SyncResult) (t : Totals)
    → o ≡ resolved rs
    → ((tally_client o t).failed ≡ t.failed)
      × (accounted (tally_client o t) ≡ suc (accounted t))
      × ((tally_client o t).total ≡ t.total)
tally_client-answered o rs t e = rw e (tally_client-failed rs t)

-- The sync of one client answers, whatever its parts do.
sync_client-resolved :
    (place : Place) (force : Bool) (id : ℕ) (w : World)
    → (rs : List SyncResult) × ((sync_client place force id w).1 ≡ resolved rs)
unfolding sync_client
sync_client-resolved place force id w = (_, refl)

sync_clients_of-failed :
    (places : ℕ → Place) (force : Bool) (i : ℕ) (cs : List Client) (w : World) (t : Totals)
    → let done = (sync_clients_of places force i cs w t).1 in
      (done.failed ≡ t.failed) × (accounted done ≡ length cs + accounted t) × (done.total ≡ t.total)
unfolding sync_clients_of
sync_clients_of-failed places force i [] w t = (refl, omega arith, refl)
sync_clients_of-failed places force i (c ∷ cs) w t =
    let done = sync_client (places i) force c.id w in
    let (rs, e) = sync_client-resolved (places i) force c.id w in
    let (a, b, d) = tally_client-answered done.1 rs t e in
    let (a', b', d') =
      sync_clients_of-failed places force (suc i) cs done.0 (tally_client done.1 t) in
    (a' ∙ a, omega (arith, b, b'), d' ∙ d)

-- None of `n` clients failed, and each of them was synced or skipped.
abbrev pub HasNoFailure : ℕ → Totals → Type 0
HasNoFailure n t = (t.total ≡ n) × (t.failed ≡ 0) × (t.succeeded + t.skipped ≡ n)

-- A full sync of all clients never counts a failure, though it has a branch that counts them: whatever the
-- servers do, the counts of clients synced and skipped add up to the number of active clients, which is the
-- total. It ends with the flag cleared, and a sync that is refused leaves the flag as it was.
pub sync_all_clients-HasNoFailure :
    (places : ℕ → Place) (force : Bool) (w : World)
    → EndsWith (HasNoFailure (active_count w)) w (sync_all_clients places force w)
unfolding sync_all_clients
sync_all_clients-HasNoFailure places force w =
    let cs = active_clients w in
    let (a, b, d) =
      sync_clients_of-failed places force 0 cs (record w { is_syncing = true }) (start_totals cs) in
    let n = length-active_clients w.store.clients in
    guarded (HasNoFailure (active_count w)) (places 0).cron.sync_enabled w _ _ _ (λ i.
      on_credentials-ends (HasNoFailure (active_count w)) (places 0).cron.credentials w _ i
        (omega (arith, d, n), omega (arith, a), omega (arith, a, b, n)))
