-- ===== src/Sync/ZoneScan/Laws.antt =====
-- The counts of a scan of the zones.
use wfmcontrol_m.Prelude.{
  ℕ, suc, ◌+◌, ◌≡◌, refl, ◌∙◌, Bool, List, [], ◌∷◌, filter, length, ◌==◌, arith, length-snoc,
  length-map, length-append, ◌≤◌,
}
use wfmcontrol_m.Sync.{Client, AppServer}
use wfmcontrol_m.Sync.Ssh.{Reply, resolved, rejected, Shell}
use wfmcontrol_m.Sync.Discovery.{SyncStore}
use wfmcontrol_m.Sync.ZoneScan.{
  Priority, pending, retry, detected, cooldown, ZoneEnv, Scan, scan_client, scan_all, probe,
  scan_selected, priority_of, with_priority, rank, cooled,
}

abbrev done : Scan → ℕ
done s = s.succeeded + s.failed + s.skipped

-- One more client is counted, and has a result.
abbrev Counted : Scan → Scan → Type 0
Counted s t = (done t ≡ suc (done s)) × (length t.results ≡ suc (length s.results))

probe-Counted :
    (env : ZoneEnv) (c : Client) (a : AppServer) (p : Priority) (o : Reply Shell) (s : Scan)
    → Counted s (probe env c a p o s)
unfolding probe
probe-Counted env c a p (rejected e) s = (omega arith, length-snoc s.results _)
probe-Counted env c a p (resolved shell) s = (omega arith, length-snoc s.results _)

scan_client-Counted :
    (env : ZoneEnv) (p : Priority) (c : Client) (servers : List AppServer) (s : Scan)
    → Counted s (scan_client env p c servers s)
unfolding scan_client
scan_client-Counted env p c [] s = (omega arith, length-snoc s.results _)
scan_client-Counted env pending c (a ∷ as') s = probe-Counted env c a pending _ s
scan_client-Counted env retry c (a ∷ as') s = probe-Counted env c a retry _ s
scan_client-Counted env detected c (a ∷ as') s = (omega arith, length-snoc s.results _)
scan_client-Counted env cooldown c (a ∷ as') s = probe-Counted env c a cooldown _ s

scan_all-counted :
    (env : ZoneEnv) (p : Priority) (cs : List Client) (s : Scan)
    → (done (scan_all env p cs s) ≡ length cs + done s)
      × (length (scan_all env p cs s).results ≡ length cs + length s.results)
unfolding scan_all
scan_all-counted env p [] s = (omega arith, omega arith)
scan_all-counted env p (c ∷ cs) s =
    let (a, b) = scan_client-Counted env p c c.servers s in
    let (a', b') = scan_all-counted env p cs (scan_client env p c c.servers s) in
    (omega (arith, a, a'), omega (arith, b, b'))

rank_le : (p : Priority) → rank p ≤ 3
rank_le pending = omega arith
rank_le retry = omega arith
rank_le detected = omega arith
rank_le cooldown = omega arith

length-split :
    {A : Type 0} (f : A → Priority) (cs : List A)
    → length (filter (λ c. rank (f c) == 0) cs)
        + length (filter (λ c. rank (f c) == 1) cs)
        + length (filter (λ c. rank (f c) == 2) cs)
        + length (filter (λ c. rank (f c) == 3) cs)
      ≡ length cs
length-split f [] = refl
length-split f (c ∷ cs) = ground (arith, rank_le (f c), length-split f cs)

-- A scan accounts for every selected client exactly once, in one of its counts and with one result.
pub scan_selected-accounted :
    (env : ZoneEnv) (force : Bool) (cs : List Client) (w : SyncStore)
    → let report = (scan_selected env force cs w).1 in
      (report.total ≡ length cs)
      × (report.succeeded + report.failed + report.skipped ≡ length cs)
      × (length report.results ≡ length cs)
unfolding scan_selected
scan_selected-accounted env force cs w =
    let group : Priority → List Client = λ p. with_priority force env.now p cs in
    let start : Scan = record { store = w; succeeded = 0; failed = 0; skipped = 0; results = [] } in
    let first = scan_all env pending (group pending) start in
    let second = scan_all env retry (group retry) first in
    let (a, a') = scan_all-counted env pending (group pending) start in
    let (b, b') = scan_all-counted env retry (group retry) first in
    let (c, c') = scan_all-counted env detected (group detected) second in
    let whole = length-split (λ c. priority_of force env.now c.servers) cs in
    (
      omega (arith, whole),
      omega (arith, whole, a, b, c),
      length-append (scan_all env detected (group detected) second).results _
          ∙ omega (arith, whole, a', b', c', length-map cooled (group cooldown)),
    )
