-- ===== src/Table.antt =====
-- A database table: a list of rows addressed by a numeric primary key. An id of the source (a uuid) is
-- opaque to it, compared only for equality, so that a number stands for it.
-- `update` is prisma's `update({ where: { id } })` on a row known to be there, `update_each` the loops
-- that write one row after another from a list read before.
pub mod Laws
use wfmcontrol_m.Prelude.{ℕ, ◌≢◌, Bool, List, [], ◌∷◌, map, ◌==◌, any, if◌then◌else◌, All}

module _ {ℓ} {A : Type ℓ} (key : A → ℕ) where
  abbrev pub update : ℕ → (A → A) → List A → List A
  update i f t = map (λ r. if key r == i then f r else r) t

  -- `for (const s of selected) await update(s.id, f)`
  unfoldable pub update_each : (A → A) → List A → List A → List A
  update_each f [] t = t
  update_each f (s ∷ ss) t = update_each f ss (update (key s) f t)

  abbrev pub has_key : ℕ → List A → Bool
  has_key i t = any (λ r. key r == i) t

  -- The primary-key constraint.
  abbrev pub IsKeyed : List A → Type 0
  IsKeyed [] = Unit
  IsKeyed (r ∷ t) = All (λ s. key s ≢ key r) t × IsKeyed t
