-- ===== src/Base/Table/Rows.antt =====
-- Rows that a query finds, rows with distinct keys, and sums over a table.
use Prim.Native.Nat.{ℕ, ◌+◌}
use mathlib.Core.Path.{◌≡◌, refl}
use mathlib.Core.Bool.{Bool, true}
use mathlib.Core.Option.{Option, none, some}
use mathlib.Core.List.{List, [], ◌∷◌}
use native.Mathlib.Omega.{arith}
use dev_agent.Base.Tests.{Key, if◌then◌else◌}
use dev_agent.Base.Lists.{sum_of, select}
use dev_agent.Base.Table.{Keyed, key_of, find, save}

module _ {ℓ} {R : Type ℓ} where
  -- `session.scalar(select(Row).where(…))`: the first row that the query gives.
  unfoldable pub first : (R → Bool) → List R → Option R
  first p [] = none
  first p (r ∷ rs) = if p r then some r else first p rs

  pub first-holds : (p : R → Bool) (r : R) (t : List R) → first p t ≡ some r → p r ≡ true
  unfolding first
  first-holds p r [] h = cc
  first-holds p r (x ∷ t) h = ground (arith, first-holds p r t)

module _ {ℓ} {R : Type ℓ} ⦃k : Keyed R⦄ where
  -- The primary key: no two rows have the same key.
  abbrev pub IsUnique : List R → Type ℓ
  IsUnique [] = Unit
  IsUnique (r ∷ t) = (find (key_of r) t ≡ none) × IsUnique t

  find-first-none :
      (p : R → Bool) (r : R) (t : List R) → first p t ≡ some r → find (key_of r) t ≡ none → ⊥
  unfolding first find
  find-first-none p r [] h n = cc
  find-first-none p r (x ∷ t) h n = ground (arith, find-first-none p r t)

  -- In such a table a row that a query gives is the row of its key.
  pub find-first :
      (p : R → Bool) (r : R) (t : List R)
      → IsUnique t
      → first p t ≡ some r
      → find (key_of r) t ≡ some r
  unfolding first find
  find-first p r [] u h = cc
  find-first p r (x ∷ t) u h = ground (arith, find-first p r t u.1, find-first-none p x t)

module _ {ℓ} {R : Type ℓ} ⦃k : Keyed R⦄ (f : R → ℕ) where
  -- A save changes a sum by the difference of the two rows.
  pub sum_of-save :
      (r old : R) (t : List R)
      → find (key_of r) t ≡ some old
      → sum_of f (save r t) + f old ≡ sum_of f t + f r
  unfolding find save
  sum_of-save r old [] h = cc
  sum_of-save r old (x ∷ t) h = ground (arith, sum_of-save r old t)

module _ {ℓ} {R : Type ℓ} ⦃k : Keyed R⦄ where
  -- The row of a key stays the row of that key in a query that keeps it.
  pub find-select :
      (p : R → Bool) (i : Key) (r : R) (t : List R)
      → find i t ≡ some r
      → p r ≡ true
      → find i (select p t) ≡ some r
  unfolding find
  find-select p i r [] h e = cc
  find-select p i r (x ∷ t) h e = ground (arith, find-select p i r t)

  pub save-save : (r s : R) (t : List R) → key_of r ≡ key_of s → save r (save s t) ≡ save r t
  unfolding save
  save-save r s [] h = refl
  save-save r s (x ∷ t) h = ground (arith, save-save r s t h)

  -- A query that only gives rows of one key gives the saved row of that key, if it fits.
  pub first-save :
      (p : R → Bool) (r old : R) (t : List R)
      → ((x : R) → p x ≡ true → key_of x ≡ key_of r)
      → p r ≡ true
      → first p t ≡ some old
      → first p (save r t) ≡ some r
  unfolding first save
  first-save p r old [] keys fits h = cc
  first-save p r old (x ∷ t) keys fits h = ground (arith, keys x, first-save p r old t keys fits)
