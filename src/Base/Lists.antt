-- ===== src/Base/Lists.antt =====
-- Lists measured by native numbers, and tests on their members.
use Prim.Native.Nat.{ℕ, suc, ◌+◌}
use mathlib.Core.Bool.{Bool, false, ◌||◌}
use mathlib.Core.List.{List, [], ◌∷◌}
use dev_agent.Base.Tests.{Eq, ◌==◌, if◌then◌else◌}

module _ {ℓ} {A : Type ℓ} where
  abbrev pub length : List A → ℕ
  length [] = 0
  length (x ∷ xs) = suc (length xs)

  -- The rows that a query keeps.
  abbrev pub select : (A → Bool) → List A → List A
  select p [] = []
  select p (x ∷ xs) = let rest = select p xs in if p x then x ∷ rest else rest

  abbrev pub any : (A → Bool) → List A → Bool
  any p [] = false
  any p (x ∷ xs) = p x || any p xs

  abbrev pub contains : ⦃e : Eq A⦄ → A → List A → Bool
  contains a [] = false
  contains a (x ∷ xs) = a == x || contains a xs

-- A quantity summed over a list.
module _ {ℓ} {A : Type ℓ} (f : A → ℕ) where
  abbrev pub sum_of : List A → ℕ
  sum_of [] = 0
  sum_of (x ∷ xs) = f x + sum_of xs

-- A predicate on all members.
abbrev pub All {ℓ κ} : {A : Type ℓ} → (A → Type κ) → List A → Type κ
All P [] = Unit
All P (x ∷ xs) = P x × All P xs
