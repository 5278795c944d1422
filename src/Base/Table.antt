-- ===== src/Base/Table.antt =====
-- A table of the database: its rows, the newest first, found by a primary key.
pub mod Rows
use mathlib.Core.Path.{◌≡◌, refl}
use mathlib.Core.Logic.{◌≢◌}
use mathlib.Core.Option.{Option, none, some}
use mathlib.Core.List.{List, [], ◌∷◌}
use native.Mathlib.Omega.{arith}
use mathlib.Core.Bool.{Bool, true, ◌||◌}
use dev_agent.Base.Tests.{Key, nat_beq, nat_eq, leb, is_some, if◌then◌else◌}
use dev_agent.Base.Lists.{contains}

pub record Keyed {ℓ} (R : Type ℓ) : Type ℓ where
  pub key : R → Key

abbrev pub key_of {ℓ} : {R : Type ℓ} ⦃k : Keyed R⦄ → R → Key
key_of ⦃k⦄ = k.key

module _ {ℓ} {R : Type ℓ} ⦃k : Keyed R⦄ where
  -- `session.get(Row, id)`
  unfoldable pub find : Key → List R → Option R
  find i [] = none
  find i (r ∷ rs) = if nat_beq (key_of r) i then some r else find i rs

  -- The row's attributes were assigned: `UPDATE` at the flush. The key is never assigned.
  unfoldable pub save : R → List R → List R
  save r [] = []
  save r (x ∷ xs) = if nat_beq (key_of x) (key_of r) then r ∷ xs else x ∷ save r xs

  pub find-save :
      (i : Key) (r : R) (t : List R)
      → find i (save r t) ≡ (
          if nat_beq (key_of r) i
          then (elim (find i t) [ none ↦ none | some _ ↦ some r ])
          else find i t)
  unfolding find save
  find-save i r [] = ground arith
  find-save i r (x ∷ t) = ground (arith, find-save i r t)

  pub find-save_self :
      (r : R) {old : R} (t : List R)
      → find (key_of r) t ≡ some old
      → find (key_of r) (save r t) ≡ some r
  find-save_self r t h = ground (arith, find-save (key_of r) r t)

  pub find-save_ne : (i : Key) (r : R) (t : List R) → key_of r ≢ i → find i (save r t) ≡ find i t
  find-save_ne i r t h = ground (arith, find-save i r t)

  -- What is found has the key that was asked for.
  pub find-key : (i : Key) (r : R) (t : List R) → find i t ≡ some r → key_of r ≡ i
  unfolding find
  find-key i r [] h = cc
  find-key i r (x ∷ t) h = ground (arith, find-key i r t)

module _ {ℓ} {R : Type ℓ} ⦃k : Keyed R⦄ where
  -- The keys of the rows that a query keeps.
  unfoldable pub keys_where : (R → Bool) → List R → List Key
  keys_where p [] = []
  keys_where p (r ∷ rs) = let rest = keys_where p rs in if p r then key_of r ∷ rest else rest

  -- A row that is found and that the query keeps is among its keys.
  pub found_in_keys :
      (p : R → Bool) (i : Key) (r : R) (t : List R)
      → find i t ≡ some r
      → p r ≡ true
      → contains i (keys_where p t) ≡ true
  unfolding find keys_where
  found_in_keys p i r [] h e = cc
  found_in_keys p i r (x ∷ t) h e = ground (arith, found_in_keys p i r t)

  -- The keys of a query are in the table.
  pub keys_found :
      (p : R → Bool) (i : Key) (t : List R)
      → contains i (keys_where p t) ≡ true
      → is_some (find i t) ≡ true
  unfolding find keys_where
  keys_found p i [] h = cc
  keys_found p i (x ∷ t) h = ground (arith, keys_found p i t)

-- `order_by(Row.id)`
unfoldable pub insert_key : Key → List Key → List Key
insert_key a [] = a ∷ []
insert_key a (b ∷ bs) = if leb a b then a ∷ b ∷ bs else b ∷ insert_key a bs

unfoldable pub order_keys : List Key → List Key
unfolding insert_key
order_keys [] = []
order_keys (a ∷ as') = insert_key a (order_keys as')

contains-insert_key :
    (i a : Key) (ks : List Key) → contains i (insert_key a ks) ≡ (nat_beq i a || contains i ks)
unfolding insert_key
contains-insert_key i a [] = refl
contains-insert_key i a (b ∷ ks) = ground (arith, contains-insert_key i a ks)

-- Sorting keeps the keys.
pub contains-order_keys : (i : Key) (ks : List Key) → contains i (order_keys ks) ≡ contains i ks
unfolding order_keys
contains-order_keys i [] = refl
contains-order_keys i (a ∷ ks) =
    ground (arith, contains-insert_key i a (order_keys ks), contains-order_keys i ks)
