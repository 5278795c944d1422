-- ===== src/Base/Tests.antt =====
-- Boolean tests, the conditional, and equality as an interface.
use Prim.Native.Nat.{ℕ, ◌≤◌, ◌<◌, compare, Ordering}
use Prim.Native.String.{String}
use mathlib.Core.Path.{◌≡◌, refl}
use mathlib.Core.Logic.{◌↔◌, ◌⊎◌, inl, inr}
use mathlib.Core.Bool.{Bool, true, false, ◌&&◌}
use mathlib.Core.Option.{Option, none, some}
use native.Mathlib.Omega.{arith}
use text.Mathlib.Text.{◌==◌ as text_beq}
use text.Mathlib.TextEquality.{eq_iff as text_beq_iff}

-- Identifiers, digests and names that the program stores and compares, and never takes apart.
abbrev pub Key : Type 0
Key = ℕ

-- A point in time, in seconds.
abbrev pub Time : Type 0
Time = ℕ

abbrev pub ltb : ℕ → ℕ → Bool
ltb a b = elim (compare a b) [ Ordering.lt ↦ true | _ ↦ false ]

abbrev pub leb : ℕ → ℕ → Bool
leb a b = elim (compare a b) [ Ordering.gt ↦ false | _ ↦ true ]

abbrev pub nat_beq : ℕ → ℕ → Bool
nat_beq a b = elim (compare a b) [ Ordering.eq ↦ true | _ ↦ false ]

pub nat_beq_iff : (a b : ℕ) → (nat_beq a b ≡ true) ↔ (a ≡ b)
nat_beq_iff a b = ground arith

pub ltb→lt : (a b : ℕ) → ltb a b ≡ true → a < b
ltb→lt a b h = ground arith

pub leb→le : (a b : ℕ) → leb a b ≡ true → a ≤ b
leb→le a b h = ground arith

infix 1 if◌then◌else◌
abbrev pub if◌then◌else◌ {ℓ} : {A : Type ℓ} → Bool → A → A → A
if true then x else y = x
if false then x else y = y

-- What `==` of the code asks of a type of values, and that it answers truly.
pub record Eq {κ} (V : Type κ) : Type κ where
  pub same : V → V → Bool
  pub decides : (v w : V) → (v ≡ w) ↔ (same v w ≡ true)

infix 50 ◌==◌
abbrev pub ◌==◌ {κ} : {V : Type κ} → ⦃eq : Eq V⦄ → (v w : V) → Bool
◌==◌ ⦃eq⦄ v w = eq.same v w

pub nat_decides : (m n : ℕ) → (m ≡ n) ↔ (nat_beq m n ≡ true)
nat_decides m n = ground arith

instance abbrev pub nat_eq : Eq ℕ
nat_eq = record { same = nat_beq; decides = nat_decides }

pub text_decides : (s t : String) → (s ≡ t) ↔ (text_beq s t ≡ true)
text_decides s t = ((text_beq_iff s t).1, (text_beq_iff s t).0)

instance abbrev pub text_eq : Eq String
text_eq = record { same = text_beq; decides = text_decides }

-- `x is not None`
abbrev pub is_some {ℓ} : {A : Type ℓ} → Option A → Bool
is_some none = false
is_some (some a) = true

-- `o == some a`, for a column that may be NULL.
abbrev pub holds : Key → Option Key → Bool
holds k none = false
holds k (some j) = nat_beq k j

pub Bool-cases : (b : Bool) → (b ≡ true) ⊎ (b ≡ false)
Bool-cases true = inl refl
Bool-cases false = inr refl

pub Option-cases {ℓ} : {A : Type ℓ} (o : Option A) → (o ≡ none) ⊎ ((a : A) × (o ≡ some a))
Option-cases none = inl refl
Option-cases (some a) = inr (a, refl)

pub and-true : (a b : Bool) → (a && b) ≡ true → (a ≡ true) × (b ≡ true)
and-true a b h = ground arith
