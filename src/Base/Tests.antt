-- ===== src/Base/Tests.antt =====
-- Boolean tests: comparisons of native numbers, the conditional, and one equality test `==` for
-- every type of column that the program compares.
use Prim.Native.Nat.{ℕ, ◌≤◌, ◌<◌, compare, Ordering}
use Prim.Native.String.{String}
use mathlib.Core.Path.{◌≡◌, refl, ap}
use mathlib.Core.Logic.{◌↔◌, ◌⊎◌, inl, inr}
use mathlib.Core.Bool.{Bool, true, false, ◌&&◌}
use mathlib.Core.Option.{Option, none, some}
use native.Mathlib.Omega.{arith}
use text.Mathlib.Text.{◌==◌ as str_eq}
use text.Mathlib.TextEquality.{eq_iff}

abbrev pub ltb : ℕ → ℕ → Bool
ltb a b = elim (compare a b) [ Ordering.lt ↦ true | _ ↦ false ]

abbrev pub leb : ℕ → ℕ → Bool
leb a b = elim (compare a b) [ Ordering.gt ↦ false | _ ↦ true ]

abbrev pub nat_beq : ℕ → ℕ → Bool
nat_beq a b = elim (compare a b) [ Ordering.eq ↦ true | _ ↦ false ]

infix 1 if◌then◌else◌
abbrev pub if◌then◌else◌ {ℓ} : {A : Type ℓ} → Bool → A → A → A
if true then x else y = x
if false then x else y = y

pub ltb→lt : (a b : ℕ) → ltb a b ≡ true → a < b
ltb→lt a b h = ground arith

pub lt→ltb : (a b : ℕ) → a < b → ltb a b ≡ true
lt→ltb a b h = ground arith

pub leb→le : (a b : ℕ) → leb a b ≡ true → a ≤ b
leb→le a b h = ground arith

pub nat_beq_iff : (a b : ℕ) → (nat_beq a b ≡ true) ↔ (a ≡ b)
nat_beq_iff a b = ground arith

-- To split on a computed value and keep the equation.
pub Bool-cases : (b : Bool) → (b ≡ true) ⊎ (b ≡ false)
Bool-cases true = inl refl
Bool-cases false = inr refl

pub Option-cases {ℓ} : {A : Type ℓ} (o : Option A) → (o ≡ none) ⊎ ((a : A) × (o ≡ some a))
Option-cases none = inl refl
Option-cases (some a) = inr (a, refl)

-- A type with a Boolean equality test.
pub record HasEq {ℓ} (A : Type ℓ) : Type ℓ where
  pub eqb : A → A → Bool
  pub eqb_iff : (a b : A) → (eqb a b ≡ true) ↔ (a ≡ b)

infix 50 ◌==◌
abbrev pub ◌==◌ {ℓ} : {A : Type ℓ} ⦃e : HasEq A⦄ → A → A → Bool
◌==◌ ⦃e⦄ = e.eqb

instance abbrev pub nat_eq : HasEq ℕ
nat_eq = record { eqb = nat_beq; eqb_iff = nat_beq_iff }

instance abbrev pub string_eq : HasEq String
string_eq = record { eqb = str_eq; eqb_iff = eq_iff }

abbrev pub pair_beq : ℕ × ℕ → ℕ × ℕ → Bool
pair_beq (a, b) (c, d) = nat_beq a c && nat_beq b d

pub pair_beq_iff : (k l : ℕ × ℕ) → (pair_beq k l ≡ true) ↔ (k ≡ l)
pair_beq_iff (a, b) (c, d) = (
  (λ h. let first : a ≡ c = ground (arith, h) in let second : b ≡ d = ground (arith, h) in cc),
  λ e.
      let first : a ≡ c = ap (λ k. k.0) e in
      let second : b ≡ d = ap (λ k. k.1) e in ground (arith, first, second),
)

instance abbrev pub pair_eq : HasEq (ℕ × ℕ)
pair_eq = record { eqb = pair_beq; eqb_iff = pair_beq_iff }

-- SQL's `=` on a nullable column against a value that is not NULL.
abbrev pub is_some_of {ℓ} : {A : Type ℓ} ⦃e : HasEq A⦄ → Option A → A → Bool
is_some_of none b = false
is_some_of ⦃e⦄ (some a) b = e.eqb a b
