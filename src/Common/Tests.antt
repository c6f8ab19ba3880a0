-- ===== src/Common/Tests.antt =====
-- Boolean tests on numbers and texts, the conditional, and case splits that keep the equation.
use Prim.Native.Nat.{ℕ, ◌≤◌, compare, Ordering}
use mathlib.Core.Path.{◌≡◌, refl}
use mathlib.Core.Logic.{◌⊎◌, inl, inr}
use mathlib.Core.Bool.{Bool, true, false}
use mathlib.Core.Option.{Option, none, some}
use native.Mathlib.Omega.{arith}

abbrev pub ltb : ℕ → ℕ → Bool
ltb a b = elim (compare a b) [ Ordering.lt ↦ true | _ ↦ false ]

abbrev pub leb : ℕ → ℕ → Bool
leb a b = elim (compare a b) [ Ordering.gt ↦ false | _ ↦ true ]

infix 50 ◌==◌
abbrev pub ◌==◌ : ℕ → ℕ → Bool
a == b = elim (compare a b) [ Ordering.eq ↦ true | _ ↦ false ]

infix 1 if◌then◌else◌
abbrev pub if◌then◌else◌ {ℓ} : {A : Type ℓ} → Bool → A → A → A
if true then x else y = x
if false then x else y = y

pub Bool-cases : (b : Bool) → (b ≡ true) ⊎ (b ≡ false)
Bool-cases true = inl refl
Bool-cases false = inr refl

pub Option-cases {ℓ} : {A : Type ℓ} (o : Option A) → (o ≡ none) ⊎ ((a : A) × (o ≡ some a))
Option-cases none = inl refl
Option-cases (some a) = inr (a, refl)

-- the number of a test: 1 if it passes
abbrev pub bit : Bool → ℕ
bit true = 1
bit false = 0

-- What both branches have, under their tests, the conditional has.
pub if_cases {ℓ κ} :
    {A : Type ℓ} {x y : A} (P : A → Type κ) (t : Bool)
    → (t ≡ true → P x)
    → (t ≡ false → P y)
    → P (if t then x else y)
if_cases P true h k = h refl
if_cases P false h k = k refl

pub if_true {ℓ} : {A : Type ℓ} {x : A} (y : A) {t : Bool} → t ≡ true → (if t then x else y) ≡ x
if_true y h = rw h

pub if_false {ℓ} : {A : Type ℓ} (x : A) {y : A} {t : Bool} → t ≡ false → (if t then x else y) ≡ y
if_false x h = rw h

pub bit_le_one : (b : Bool) → bit b ≤ 1
bit_le_one true = omega arith
bit_le_one false = omega arith
