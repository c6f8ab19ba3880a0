-- ===== src/Common/Sieves.antt =====
-- Relations that say which elements of a list are left out, and whether a text is one of a few.
use Prim.Native.String.{String}
use mathlib.Core.Path.{◌≡◌, refl}
use mathlib.Core.Logic.{◌≢◌, ◌⊎◌, inl, inr}
use mathlib.Core.Bool.{Bool, true, false, ◌||◌}
use mathlib.Core.List.{List, [], ◌∷◌}
use native.Mathlib.Omega.{arith}
use text.Mathlib.Text.{◌==◌ as str_eq}
use text.Mathlib.TextEquality.{eq_iff as str_eq_iff}
use realy_code.Common.Tests.{Bool-cases, if◌then◌else◌}
use realy_code.Common.Lists.{keep_if}

-- the text is one of these
abbrev pub Listed : String → List String → Type 0
Listed s [] = ⊥
Listed s (x ∷ xs) = (s ≡ x) ⊎ Listed s xs

-- the text is none of these
abbrev pub NotListed : String → List String → Type 0
NotListed s [] = Unit
NotListed s (x ∷ xs) = (s ≢ x) × NotListed s xs

abbrev pub is_among : String → List String → Bool
is_among s [] = false
is_among s (x ∷ xs) = str_eq s x || is_among s xs

pub is_among-Listed : (s : String) (xs : List String) → is_among s xs ≡ true → Listed s xs
is_among-Listed s [] h = absurd (cc)
is_among-Listed s (x ∷ xs) h = elim (Bool-cases (str_eq s x)) [
  | inl same ↦ inl ((str_eq_iff s x).0 same)
  | inr other ↦ inr (is_among-Listed s xs (ground arith))
]

differs : (s x : String) → str_eq s x ≡ false → s ≢ x
differs s x h = λ e. let same = (str_eq_iff s x).1 e in absurd (cc)

pub is_among-NotListed : (s : String) (xs : List String) → is_among s xs ≡ false → NotListed s xs
is_among-NotListed s [] h = tt
is_among-NotListed s (x ∷ xs) h =
    (differs s x (ground arith), is_among-NotListed s xs (ground arith))

-- The second list is the first without some of its elements, in the same order: `Keeps` holds of
-- those that are left and `Drops` of those that are not.
pub data Sieved {A : Type 0} (Keeps Drops : A → Type 0) : List A → List A → Type 0 where
  all_seen : Sieved Keeps Drops [] []
  kept :
      {x : A} {xs ys : List A}
      → Keeps x
      → Sieved Keeps Drops xs ys
      → Sieved Keeps Drops (x ∷ xs) (x ∷ ys)
  dropped :
      {x : A} {xs ys : List A} → Drops x → Sieved Keeps Drops xs ys → Sieved Keeps Drops (x ∷ xs) ys

module _ {A : Type 0} {Keeps Drops : A → Type 0} (p : A → Bool) where
  by_test :
      {x : A} {xs ys : List A} (b : Bool)
      → (b ≡ true → Keeps x)
      → (b ≡ false → Drops x)
      → Sieved Keeps Drops xs ys
      → Sieved Keeps Drops (x ∷ xs) (if b then x ∷ ys else ys)
  by_test true k d s = kept (k refl) s
  by_test false k d s = dropped (d refl) s

  pub keep_if-Sieved :
      ((x : A) → p x ≡ true → Keeps x)
      → ((x : A) → p x ≡ false → Drops x)
      → (xs : List A) → Sieved Keeps Drops xs (keep_if p xs)
  keep_if-Sieved k d [] = all_seen
  keep_if-Sieved k d (x ∷ xs) = by_test (p x) (k x) (d x) (keep_if-Sieved k d xs)
