-- ===== src/Streams/Bytes.antt =====
-- Go strings as lists of bytes, and the functions of `strings` that internal/streamparse calls.
use realy_code.Common.{
  ℕ, zero, suc, ◌+◌, ◌≤◌, Bool, true, false, ◌&&◌, Option, none, some, List, [], ◌∷◌, ◌++◌, ◌==◌,
  take, drop, length, ◌≡◌, refl, ap, ◌∙◌, arith, if◌then◌else◌,
}

abbrev pub Bytes : Type 0
Bytes = List ℕ

abbrev pub is_nil : Bytes → Bool
is_nil [] = true
is_nil (x ∷ xs) = false

-- `strings.HasPrefix`
abbrev pub has_prefix : Bytes → Bytes → Bool
has_prefix s [] = true
has_prefix [] (t ∷ ts) = false
has_prefix (x ∷ xs) (t ∷ ts) = (x == t) && has_prefix xs ts

abbrev one_more : Option ℕ → Option ℕ
one_more none = none
one_more (some i) = some (suc i)

-- `strings.Index`, for a text that is not empty
abbrev pub index_of : Bytes → Bytes → Option ℕ
index_of [] t = none
index_of (x ∷ xs) t =
    let later = index_of xs t in if has_prefix (x ∷ xs) t then some 0 else one_more later

-- `strings.LastIndex` for one byte
abbrev pub last_index : ℕ → Bytes → Option ℕ
last_index c [] = none
last_index c (x ∷ xs) = elim (last_index c xs) [
  | some i ↦ some (suc i)
  | none ↦ if x == c then some 0 else none
]

pub has_prefix-drop : (s t : Bytes) → has_prefix s t ≡ true → t ++ drop (length t) s ≡ s
has_prefix-drop s [] h = refl
has_prefix-drop [] (t ∷ ts) h = absurd (cc)
has_prefix-drop (x ∷ xs) (t ∷ ts) h = grind (arith, has_prefix-drop xs ts)

found_here : (b : Bool) (o : Option ℕ) → (if b then some 0 else one_more o) ≡ some 0 → b ≡ true
found_here true o h = refl
found_here false none h = absurd (cc)
found_here false (some j) h = absurd (grind arith)

found_later :
    (b : Bool) (o : Option ℕ) (j : ℕ)
    → (if b then some 0 else one_more o) ≡ some (suc j)
    → o ≡ some j
found_later true o j h = absurd (grind arith)
found_later false none j h = absurd (cc)
found_later false (some i) j h = grind arith

zero_add : (n : ℕ) → 0 + n ≡ n
zero_add n = omega arith

suc_add : (m n : ℕ) → suc m + n ≡ suc (m + n)
suc_add m n = omega arith

-- Where a text is found, it stands between what is before and what is behind.
pub index_of-drop :
    (s t : Bytes) (i : ℕ) → index_of s t ≡ some i → take i s ++ (t ++ drop (i + length t) s) ≡ s
index_of-drop [] t i h = absurd (cc)
index_of-drop (x ∷ xs) t zero h =
    ap (λ n. t ++ drop n (x ∷ xs)) (zero_add (length t))
    ∙ has_prefix-drop (x ∷ xs) t (found_here (has_prefix (x ∷ xs) t) (index_of xs t) h)
index_of-drop (x ∷ xs) t (suc j) h =
    ap (λ n. x ∷ (take j xs ++ (t ++ drop n (x ∷ xs)))) (suc_add j (length t))
    ∙ ap (λ ys. x ∷ ys)
        (index_of-drop xs t j (found_later (has_prefix (x ∷ xs) t) (index_of xs t) j h))

pub length-drop_le : (n : ℕ) (s : Bytes) → length (drop n s) ≤ length s
length-drop_le zero s = omega arith
length-drop_le (suc n) [] = omega arith
length-drop_le (suc n) (x ∷ xs) = omega (arith, length-drop_le n xs)
