-- ===== src/Native/Tracker/Numbers.antt =====
-- Bounds of lists of block numbers, for `maxIndex` and `NextIndex` of tracker.go.
use realy_code.Common.{
  zero, suc, ℤ, pos, negsuc, ◌+ℤ◌, Bool, true, false, not, ◌&&◌, List, [], ◌∷◌, ◌++◌, ◌≡◌, refl,
  arith,
}
use realy_code.Native.Tracker.{gtℤ}

gtℤ_irrefl : (i : ℤ) → gtℤ i i ≡ false
gtℤ_irrefl (pos n) = ground arith
gtℤ_irrefl (negsuc n) = ground arith

gtℤ_below : (k i m : ℤ) → gtℤ k m ≡ false → gtℤ i m ≡ true → gtℤ k i ≡ false
gtℤ_below (pos a) (pos b) (pos c) h g = ground arith
gtℤ_below (pos a) (pos b) (negsuc c) h g = absurd (cc)
gtℤ_below (pos a) (negsuc b) (pos c) h g = absurd (cc)
gtℤ_below (pos a) (negsuc b) (negsuc c) h g = absurd (cc)
gtℤ_below (negsuc a) (pos b) m h g = refl
gtℤ_below (negsuc a) (negsuc b) (pos c) h g = absurd (cc)
gtℤ_below (negsuc a) (negsuc b) (negsuc c) h g = ground arith

gtℤ_next : (m i : ℤ) → gtℤ i m ≡ false → gtℤ (m +ℤ pos 1) i ≡ true
unfolding ◌+ℤ◌
gtℤ_next (pos a) (pos b) h = ground arith
gtℤ_next (pos a) (negsuc b) h = ground arith
gtℤ_next (negsuc a) (pos b) h = absurd (cc)
gtℤ_next (negsuc zero) (negsuc b) h = ground arith
gtℤ_next (negsuc (suc a)) (negsuc b) h = ground arith

-- no number is above `m`
abbrev pub up_to : ℤ → List ℤ → Bool
up_to m [] = true
up_to m (i ∷ is) = not (gtℤ i m) && up_to m is

pub up_to-grow :
    (m i : ℤ) (is : List ℤ) → gtℤ i m ≡ true → up_to m is ≡ true → up_to i (is ++ (i ∷ [])) ≡ true
up_to-grow m i [] g h = ground (arith, gtℤ_irrefl i)
up_to-grow m i (k ∷ ks) g h = ground (arith, up_to-grow m i ks, gtℤ_below k i m)

pub up_to-keep :
    (m i : ℤ) (is : List ℤ) → gtℤ i m ≡ false → up_to m is ≡ true → up_to m (is ++ (i ∷ [])) ≡ true
up_to-keep m i [] g h = ground arith
up_to-keep m i (k ∷ ks) g h = ground (arith, up_to-keep m i ks)

-- all numbers are below `n`
abbrev pub all_below : ℤ → List ℤ → Bool
all_below n [] = true
all_below n (i ∷ is) = gtℤ n i && all_below n is

pub all_below-next : (m : ℤ) (is : List ℤ) → up_to m is ≡ true → all_below (m +ℤ pos 1) is ≡ true
all_below-next m [] h = refl
all_below-next m (i ∷ is) h = ground (arith, all_below-next m is, gtℤ_next m i)
