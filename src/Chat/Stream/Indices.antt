-- ===== src/Chat/Stream/Indices.antt =====
-- The indices of the collected tool calls, as `sort.Ints` of chat.go orders them, and the tracks under them.
use realy_code.Common.{
  ℤ, pos, negsuc, ◌==ℤ◌, ==ℤ_iff, Bool, true, false, not, ◌&&◌, ◌||◌, Option, none, some, List, [],
  ◌∷◌, map, ◌≡◌, refl, ◌∙◌, arith, any_of, if◌then◌else◌,
}
use realy_code.Chat.Stream.{ToolTrack, track_at, put_track, at_most, insert_index, sort_ints}

abbrev pub among : ℤ → List ℤ → Bool
among i js = any_of (λ j. j ==ℤ i) js

among-insert_index : (i j : ℤ) (js : List ℤ) → among i (insert_index j js) ≡ (j ==ℤ i) || among i js
among-insert_index i j [] = refl
among-insert_index i j (k ∷ js) = ground (arith, among-insert_index i j js)

among-sort_ints : (i : ℤ) (js : List ℤ) → among i (sort_ints js) ≡ among i js
among-sort_ints i [] = refl
among-sort_ints i (j ∷ js) =
    ground (arith, among-insert_index i j (sort_ints js), among-sort_ints i js)

abbrev pub has_track : Option ToolTrack → Bool
has_track none = false
has_track (some t) = true

-- the keys of a map stand in it once
abbrev pub distinct : List ℤ → Bool
distinct [] = true
distinct (i ∷ is) = not (among i is) && distinct is

abbrev below : ℤ → ℤ → Bool
below i j = not (at_most j i)

-- `i` is below each of them
abbrev pub below_all : ℤ → List ℤ → Bool
below_all i [] = true
below_all i (j ∷ js) = below i j && below_all i js

-- each index is below those behind it
abbrev pub ascending : List ℤ → Bool
ascending [] = true
ascending (i ∷ is) = below_all i is && ascending is

below_next : (i j : ℤ) → at_most i j ≡ true → (j ==ℤ i) ≡ false → below i j ≡ true
below_next (pos a) (pos b) h n = ground arith
below_next (pos a) (negsuc b) h n = absurd (cc)
below_next (negsuc a) (pos b) h n = refl
below_next (negsuc a) (negsuc b) h n = ground arith

below_trans : (i j k : ℤ) → below i j ≡ true → below j k ≡ true → below i k ≡ true
below_trans (pos a) (pos b) (pos c) h g = ground arith
below_trans (pos a) (pos b) (negsuc c) h g = absurd (cc)
below_trans (pos a) (negsuc b) k h g = absurd (cc)
below_trans (negsuc a) (pos b) (pos c) h g = refl
below_trans (negsuc a) (pos b) (negsuc c) h g = absurd (cc)
below_trans (negsuc a) (negsuc b) (pos c) h g = refl
below_trans (negsuc a) (negsuc b) (negsuc c) h g = ground arith

below_differ : (i j : ℤ) → below i j ≡ true → (j ==ℤ i) ≡ false
below_differ (pos a) (pos b) h = ground arith
below_differ (pos a) (negsuc b) h = refl
below_differ (negsuc a) (pos b) h = refl
below_differ (negsuc a) (negsuc b) h = ground arith

below_all_trans :
    (i j : ℤ) (js : List ℤ) → below i j ≡ true → below_all j js ≡ true → below_all i js ≡ true
below_all_trans i j [] h g = refl
below_all_trans i j (k ∷ ks) h g = ground (arith, below_trans i j k, below_all_trans i j ks)

pub below_all_apart : (i : ℤ) (js : List ℤ) → below_all i js ≡ true → among i js ≡ false
below_all_apart i [] h = refl
below_all_apart i (j ∷ js) h = ground (arith, below_differ i j, below_all_apart i js)

below_all-insert_index :
    (k i : ℤ) (js : List ℤ) → below_all k (insert_index i js) ≡ (below k i && below_all k js)
below_all-insert_index k i [] = refl
below_all-insert_index k i (j ∷ js) = ground (arith, below_all-insert_index k i js)

ascending-insert_index :
    (i : ℤ) (js : List ℤ)
    → ascending js ≡ true
    → among i js ≡ false
    → ascending (insert_index i js) ≡ true
ascending-insert_index i [] h n = refl
ascending-insert_index i (j ∷ js) h n = ground (
  arith,
  ascending-insert_index i js,
  below_all-insert_index j i js,
  below_next i j,
  below_all_trans i j js,
)

ascending-sort_ints : (js : List ℤ) → distinct js ≡ true → ascending (sort_ints js) ≡ true
ascending-sort_ints [] h = refl
ascending-sort_ints (j ∷ js) h =
    ascending-insert_index j (sort_ints js) (ascending-sort_ints js (ground arith))
      (among-sort_ints j js ∙ ground arith)

pub track_at-among :
    (i : ℤ) (tools : List (ℤ × ToolTrack))
    → among i (map (λ entry. entry.0) tools) ≡ has_track (track_at i tools)
track_at-among i [] = refl
track_at-among i ((j, u) ∷ tools) = ground (arith, track_at-among i tools)

pub track_at-put_track :
    (i j : ℤ) (u : ToolTrack) (tools : List (ℤ × ToolTrack))
    → track_at i (put_track j u tools) ≡ (if j ==ℤ i then some u else track_at i tools)
track_at-put_track i j u [] = refl
track_at-put_track i j u ((k, t) ∷ tools) =
    ground (arith, track_at-put_track i j u tools, ==ℤ_iff k j, ==ℤ_iff k i, ==ℤ_iff j i)

-- The indices that have a track, each once and in their order.
pub record IsSweep (tools : List (ℤ × ToolTrack)) (is : List ℤ) : Type 0 where
  pub in_order : ascending is ≡ true
  pub complete : (k : ℤ) → among k is ≡ has_track (track_at k tools)

pub sort_ints-IsSweep :
    (tools : List (ℤ × ToolTrack))
    → distinct (map (λ entry. entry.0) tools) ≡ true
    → IsSweep tools (sort_ints (map (λ entry. entry.0) tools))
sort_ints-IsSweep tools h = record {
  in_order = ascending-sort_ints (map (λ entry. entry.0) tools) h;
  complete = λ k. among-sort_ints k (map (λ entry. entry.0) tools) ∙ track_at-among k tools;
}
