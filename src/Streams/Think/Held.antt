-- ===== src/Streams/Think/Held.antt =====
-- How much the parser of thinking.go holds back.
use realy_code.Common.{
  ℕ, zero, suc, ◌+◌, ◌≤◌, ◌<◌, Bool, true, false, ◌||◌, Option, none, some, [], ◌∷◌, ◌==◌, ltb,
  drop, length, ◌≡◌, ◌⊎◌, inl, inr, arith, if_cases, length-drop,
}
use realy_code.Streams.Bytes.{Bytes, is_nil, index_of, last_index}
use realy_code.Streams.Think.{
  ChunkKind, text_chunk, thinking_chunk, open_think_tag, close_think_tag, Step, hold, may_become,
  partial_at, partial_tag_start, outside_at, parse_outside, partial_close, inside_at, parse_inside,
  Fed, parse_step, feed_loop,
}

-- A step leaves no more than it took, and it leaves less, or fewer bytes than a tag has.
abbrev IsShort : Bytes → Bytes → Type 0
IsShort s q = (length q ≤ length s) × ((length q < 8) ⊎ (length q < length s))

not_nil : (s : Bytes) → is_nil s ≡ false → 0 < length s
not_nil [] h = absurd (cc)
not_nil (x ∷ xs) h = omega arith

drop-IsShort : (s : Bytes) (n : ℕ) → is_nil s ≡ false → 0 < n → IsShort s (drop n s)
drop-IsShort s n h pos_n =
    (omega (arith, length-drop n s), inr (omega (arith, length-drop n s, not_nil s h)))

-- what a held-back part has
abbrev IsTail : Bytes → Option ℕ → Type 0
IsTail s none = Unit
IsTail s (some i) = length (drop i s) < 8

partial_at-IsTail : (s : Bytes) (o : Option ℕ) → IsTail s (partial_at s o)
partial_at-IsTail s none = tt
partial_at-IsTail s (some i) =
    if_cases (IsTail s)
      (may_become open_think_tag (drop i s) || may_become close_think_tag (drop i s))
      (λ h. ground arith) (λ h. tt)

partial_close-IsTail : (s : Bytes) (o : Option ℕ) → IsTail s (partial_close s o)
partial_close-IsTail s none = tt
partial_close-IsTail s (some i) =
    if_cases (IsTail s) (may_become close_think_tag (drop i s)) (λ h. ground arith) (λ h. tt)

hold-IsShort :
    (kind : ChunkKind) (b : Bool) (s : Bytes) (o : Option ℕ)
    → IsTail s o
    → IsShort s (hold kind b s o).parser.buffer
hold-IsShort kind b s none h = (omega arith, inl (omega arith))
hold-IsShort kind b s (some i) h = (omega (arith, length-drop i s), inl h)

outside_at-IsShort :
    (s : Bytes) (i o : Option ℕ) → is_nil s ≡ false → IsShort s (outside_at s i o).parser.buffer
outside_at-IsShort s none none h =
    hold-IsShort text_chunk false s (partial_tag_start s) (partial_at-IsTail s (last_index 60 s))
outside_at-IsShort s none (some o) h = drop-IsShort s (o + 8) h (omega arith)
outside_at-IsShort s (some i) none h = drop-IsShort s (i + 7) h (omega arith)
outside_at-IsShort s (some i) (some o) h =
    if_cases (λ (step : Step). IsShort s step.parser.buffer) (ltb o i)
      (λ t. drop-IsShort s (o + 8) h (omega arith)) (λ t. drop-IsShort s (i + 7) h (omega arith))

inside_at-IsShort :
    (s : Bytes) (i : Option ℕ) → is_nil s ≡ false → IsShort s (inside_at s i).parser.buffer
inside_at-IsShort s none h =
    hold-IsShort thinking_chunk true s (partial_close s (last_index 60 s))
      (partial_close-IsTail s (last_index 60 s))
inside_at-IsShort s (some i) h = drop-IsShort s (i + 8) h (omega arith)

parse_step-IsShort :
    (b : Bool) (s : Bytes)
    → is_nil s ≡ false
    → IsShort s (parse_step (record { buffer = s; in_tag = b })).parser.buffer
unfolding parse_step parse_outside parse_inside
parse_step-IsShort true s h = inside_at-IsShort s (index_of s close_think_tag) h
parse_step-IsShort false s h =
    outside_at-IsShort s (index_of s open_think_tag) (index_of s close_think_tag) h

nil_short : (s : Bytes) → is_nil s ≡ true → length s < 8
nil_short [] h = omega arith
nil_short (x ∷ xs) h = absurd (cc)

-- With more fuel than the buffer has bytes, the loop ends by itself.
pub feed_loop_held :
    (n : ℕ) (b : Bool) (s : Bytes)
    → length s < n
    → length (feed_loop n (record { buffer = s; in_tag = b })).parser.buffer < 8
unfolding feed_loop
feed_loop_held zero b s enough = absurd (omega arith)
feed_loop_held (suc n) b s enough =
    let step = parse_step (record { buffer = s; in_tag = b }) in
    if_cases (λ (f : Fed). length f.parser.buffer < 8) (is_nil s) (λ h. nil_short s h)
      (λ h.
        if_cases (λ (f : Fed). length f.parser.buffer < 8) (length step.parser.buffer == length s)
          (λ t. ground (arith, parse_step-IsShort b s h))
          (λ t.
            feed_loop_held n step.parser.in_tag step.parser.buffer
              (ground (arith, parse_step-IsShort b s h))))
