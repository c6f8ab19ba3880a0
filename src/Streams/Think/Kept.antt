-- ===== src/Streams/Think/Kept.antt =====
-- What the parser of thinking.go keeps of its input, and how much it holds back.
use realy_code.Common.{
  ℕ, zero, suc, Bool, true, false, Option, none, some, List, [], ◌∷◌, ◌++◌, ◌==◌, ltb, take, drop,
  length, ◌≡◌, refl, ap, if_cases, take-append-drop,
}
use mathlib.Core.Path.{subst}
use realy_code.Streams.Bytes.{Bytes, is_nil, index_of, last_index, index_of-drop}
use realy_code.Streams.Think.{
  ChunkKind, text_chunk, thinking_chunk, Chunk, open_think_tag, close_think_tag, Step, cut, hold,
  partial_tag_start, outside_at, parse_outside, partial_close, inside_at, parse_inside, add_chunk,
  Fed, parse_step, feed_loop,
}

abbrev pub kind_of : Bool → ChunkKind
kind_of true = thinking_chunk
kind_of false = text_chunk

-- How an input may be parted, apart from the code that does it: text outside of the tags and thinking
-- inside, in order; only tags are left out, and a tag that closes nothing; the last bytes are left.
pub data Parted : Bool → Bytes → List Chunk → Bool → Bytes → Type 0 where
  left : {b : Bool} {s : Bytes} → Parted b s [] b s
  kept :
      {b b' : Bool} {s r : Bytes} {cs : List Chunk} (content : Bytes)
      → Parted b s cs b' r
      → Parted b (content ++ s) (record { kind = kind_of b; content = content } ∷ cs) b' r
  opened :
      {b' : Bool} {s r : Bytes} {cs : List Chunk}
      → Parted true s cs b' r
      → Parted false (open_think_tag ++ s) cs b' r
  closed :
      {b b' : Bool} {s r : Bytes} {cs : List Chunk}
      → Parted false s cs b' r
      → Parted b (close_think_tag ++ s) cs b' r

-- a chunk that is empty is not there
Parted-add_chunk :
    (b b' : Bool) (content s r : Bytes) (cs : List Chunk)
    → Parted b s cs b' r
    → Parted b (content ++ s) (add_chunk (record { kind = kind_of b; content = content }) cs) b' r
Parted-add_chunk b b' [] s r cs d = d
Parted-add_chunk b b' (x ∷ xs) s r cs d = kept (x ∷ xs) d

pub append_nil : (s : Bytes) → s ++ [] ≡ s
append_nil [] = refl
append_nil (x ∷ xs) = ap (λ ys. x ∷ ys) (append_nil xs)

-- What follows a step, whatever comes of the rest, follows from its input.
abbrev IsSound : Bool → Bytes → Step → Type 0
IsSound b s step =
    (cs : List Chunk) (b' : Bool) (r : Bytes)
    → Parted step.parser.in_tag step.parser.buffer cs b' r
    → Parted b s (add_chunk step.chunk cs) b' r

cut-close_IsSound :
    (b : Bool) (s : Bytes) (i : ℕ)
    → index_of s close_think_tag ≡ some i
    → IsSound b s (cut (kind_of b) false close_think_tag s i)
cut-close_IsSound b s i h cs b' r d =
    subst (λ t. Parted b t (add_chunk (record { kind = kind_of b; content = take i s }) cs) b' r)
      (index_of-drop s close_think_tag i h) (Parted-add_chunk b b' (take i s) _ r cs (closed d))

cut-open_IsSound :
    (s : Bytes) (i : ℕ)
    → index_of s open_think_tag ≡ some i
    → IsSound false s (cut text_chunk true open_think_tag s i)
cut-open_IsSound s i h cs b' r d =
    subst
      (λ t. Parted false t (add_chunk (record { kind = text_chunk; content = take i s }) cs) b' r)
      (index_of-drop s open_think_tag i h) (Parted-add_chunk false b' (take i s) _ r cs (opened d))

hold-IsSound : (b : Bool) (s : Bytes) (o : Option ℕ) → IsSound b s (hold (kind_of b) b s o)
hold-IsSound b s (some i) cs b' r d =
    subst (λ t. Parted b t (add_chunk (record { kind = kind_of b; content = take i s }) cs) b' r)
      (take-append-drop i s) (Parted-add_chunk b b' (take i s) (drop i s) r cs d)
hold-IsSound b s none cs b' r d =
    subst (λ t. Parted b t (add_chunk (record { kind = kind_of b; content = s }) cs) b' r)
      (append_nil s) (Parted-add_chunk b b' s [] r cs d)

outside_at-IsSound :
    (s : Bytes) (i o : Option ℕ)
    → index_of s open_think_tag ≡ i
    → index_of s close_think_tag ≡ o
    → IsSound false s (outside_at s i o)
outside_at-IsSound s none none p q = hold-IsSound false s (partial_tag_start s)
outside_at-IsSound s none (some o) p q = cut-close_IsSound false s o q
outside_at-IsSound s (some i) none p q = cut-open_IsSound s i p
outside_at-IsSound s (some i) (some o) p q =
    if_cases (IsSound false s) (ltb o i) (λ t. cut-close_IsSound false s o q)
      (λ t. cut-open_IsSound s i p)

inside_at-IsSound :
    (s : Bytes) (i : Option ℕ) → index_of s close_think_tag ≡ i → IsSound true s (inside_at s i)
inside_at-IsSound s none p = hold-IsSound true s (partial_close s (last_index 60 s))
inside_at-IsSound s (some i) p = cut-close_IsSound true s i p

parse_step-IsSound :
    (b : Bool) (s : Bytes) → IsSound b s (parse_step (record { buffer = s; in_tag = b }))
unfolding parse_step parse_outside parse_inside
parse_step-IsSound true s = inside_at-IsSound s (index_of s close_think_tag) refl
parse_step-IsSound false s =
    outside_at-IsSound s (index_of s open_think_tag) (index_of s close_think_tag) refl refl

pub feed_loop-Parted :
    (n : ℕ) (b : Bool) (s : Bytes)
    → Parted b s
        (feed_loop n (record { buffer = s; in_tag = b })).chunks
        (feed_loop n (record { buffer = s; in_tag = b })).parser.in_tag
        (feed_loop n (record { buffer = s; in_tag = b })).parser.buffer
unfolding feed_loop
feed_loop-Parted zero b s = left
feed_loop-Parted (suc n) b s =
    let step = parse_step (record { buffer = s; in_tag = b }) in
    if_cases (λ (f : Fed). Parted b s f.chunks f.parser.in_tag f.parser.buffer) (is_nil s)
      (λ h. left)
      (λ h.
        if_cases (λ (f : Fed). Parted b s f.chunks f.parser.in_tag f.parser.buffer)
          (length step.parser.buffer == length s)
          (λ t. parse_step-IsSound b s [] step.parser.in_tag step.parser.buffer left)
          (λ t.
            parse_step-IsSound b s _ _ _
              (feed_loop-Parted n step.parser.in_tag step.parser.buffer)))
