-- ===== src/Streams/Think.antt =====
-- internal/streamparse/thinking.go: `ThinkTagParser`, which parts the thinking between the tags <think>
-- and </think> from the text around it, while the answer arrives in pieces.
pub mod Kept
pub mod Held
pub mod Feeding
use realy_code.Common.{
  ℕ, zero, suc, ◌+◌, ◌-◌, Bool, true, false, ◌&&◌, ◌||◌, Option, none, some, List, [], ◌∷◌, ◌++◌,
  ◌==◌, ltb, take, drop, length, if◌then◌else◌,
}
use realy_code.Streams.Bytes.{Bytes, is_nil, has_prefix, index_of, last_index}

pub data ChunkKind : Type 0 where
  text_chunk thinking_chunk : ChunkKind

pub record Chunk : Type 0 where
  pub kind : ChunkKind
  pub content : Bytes

pub record ThinkTagParser : Type 0 where
  pub buffer : Bytes
  pub in_tag : Bool

-- <think> and </think>
abbrev pub open_think_tag : Bytes
open_think_tag = 60 ∷ 116 ∷ 104 ∷ 105 ∷ 110 ∷ 107 ∷ 62 ∷ []

abbrev pub close_think_tag : Bytes
close_think_tag = 60 ∷ 47 ∷ 116 ∷ 104 ∷ 105 ∷ 110 ∷ 107 ∷ 62 ∷ []

-- what one call of `parseOutside` or `parseInside` gives
pub record Step : Type 0 where
  pub chunk : Chunk
  pub parser : ThinkTagParser

-- a chunk up to a tag at `i`, and the rest behind the tag
abbrev pub cut : ChunkKind → Bool → Bytes → Bytes → ℕ → Step
cut kind in_tag tag s i = record {
  chunk = record { kind = kind; content = take i s };
  parser = record { buffer = drop (i + length tag) s; in_tag = in_tag };
}

-- a chunk up to what may be the beginning of a tag, which is held back
abbrev pub hold : ChunkKind → Bool → Bytes → Option ℕ → Step
hold kind in_tag s (some i) = record {
  chunk = record { kind = kind; content = take i s };
  parser = record { buffer = drop i s; in_tag = in_tag };
}
hold kind in_tag s none = record {
  chunk = record { kind = kind; content = s };
  parser = record { buffer = []; in_tag = in_tag };
}

abbrev pub may_become : Bytes → Bytes → Bool
may_become tag tail = ltb (length tail) (length tag) && has_prefix tag tail

abbrev pub partial_at : Bytes → Option ℕ → Option ℕ
partial_at s none = none
partial_at s (some i) =
    if may_become open_think_tag (drop i s) || may_become close_think_tag (drop i s)
    then some i
    else none

-- `none` where the code returns -1
abbrev pub partial_tag_start : Bytes → Option ℕ
partial_tag_start s = partial_at s (last_index 60 s)

abbrev pub outside_at : Bytes → Option ℕ → Option ℕ → Step
outside_at s none none = hold text_chunk false s (partial_tag_start s)
outside_at s none (some o) = cut text_chunk false close_think_tag s o
outside_at s (some i) none = cut text_chunk true open_think_tag s i
outside_at s (some i) (some o) =
    if ltb o i
    then cut text_chunk false close_think_tag s o
    else cut text_chunk true open_think_tag s i

unfoldable pub parse_outside : Bytes → Step
parse_outside s = outside_at s (index_of s open_think_tag) (index_of s close_think_tag)

abbrev pub partial_close : Bytes → Option ℕ → Option ℕ
partial_close s none = none
partial_close s (some i) = if may_become close_think_tag (drop i s) then some i else none

abbrev pub inside_at : Bytes → Option ℕ → Step
inside_at s none = hold thinking_chunk true s (partial_close s (last_index 60 s))
inside_at s (some i) = cut thinking_chunk false close_think_tag s i

unfoldable pub parse_inside : Bytes → Step
parse_inside s = inside_at s (index_of s close_think_tag)

-- the chunk is nil or empty, or it is appended
abbrev pub add_chunk : Chunk → List Chunk → List Chunk
add_chunk c cs = if is_nil c.content then cs else c ∷ cs

-- what `Feed` gives: the chunks, and the parser afterwards
pub record Fed : Type 0 where
  pub chunks : List Chunk
  pub parser : ThinkTagParser

unfoldable pub parse_step : ThinkTagParser → Step
unfolding parse_outside parse_inside
parse_step p = if p.in_tag then parse_inside p.buffer else parse_outside p.buffer

-- the loop of `Feed`, on fuel
unfoldable pub feed_loop : ℕ → ThinkTagParser → Fed
unfolding parse_step
feed_loop zero p = record { chunks = []; parser = p }
feed_loop (suc n) p =
    let step = parse_step p in
    let later = feed_loop n step.parser in
    if is_nil p.buffer
    then record { chunks = []; parser = p }
    else if length step.parser.buffer == length p.buffer
    then record { chunks = add_chunk step.chunk []; parser = step.parser }
    else record { chunks = add_chunk step.chunk later.chunks; parser = later.parser }

-- `Feed`: each turn of the loop but the last shortens the buffer, so its length is fuel enough.
unfoldable pub feed : ThinkTagParser → Bytes → Fed
unfolding feed_loop
feed p content =
    let buffer = p.buffer ++ content in
    feed_loop (suc (length buffer)) (record p { buffer = buffer })

-- `Flush`: `none` where the code returns nil
unfoldable pub flush : ThinkTagParser → Option Chunk × ThinkTagParser
flush p = if is_nil p.buffer then (none, p) else (
  some (record { kind = if p.in_tag then thinking_chunk else text_chunk; content = p.buffer }),
  record p { buffer = [] },
)
