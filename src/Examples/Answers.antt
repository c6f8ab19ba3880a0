-- ===== src/Examples/Answers.antt =====
-- An answer with a tag that is cut in two.
use realy_code.Common.{List, [], ◌∷◌, ◌≡◌, refl}
use realy_code.Streams.Bytes.{Bytes}
use realy_code.Streams.Think.{
  feed, feed_loop, parse_step, parse_inside, parse_outside, text_chunk, thinking_chunk,
}
use realy_code.Streams.Think.Feeding.{new_parser, feed_pieces}

-- a<thi and nk>b</think>c
abbrev pieces : List Bytes
pieces =
    (97 ∷ 60 ∷ 116 ∷ 104 ∷ 105 ∷ [])
    ∷ (110 ∷ 107 ∷ 62 ∷ 98 ∷ 60 ∷ 47 ∷ 116 ∷ 104 ∷ 105 ∷ 110 ∷ 107 ∷ 62 ∷ 99 ∷ [])
    ∷ []

pieces_chunks :
    (feed_pieces new_parser pieces).chunks
    ≡ record { kind = text_chunk; content = 97 ∷ [] }
      ∷ record { kind = thinking_chunk; content = 98 ∷ [] }
      ∷ record { kind = text_chunk; content = 99 ∷ [] }
      ∷ []
unfolding feed_pieces feed feed_loop parse_step parse_inside parse_outside
pieces_chunks = refl
