-- ===== src/Streams/Think/Feeding.antt =====
-- `Feed` of thinking.go on an answer that arrives in pieces.
use realy_code.Common.{false, Option, none, some, List, [], ◌∷◌, ◌++◌}
use realy_code.Streams.Bytes.{Bytes}
use realy_code.Streams.Think.{Chunk, ThinkTagParser, Fed, feed}

-- the parser after some pieces, and all chunks that it gave
unfoldable pub feed_pieces : ThinkTagParser → List Bytes → Fed
feed_pieces p [] = record { chunks = []; parser = p }
feed_pieces p (piece ∷ pieces) =
    let fed = feed p piece in
    let later = feed_pieces fed.parser pieces in
    record { chunks = fed.chunks ++ later.chunks; parser = later.parser }

abbrev pub whole : List Bytes → Bytes
whole [] = []
whole (piece ∷ pieces) = piece ++ whole pieces

abbrev pub new_parser : ThinkTagParser
new_parser = record { buffer = []; in_tag = false }

abbrev pub flushed : Option Chunk → List Chunk
flushed none = []
flushed (some c) = c ∷ []
