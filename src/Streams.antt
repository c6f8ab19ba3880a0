-- ===== src/Streams.antt =====
-- internal/streamparse: the parsers that take a stream's text in pieces.
pub mod Bytes
pub mod Think
