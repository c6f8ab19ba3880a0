-- ===== src/Transcript.antt =====
-- internal/anthropic/types.go: the messages of a request, and the repairs that they get before they
-- are sent upstream.
pub mod Message
pub mod Blocks
pub mod Repair
pub mod Pairing
pub mod ServerTools
pub mod Compact
pub mod Request
