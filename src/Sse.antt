-- ===== src/Sse.antt =====
-- internal/sse/sse.go: the events, the writer that sends them, the builder that keeps the block
-- indices of one message, and the protocol that its events follow.
pub mod Event
pub mod Writer
pub mod Builder
pub mod Protocol
pub mod Agreement
