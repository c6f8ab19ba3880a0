-- ===== src/Native.antt =====
-- internal/provider/anthropic: the policy and the tracker for the stream of a native upstream.
pub mod Blocks
pub mod Policy
pub mod Tracker
