-- ===== src/Session.antt =====
-- internal/session/session.go: the store of Responses sessions, what it reuses for a request, and
-- the bounds that it keeps.
pub mod Entry
pub mod Store
pub mod Prepare
pub mod Commit
pub mod Disk
