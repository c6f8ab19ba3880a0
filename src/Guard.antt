-- ===== src/Guard.antt =====
-- internal/provider/toolargs and internal/provider/toolguard: what a tool call must satisfy before it is
-- handed to the client.
pub mod Args
pub mod Schema
pub mod Validate
pub mod Repair
pub mod Registry
