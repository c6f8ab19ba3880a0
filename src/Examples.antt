-- ===== src/Examples.antt =====
-- The theorems at concrete inputs.
pub mod Stream
pub mod Messages
pub mod Sessions
mod Routes
mod Upstreams
mod Answers
mod Files
pub mod Guards
mod Chats
mod Requests
mod Posts
mod Releases
mod Commands
