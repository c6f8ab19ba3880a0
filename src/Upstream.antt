-- ===== src/Upstream.antt =====
-- internal/provider/http.go: how the adapters send a request, and how they read the answer.
pub mod Frames
pub mod Post
