-- ===== src/Chat.antt =====
-- The adapter for an upstream of the kind openai_chat, internal/provider/chat/chat.go.
pub mod Stream
pub mod Messages
pub mod Request
