-- ===== src/Sse/Event.antt =====
-- The server-sent events of internal/sse/sse.go, with the payload of each in its arguments. `J` is
-- the type of the values that the callers pass as `any`.
use realy_code.Common.{String, ℤ, List}

-- the `content_block` of a start
pub data Block (J : Type 0) : Type 0 where
  text_block thinking_block : Block J
  -- type, id, name, input
  tool_block : String → String → String → J → Block J
  -- type, tool_use_id, content
  result_block : String → String → J → Block J

pub data Delta : Type 0 where
  text_delta thinking_delta input_json_delta : String → Delta

pub data Event (J : Type 0) : Type 0 where
  -- id, model, input tokens
  message_start : String → String → ℤ → Event J
  block_start : ℤ → Block J → Event J
  block_delta : ℤ → Delta → Event J
  block_stop : ℤ → Event J
  -- stop reason, input tokens, output tokens, server tool use
  message_delta : String → ℤ → ℤ → List (String × ℤ) → Event J
  message_stop : Event J
  error_event : String → Event J
