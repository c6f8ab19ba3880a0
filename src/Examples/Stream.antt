-- ===== src/Examples/Stream.antt =====
-- A message of text, a tool call and an error, over a connection that never fails.
use realy_code.Common.{ℕ, ◌≡◌, refl, pos, true, none, List, [], ◌∷◌}
use realy_code.Sse.Writer.{Connection, new_writer, write_event}
use realy_code.Sse.Builder.{
  Builder, new_builder, find_tool, set_tool, send, start, close_text, close_thinking, open_text,
  open_thinking, ensure_text, emit_text, ensure_thinking, emit_thinking, begin_tool, enter_tool,
  start_tool_block, start_tool, emit_tool_input, input_to, finish, finish_with_error,
}
use realy_code.Sse.Builder.Invariant.{Inv, open_count}
use realy_code.Sse.Builder.Calls.{
  Call, start_message, text, thinking, tool, tool_input, run_calls, call, calls_follow_protocol,
}
use realy_code.Sse.Builder.Endings.{finish_closes, finish_with_error_closes}

abbrev pub fine : Connection ℕ
fine = record { marshal_error = λ _. none; write_error = λ _ _. none }

abbrev calls : List (Call ℕ)
calls =
    start_message
    ∷ thinking "hm"
    ∷ text "Looking."
    ∷ tool 0 "call_1" "Read"
    ∷ tool_input "call_1" "{}"
    ∷ text "Done."
    ∷ []

abbrev pub fresh : Builder ℕ
fresh = new_builder new_writer "msg_1" "gpt" (pos 3)

abbrev midway : Builder ℕ
midway = run_calls fine fresh calls

calls_follow_protocol_example : Inv midway
calls_follow_protocol_example = calls_follow_protocol fine "msg_1" "gpt" (pos 3) calls

finish_closes_example :
    (open_count (finish fine midway) (pos 2) ≡ 0)
    × ((finish fine midway).finished ≡ true)
    × (finish fine (finish fine midway) ≡ finish fine midway)
    × (finish_with_error fine (finish fine midway) "lost" ≡ finish fine midway)
unfolding run_calls call start emit_text emit_thinking start_tool start_tool_block emit_tool_input
    input_to enter_tool begin_tool ensure_text ensure_thinking open_text open_thinking close_text
    close_thinking find_tool set_tool send write_event
finish_closes_example =
    finish_closes fine midway "lost" (pos 2)
      (calls_follow_protocol fine "msg_1" "gpt" (pos 3) calls) refl

finish_with_error_closes_example :
    (open_count (finish_with_error fine midway "lost") (pos 2) ≡ 0)
    × ((finish_with_error fine midway "lost").finished ≡ true)
unfolding run_calls call start emit_text emit_thinking start_tool start_tool_block emit_tool_input
    input_to enter_tool begin_tool ensure_text ensure_thinking open_text open_thinking close_text
    close_thinking find_tool set_tool send write_event
finish_with_error_closes_example =
    finish_with_error_closes fine midway "lost" (pos 2)
      (calls_follow_protocol fine "msg_1" "gpt" (pos 3) calls) refl refl
