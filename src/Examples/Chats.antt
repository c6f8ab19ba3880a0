-- ===== src/Examples/Chats.antt =====
-- A stream of the chat adapter: text, thinking and a tool call in two pieces, over a connection that
-- never fails.
use realy_code.Common.{
  ℕ, String, ℤ, pos, true, false, none, some, List, [], ◌∷◌, refl, str_eq, if◌then◌else◌,
}
use realy_code.Sse.Writer.{write_event}
use realy_code.Sse.Builder.{
  find_tool, set_tool, send, start, close_text, close_thinking, open_text, open_thinking,
  ensure_text, emit_text, ensure_thinking, emit_thinking, begin_tool, enter_tool, start_tool_block,
  start_tool, emit_tool_input, input_to, stop_tool, stop_found, finish, set_stop_reason,
  set_output_tokens, close_all_tools, close_each,
}
use realy_code.Sse.Builder.Invariant.{Inv}
use realy_code.Sse.Builder.Calls.{calls_follow_protocol, run_calls}
use realy_code.Streams.Think.{feed, feed_loop, parse_step, parse_outside, parse_inside, flush}
use realy_code.Guard.Registry.{accepted, refused}
use realy_code.Chat.Stream.{
  ToolCallDelta, Choice, Machine, Emission, emission, Outcome, running, Answer, answer, Tools,
  map_stop_reason, emit_parsed_text, emit_validated_tool_calls, new_machine, stream,
}
use realy_code.Chat.Stream.Ended.{EndedOutcome, stream-Ended}
use realy_code.Chat.Stream.Closing.{IsClosed, stream-IsClosed}
use realy_code.Chat.Stream.Indices.{IsSweep}
use realy_code.Chat.Stream.Complete.{HasSent, emit_validated_sends_due}
use realy_code.Examples.Stream.{fine, fresh}

abbrev piece : String → String → String → ToolCallDelta
piece id name arguments = record { index = pos 0; id = id; name = name; arguments = arguments }

abbrev choice : String → List ToolCallDelta → String → Choice
choice content calls reason = record {
  delta = record { content = content; reasoning_content = ""; tool_calls = calls };
  finish_reason = reason;
}

abbrev tools : Tools
tools = record {
  read_chunk = λ s. some (record {
    choices =
        (if str_eq s "text"
          then choice "<think>" (piece "call_1" "Read" "{" ∷ []) ""
          else choice "" (piece "" "" "}" ∷ []) "tool_calls")
        ∷ [];
    usage = some (pos 7);
  });
  validate = λ name args. if str_eq args "{}" then accepted args else refused;
  bytes_of = λ s. 72 ∷ 105 ∷ 60 ∷ [];
  text_of = λ bs. "Hi";
}

abbrev events : Answer
events = answer ("text" ∷ "call" ∷ "[DONE]" ∷ []) none

stream-Ended_example :
    EndedOutcome fine 0 tools (start fine fresh) (stream fine 0 tools fresh events)
stream-Ended_example = stream-Ended fine 0 tools fresh events

abbrev machine_of : Outcome ℕ → Machine ℕ
machine_of (running m) = m
machine_of _ = new_machine fine 0 tools fresh

abbrev ended : Machine ℕ
ended = machine_of (stream fine 0 tools fresh events)

fresh-Inv : Inv fresh
unfolding run_calls
fresh-Inv = calls_follow_protocol fine "msg_1" "gpt" (pos 3) []

stream-IsClosed_example : IsClosed fine 0 tools ended.b
unfolding stream feed feed_loop parse_step parse_outside parse_inside flush emit_parsed_text
    emit_validated_tool_calls map_stop_reason start emit_text emit_thinking start_tool
    start_tool_block emit_tool_input input_to stop_tool stop_found enter_tool begin_tool ensure_text
    ensure_thinking open_text open_thinking close_text close_thinking find_tool set_tool send
    write_event finish set_stop_reason set_output_tokens close_all_tools close_each
stream-IsClosed_example = stream-IsClosed fine 0 tools fresh events ended fresh-Inv refl refl

-- a machine that has collected one whole call and one that breaks off
abbrev collected : Machine ℕ
collected = record (new_machine fine 0 tools fresh) {
  tools =
      (pos 1, record { id = "call_2"; name = "Bash"; args = "{"; emitted = false })
      ∷ (pos 0, record { id = "call_1"; name = "Read"; args = "{}"; emitted = false })
      ∷ [];
}

abbrev machine_in : Emission ℕ → Machine ℕ
machine_in (emission m f) = m
machine_in _ = collected

abbrev sent : Machine ℕ
sent = machine_in (emit_validated_tool_calls fine 0 tools collected)

emit_validated_sends_due_example :
    (is : List ℤ) × IsSweep collected.tools is × HasSent fine 0 tools collected sent true is
unfolding emit_validated_tool_calls
emit_validated_sends_due_example =
    emit_validated_sends_due fine 0 tools collected sent true refl refl
