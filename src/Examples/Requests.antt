-- ===== src/Examples/Requests.antt =====
-- A call and its result on their way to a chat upstream, and a long tool result.
use realy_code.Common.{
  join, concat, length, ◌≤◌, ℕ, zero, suc, String, pos, true, false, not, ◌&&◌, none, some, List,
  [], ◌∷◌, ◌++◌, ◌≡◌, refl, arith, take, drop, keep_if, bit, any_of, str_eq, str_eq_iff,
}
use realy_code.Json.{no_fields}
use realy_code.Transcript.Message.{
  Block, Message, bare_block, text_block, of_blocks, as_blocks, blocks_of,
}
use realy_code.Transcript.Blocks.{
  member, is_server_tool_block, degraded, degrade_server_tool_blocks, tool_result_text,
}
use realy_code.Transcript.Pairing.{count, use_ids, Answers}
use realy_code.Transcript.ServerTools.{
  tools_for_upstream, filter_client_tools, is_server_tool, is_server_tool_type, blocks_for_upstream,
}
use realy_code.Transcript.Compact.{
  banner, compact_tool_result_text, Texts, start_of_tail, is_important_tool_result_line,
  important_tool_result_lines, tool_result_text_for_upstream,
}
use realy_code.Transcript.Compact.Windows.{important_lines_are_first, few_lines_all_kept, with_tail}
use realy_code.Transcript.Request.{
  Request, Result, ok, err, Reading, system_text, has_tool_search_beta, unsupported_openai_fields,
  raw_field, reasoning_effort,
}
use realy_code.Transcript.Repair.{normalize_messages_for_upstream}
use realy_code.Guard.Args.{sanitize_parameters}
use realy_code.Guard.Registry.{new_registry, has}
use realy_code.Chat.Messages.{
  OpenaiMessage, convert_user_blocks, convert_assistant_blocks, convert_message, convert_messages,
  convert_each,
}
use realy_code.Chat.Messages.Answered.{
  tool_ids, call_ids, answered_ids, called_ids, convert_user_blocks_answers,
}
use realy_code.Chat.Messages.Called.{convert_assistant_blocks_calls}
use realy_code.Chat.Messages.Matched.{converted_calls_answered}
use realy_code.Chat.Request.{
  Built, build_request_with_options, chat_response_format, chat_tool_choice, word,
}
use realy_code.Chat.Request.Known.{registry_knows_sent_tools}
use realy_code.Examples.Messages.{mute}
use realy_code.Examples.Guards.{codec, registry}

abbrev texts : Texts
texts = record { lower = λ s. s; slice = λ s a b. s; decimal = λ n. "0"; trim_newlines = λ s. s }

abbrev plain_lines : ℕ → List String
plain_lines zero = []
plain_lines (suc n) = "error: again" ∷ plain_lines n

important_lines_are_first_example :
    important_tool_result_lines texts (plain_lines 5) 1 1
    ≡ take 80 (
        keep_if
          (is_important_tool_result_line texts)
          (drop 1 (take (start_of_tail 1 1 (plain_lines 5)) (plain_lines 5))))
important_lines_are_first_example = important_lines_are_first texts (plain_lines 5) 1 1

-- a line of 16384 bytes and a short one
abbrev doubled : ℕ → String → String
doubled zero s = s
doubled (suc n) s = doubled n (concat (s ∷ s ∷ []))

abbrev long_text : String
long_text = concat (doubled 11 "12345678" ∷ "\nend" ∷ [])

few_lines_all_kept_example :
    (first : List String) × (last : List String) × (join "\n" (first ++ last) ≡ long_text)
    × (length first ≤ 80)
    × (compact_tool_result_text texts long_text
        ≡ texts.trim_newlines (
            with_tail
              (concat (
                banner texts long_text (first ++ last)
                ∷ "--- "
                ∷ "head"
                ∷ " ---\n"
                ∷ join "\n" first
                ∷ "\n"
                ∷ []))
              last))
few_lines_all_kept_example =
    few_lines_all_kept texts long_text (omega arith) (omega arith) (omega arith)

abbrev reading : Reading
reading = record {
  json = mute;
  texts = texts;
  read_value = λ _. none;
  error_of = λ _. "cannot read";
  quote = λ s. s;
  trim_space = λ s. s;
  is_at_most = λ _ _. true;
  read_user_id = λ _. none;
  read_ids = λ _. none;
}

-- the assistant calls a tool, and the user gives its result
abbrev use_block : Block
use_block = record (bare_block "tool_use") { id = "call_1"; name = "Read" }

abbrev result_block : Block
result_block = record (bare_block "tool_result") { tool_use_id = "call_1"; content = "{}" }

abbrev asks : Message
asks = record {
  role = "assistant";
  content = of_blocks (some (text_block "Looking." ∷ use_block ∷ []));
}

abbrev answers : Message
answers = record {
  role = "user";
  content = of_blocks (some (result_block ∷ text_block "Go on." ∷ []));
}

abbrev messages_of : Result (List OpenaiMessage) → List OpenaiMessage
messages_of (ok ms) = ms
messages_of (err why) = []

convert_user_blocks_answers_example :
    tool_ids (messages_of (convert_user_blocks reading (blocks_of answers) false))
    ≡ answered_ids (blocks_of answers)
unfolding convert_user_blocks tool_result_text_for_upstream tool_result_text as_blocks
convert_user_blocks_answers_example =
    convert_user_blocks_answers reading false (blocks_of answers)
      (messages_of (convert_user_blocks reading (blocks_of answers) false)) refl

convert_assistant_blocks_calls_example :
    call_ids (convert_assistant_blocks reading (blocks_of asks)) ≡ called_ids (blocks_of asks)
convert_assistant_blocks_calls_example = convert_assistant_blocks_calls reading (blocks_of asks)

asks_answered : Answers (use_ids (blocks_of asks)) (blocks_of answers)
unfolding as_blocks
asks_answered k = ground arith

converted_calls_answered_example :
    count "call_1" (tool_ids (messages_of (convert_message reading false false answers)))
    ≡ bit (member "call_1" (call_ids (messages_of (convert_message reading false false asks))))
unfolding convert_message convert_user_blocks convert_assistant_blocks tool_result_text_for_upstream
    tool_result_text as_blocks blocks_for_upstream degrade_server_tool_blocks degraded
    is_server_tool_block
converted_calls_answered_example =
    converted_calls_answered reading false asks answers
      (messages_of (convert_message reading false false asks))
      (messages_of (convert_message reading false false answers)) "call_1" refl refl asks_answered
      refl refl refl (λ e. absurd (ground (arith, str_eq_iff "call_1" "")))

abbrev request : Request
request = record {
  model = "claude";
  max_tokens = pos 10;
  system = "";
  messages = [];
  tools =
      some (
        record { typ = ""; name = "Read"; description = ""; input_schema = ""; strict = none }
        ∷ []);
  tool_choice = "";
  temperature = none;
  top_p = none;
  stop_sequences = [];
  output_config = none;
  metadata = "";
  betas = [];
  effort = "";
  extra_fields = [];
}

abbrev built : Built
built = record {
  body = record {
    model = "gpt";
    messages = [];
    stream = true;
    max_tokens = some (pos 10);
    temperature = none;
    top_p = none;
    stop = [];
    reasoning_effort = none;
    tool_choice = word "auto";
    parallel_tool_calls = false;
    response_format = none;
    tools =
        record { typ = "function"; name = "Read"; description = ""; parameters = ""; strict = none }
        ∷ [];
  };
  aliases = [];
}

registry_knows_sent_tools_example :
    has (new_registry request.tools false built.aliases registry.policy) "Read"
    ≡ (not (str_eq "Read" "") && any_of (λ t. str_eq t.name "Read") built.body.tools)
unfolding build_request_with_options convert_messages convert_each normalize_messages_for_upstream
    system_text has_tool_search_beta unsupported_openai_fields raw_field reasoning_effort
    sanitize_parameters chat_response_format chat_tool_choice tools_for_upstream filter_client_tools
    is_server_tool is_server_tool_type
registry_knows_sent_tools_example =
    registry_knows_sent_tools reading (λ _. some no_fields) (λ _. none) codec request "gpt" false
      false built registry.policy "Read" refl
