-- ===== src/Sse/Builder.antt =====
-- `Builder` of internal/sse/sse.go: each method returns the new state. The pointers of `tools` and
-- `toolsOrder` are the same objects, each made once and kept under its own id, so one list in the
-- order of `toolsOrder` stands for both, and a lookup by call id finds the entry of that id.
pub mod Tools
pub mod Invariant
pub mod Run
pub mod Calls
pub mod Endings
use Prim.Native.String.{len}
use realy_code.Common.{
  ℕ, suc, ◌/◌, String, ℤ, pos, negsuc, ◌+ℤ◌, ◌==ℤ◌, Bool, true, false, not, ◌&&◌, ◌||◌, Option,
  none, some, List, [], ◌∷◌, ◌++◌, map, ltb, str_eq, if◌then◌else◌,
}
use realy_code.Sse.Event.{
  Block, text_block, thinking_block, tool_block, result_block, Delta, text_delta, thinking_delta,
  input_json_delta, Event, message_start, block_start, block_delta, block_stop, message_delta,
  message_stop, error_event,
}
use realy_code.Sse.Writer.{Connection, Writer, write_event}

pub record ToolState : Type 0 where
  pub block_index : ℤ
  pub id : String
  pub name : String
  pub started : Bool

-- `next_index` counts the blocks, so it is never negative.
pub record Builder (J : Type 0) : Type 0 where
  pub w : Writer J
  pub message_id : String
  pub model : String
  pub input_tokens : ℤ
  pub output_tokens : ℤ
  pub started : Bool
  pub next_index : ℕ
  pub text_index : ℤ
  pub thinking_index : ℤ
  pub text_open : Bool
  pub thinking_open : Bool
  pub tools : List ToolState
  pub server_tool_use : List (String × ℤ)
  pub stop_reason : String
  pub error_message : String
  pub emitted_content : Bool
  pub finished : Bool

abbrev pub new_builder : {J : Type 0} → Writer J → String → String → ℤ → Builder J
new_builder w message_id model input_tokens = record {
  w = w;
  message_id = message_id;
  model = model;
  input_tokens = input_tokens;
  output_tokens = pos 0;
  started = false;
  next_index = 0;
  text_index = negsuc 0;
  thinking_index = negsuc 0;
  text_open = false;
  thinking_open = false;
  tools = [];
  server_tool_use = [];
  stop_reason = "";
  error_message = "";
  emitted_content = false;
  finished = false;
}

-- `b.tools[callID]`
unfoldable pub find_tool : String → List ToolState → Option ToolState
find_tool k [] = none
find_tool k (t ∷ ts) = if str_eq t.id k then some t else find_tool k ts

-- a write through the pointer that `find_tool` returns
unfoldable pub set_tool : String → ToolState → List ToolState → List ToolState
set_tool k t' [] = []
set_tool k t' (t ∷ ts) = let rest = set_tool k t' ts in if str_eq t.id k then t' ∷ ts else t ∷ rest

unfoldable pub add_count : String → ℤ → List (String × ℤ) → List (String × ℤ)
unfolding ◌+ℤ◌
add_count k n [] = (k, n) ∷ []
add_count k n ((j, m) ∷ l) =
    let rest = add_count k n l in if str_eq j k then (j, m +ℤ n) ∷ l else (j, m) ∷ rest

-- `len` counts bytes, as Go's does.
unfoldable pub estimate_output_tokens : String → ℕ
estimate_output_tokens text =
    if str_eq text "" then 0 else (let n = len text / 4 in if ltb n 1 then 1 else n)

-- `ts.name = name` where a later call brings the name
abbrev pub named : ToolState → String → ToolState
named t name = if str_eq t.name "" && not (str_eq name "") then record t { name = name } else t

module _ {J : Type 0} (conn : Connection J) where
  unfoldable pub send : Builder J → Event J → Builder J
  send b e = record b { w = write_event conn b.w e }

  unfoldable pub start : Builder J → Builder J
  start b =
      if b.started
      then b
      else send (record b { started = true }) (message_start b.message_id b.model b.input_tokens)

  unfoldable pub close_text : Builder J → Builder J
  close_text b =
      if not b.text_open then b else send (record b { text_open = false }) (block_stop b.text_index)

  unfoldable pub close_thinking : Builder J → Builder J
  close_thinking b =
      if not b.thinking_open
      then b
      else send (record b { thinking_open = false }) (block_stop b.thinking_index)

  -- `alloc`, the mark that the block is open, and its start event
  unfoldable pub open_text : Builder J → Builder J
  open_text b =
      send
        (record b {
          text_index = pos b.next_index;
          next_index = suc b.next_index;
          text_open = true;
        })
        (block_start (pos b.next_index) text_block)

  unfoldable pub open_thinking : Builder J → Builder J
  open_thinking b =
      send
        (record b {
          thinking_index = pos b.next_index;
          next_index = suc b.next_index;
          thinking_open = true;
        })
        (block_start (pos b.next_index) thinking_block)

  unfoldable pub ensure_text : Builder J → Builder J
  ensure_text b =
      if b.text_open then b else open_text (close_thinking (record b { emitted_content = true }))

  unfoldable pub emit_text : Builder J → String → Builder J
  emit_text b chunk =
      if str_eq chunk ""
      then b
      else (let b' = ensure_text b in send b' (block_delta b'.text_index (text_delta chunk)))

  unfoldable pub ensure_thinking : Builder J → Builder J
  ensure_thinking b =
      if b.thinking_open
      then b
      else open_thinking (close_text (record b { emitted_content = true }))

  unfoldable pub emit_thinking : Builder J → String → Builder J
  emit_thinking b chunk =
      if str_eq chunk ""
      then b
      else (let b' = ensure_thinking b in
          send b' (block_delta b'.thinking_index (thinking_delta chunk)))

  -- the start of the block of the tool that `call_id` names
  unfoldable pub begin_tool : Builder J → ToolState → String → String → J → Builder J
  begin_tool b t call_id typ input =
      if t.started
      then b
      else send (record b { tools = set_tool call_id (record t { started = true }) b.tools })
          (block_start t.block_index (tool_block typ t.id t.name input))

  unfoldable pub enter_tool :
      Builder J → Option ToolState → String → String → String → J → Builder J
  enter_tool b none call_id name typ input =
      let t : ToolState = record {
        block_index = pos b.next_index;
        id = call_id;
        name = name;
        started = false;
      } in
      begin_tool (record b { tools = b.tools ++ t ∷ []; next_index = suc b.next_index }) t call_id
        typ input
  enter_tool b (some t) call_id name typ input =
      let t' = named t name in
      begin_tool (record b { tools = set_tool call_id t' b.tools }) t' call_id typ input

  unfoldable pub start_tool_block : Builder J → String → String → String → J → Builder J
  start_tool_block b call_id name typ input =
      let b' = close_thinking (close_text (record b { emitted_content = true })) in
      enter_tool b' (find_tool call_id b'.tools) call_id name typ input

  -- the empty object that `StartTool` and `StartServerTool` pass is the argument `empty`
  unfoldable pub start_tool : Builder J → J → String → String → Builder J
  start_tool b empty call_id name = start_tool_block b call_id name "tool_use" empty

  unfoldable pub start_server_tool_with_input : Builder J → String → String → J → Builder J
  start_server_tool_with_input b call_id name input =
      start_tool_block b call_id name "server_tool_use" input

  unfoldable pub start_server_tool : Builder J → J → String → String → Builder J
  start_server_tool b empty call_id name = start_server_tool_with_input b call_id name empty

  unfoldable pub input_to : Builder J → Option ToolState → String → Builder J
  input_to b none partial_json = b
  input_to b (some t) partial_json =
      if not t.started
      then b
      else if str_eq partial_json ""
      then b
      else send b (block_delta t.block_index (input_json_delta partial_json))

  unfoldable pub emit_tool_input : Builder J → String → String → Builder J
  emit_tool_input b call_id partial_json = input_to b (find_tool call_id b.tools) partial_json

  unfoldable pub stop_found : Builder J → Option ToolState → String → Builder J
  stop_found b none call_id = b
  stop_found b (some t) call_id =
      if not t.started
      then b
      else send (record b { tools = set_tool call_id (record t { started = false }) b.tools })
          (block_stop t.block_index)

  unfoldable pub stop_tool : Builder J → String → Builder J
  stop_tool b call_id = stop_found b (find_tool call_id b.tools) call_id

  -- The test of `ts.started` is the one that `StopTool` makes.
  unfoldable pub close_each : Builder J → List String → Builder J
  close_each b [] = b
  close_each b (k ∷ ks) = close_each (stop_tool b k) ks

  unfoldable pub close_all_tools : Builder J → Builder J
  close_all_tools b = close_each b (map (λ t. t.id) b.tools)

  unfoldable pub emit_server_tool_result : Builder J → String → String → J → Builder J
  emit_server_tool_result b result_type call_id content =
      let b' =
        close_all_tools (close_thinking (close_text (record b { emitted_content = true }))) in
      let index = pos b'.next_index in
      send
        (send (record b' { next_index = suc b'.next_index })
          (block_start index (result_block result_type call_id content)))
        (block_stop index)

  unfoldable pub emit_web_search_result : Builder J → String → J → Builder J
  emit_web_search_result b call_id content =
      emit_server_tool_result b "web_search_tool_result" call_id content

  unfoldable pub finish : Builder J → Builder J
  finish b =
      if b.finished
      then b
      else (let b' = close_all_tools (close_thinking (close_text (record b { finished = true }))) in
          let reason = if str_eq b'.stop_reason "" then "end_turn" else b'.stop_reason in
          send (send b' (message_delta reason b'.input_tokens b'.output_tokens b'.server_tool_use))
            message_stop)

  unfoldable pub finish_with_error : Builder J → String → Builder J
  unfolding ◌+ℤ◌
  finish_with_error b msg =
      if b.finished
      then b
      else if not b.started
      then (let b' = send (record b { error_message = msg }) (error_event msg) in
          record b' { finished = true })
      else (let b' = emit_text (record b { error_message = msg }) msg in
          finish (record b' {
            output_tokens = b'.output_tokens +ℤ pos (estimate_output_tokens msg);
            stop_reason = "end_turn";
          }))

-- the setters
module _ {J : Type 0} where
  unfoldable pub add_server_tool_use : Builder J → String → ℤ → Builder J
  add_server_tool_use b key count =
      if str_eq key "" || (count ==ℤ pos 0)
      then b
      else record b { server_tool_use = add_count key count b.server_tool_use }

  unfoldable pub set_stop_reason : Builder J → String → Builder J
  set_stop_reason b r = record b { stop_reason = r }

  unfoldable pub set_output_tokens : Builder J → ℤ → Builder J
  set_output_tokens b n = record b { output_tokens = n }

  unfoldable pub add_output_tokens : Builder J → ℤ → Builder J
  unfolding ◌+ℤ◌
  add_output_tokens b delta = record b { output_tokens = b.output_tokens +ℤ delta }

  unfoldable pub add_input_tokens : Builder J → ℤ → Builder J
  unfolding ◌+ℤ◌
  add_input_tokens b delta = record b { input_tokens = b.input_tokens +ℤ delta }

  unfoldable pub mark_finished : Builder J → Builder J
  mark_finished b = record b { finished = true }
