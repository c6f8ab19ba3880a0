-- ===== src/Sse/Builder/Calls.antt =====
-- A caller of the builder, as the sequence of the methods that it calls.
use realy_code.Common.{String, ℤ, pos, ◌==ℤ◌, ◌||◌, refl, arith, List, [], ◌∷◌, str_eq, if_cases}
use realy_code.Sse.Writer.{Connection, new_writer}
use realy_code.Sse.Builder.{
  Builder, new_builder, start, ensure_text, emit_text, ensure_thinking, emit_thinking, start_tool,
  start_server_tool, start_server_tool_with_input, emit_tool_input, stop_tool,
  emit_web_search_result, emit_server_tool_result, add_server_tool_use, set_stop_reason,
  set_output_tokens, add_output_tokens, add_input_tokens, mark_finished, finish, finish_with_error,
}
use realy_code.Sse.Builder.Invariant.{Inv}
use realy_code.Sse.Builder.Run.{
  marked-Inv, start-Inv, ensure_text-Inv, emit_text-Inv, ensure_thinking-Inv, emit_thinking-Inv,
  start_tool_block-Inv, emit_tool_input-Inv, stop_tool-Inv, emit_server_tool_result-Inv, finish-Inv,
  finish_with_error-Inv, finished-Inv,
}

-- the exported methods that change the builder
pub data Call (J : Type 0) : Type 0 where
  start_message ensure_text_block ensure_thinking_block finish_message mark : Call J
  text thinking stop_tool_block fail stop_reason_is : String → Call J
  tool server_tool : J → String → String → Call J
  server_tool_with : String → String → J → Call J
  tool_input : String → String → Call J
  search_result : String → J → Call J
  tool_result : String → String → J → Call J
  server_use : String → ℤ → Call J
  output_is output_more input_more : ℤ → Call J

set_fields :
    {J : Type 0} {b : Builder J}
    → Inv b
    → (r : String) (i o : ℤ) (u : List (String × ℤ))
    → Inv (record b { stop_reason = r; input_tokens = i; output_tokens = o; server_tool_use = u })
set_fields {b} v r i o u =
    marked-Inv v b.started b.finished b.emitted_content r b.error_message i o u

module _ {J : Type 0} (conn : Connection J) where
  unfoldable pub call : Builder J → Call J → Builder J
  call b start_message = start conn b
  call b ensure_text_block = ensure_text conn b
  call b ensure_thinking_block = ensure_thinking conn b
  call b finish_message = finish conn b
  call b mark = mark_finished b
  call b (text s) = emit_text conn b s
  call b (thinking s) = emit_thinking conn b s
  call b (stop_tool_block k) = stop_tool conn b k
  call b (fail msg) = finish_with_error conn b msg
  call b (stop_reason_is r) = set_stop_reason b r
  call b (tool empty k name) = start_tool conn b empty k name
  call b (server_tool empty k name) = start_server_tool conn b empty k name
  call b (server_tool_with k name input) = start_server_tool_with_input conn b k name input
  call b (tool_input k json) = emit_tool_input conn b k json
  call b (search_result k content) = emit_web_search_result conn b k content
  call b (tool_result typ k content) = emit_server_tool_result conn b typ k content
  call b (server_use k n) = add_server_tool_use b k n
  call b (output_is n) = set_output_tokens b n
  call b (output_more n) = add_output_tokens b n
  call b (input_more n) = add_input_tokens b n

  unfoldable pub run_calls : Builder J → List (Call J) → Builder J
  run_calls b [] = b
  run_calls b (c ∷ cs) = run_calls (call b c) cs

  pub call-Inv : {b : Builder J} (c : Call J) → Inv b → Inv (call b c)
  unfolding call start_tool start_server_tool start_server_tool_with_input emit_web_search_result
      add_server_tool_use set_stop_reason set_output_tokens add_output_tokens add_input_tokens
      mark_finished
  call-Inv start_message v = start-Inv conn v
  call-Inv ensure_text_block v = ensure_text-Inv conn v
  call-Inv ensure_thinking_block v = ensure_thinking-Inv conn v
  call-Inv finish_message v = finish-Inv conn v
  call-Inv mark v = finished-Inv conn v
  call-Inv (text s) v = emit_text-Inv conn s v
  call-Inv (thinking s) v = emit_thinking-Inv conn s v
  call-Inv (stop_tool_block k) v = stop_tool-Inv conn k v
  call-Inv (fail msg) v = finish_with_error-Inv conn msg v
  call-Inv {b} (stop_reason_is r) v =
      set_fields v r b.input_tokens b.output_tokens b.server_tool_use
  call-Inv (tool empty k name) v = start_tool_block-Inv conn k name "tool_use" empty v
  call-Inv (server_tool empty k name) v = start_tool_block-Inv conn k name "server_tool_use" empty v
  call-Inv (server_tool_with k name input) v =
      start_tool_block-Inv conn k name "server_tool_use" input v
  call-Inv (tool_input k json) v = emit_tool_input-Inv conn k json v
  call-Inv (search_result k content) v =
      emit_server_tool_result-Inv conn "web_search_tool_result" k content v
  call-Inv (tool_result typ k content) v = emit_server_tool_result-Inv conn typ k content v
  call-Inv {b} (server_use k n) v =
      if_cases (λ (c : Builder J). Inv c) (str_eq k "" || (n ==ℤ pos 0)) (λ _. v)
        λ _. set_fields v b.stop_reason b.input_tokens b.output_tokens _
  call-Inv {b} (output_is n) v = set_fields v b.stop_reason b.input_tokens n b.server_tool_use
  call-Inv {b} (output_more n) v = set_fields v b.stop_reason b.input_tokens _ b.server_tool_use
  call-Inv {b} (input_more n) v = set_fields v b.stop_reason _ b.output_tokens b.server_tool_use

  run_calls-Inv : (cs : List (Call J)) {b : Builder J} → Inv b → Inv (run_calls b cs)
  unfolding run_calls
  run_calls-Inv [] v = v
  run_calls-Inv (c ∷ cs) v = run_calls-Inv cs (call-Inv c v)

  new_builder-Inv : (id model : String) (n : ℤ) → Inv (new_builder {J = J} new_writer id model n)
  new_builder-Inv id model n = record {
    agrees = record { open_blocks = λ _. 0; accepted = refl; counted = λ _ i. refl };
    once = λ i. omega arith;
    fresh = λ k h. refl;
    unique = tt;
  }

  -- Whatever methods are called, in whatever order, and wherever marshalling or the connection
  -- fails: the events sent follow the protocol; until a failure the blocks that they leave open are
  -- those that the builder holds open; no two blocks of the builder share an index; and no block has
  -- the next index or one above it.
  pub calls_follow_protocol :
      (id model : String) (n : ℤ) (cs : List (Call J))
      → Inv (run_calls (new_builder new_writer id model n) cs)
  calls_follow_protocol id model n cs = run_calls-Inv cs (new_builder-Inv id model n)
