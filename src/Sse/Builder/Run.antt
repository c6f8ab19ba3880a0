-- ===== src/Sse/Builder/Run.antt =====
-- Every method keeps the invariant, so every sequence of calls follows the protocol.
use realy_code.Common.{
  suc, String, ℤ, pos, ==ℤ_iff, Bool, true, false, not, none, some, List, [], ◌∷◌, ◌++◌, ◌≡◌, refl,
  ◌∙◌, arith, str_eq, inl, inr, Option-cases, if_cases, str_eq_iff,
}
use realy_code.Sse.Event.{
  text_delta, thinking_delta, input_json_delta, message_stop, error_event, result_block,
}
use realy_code.Sse.Writer.{Connection}
use realy_code.Sse.Agreement.{Agrees-ext, Agrees-start, Agrees-stop}
use realy_code.Sse.Builder.{
  ToolState, Builder, find_tool, set_tool, named, send, start, close_text, close_thinking,
  open_text, open_thinking, ensure_text, emit_text, ensure_thinking, emit_thinking, enter_tool,
  start_tool_block, input_to, emit_tool_input, stop_found, stop_tool, close_each, close_all_tools,
  emit_server_tool_result, finish, finish_with_error,
}
use realy_code.Sse.Builder.Tools.{
  tools_at-append, open_at-append, find_tool-append, Unique-append, find_tool-set_tool,
  open_at-set_tool,
}
use realy_code.Sse.Builder.Invariant.{
  Inv, ==ℤ_refl, close_text-Inv, close_thinking-Inv, next_free, open_text-Inv, open_thinking-Inv,
  delta-Inv, other-Inv, set_tool-Inv, begin_tool-Inv, stop_found-Inv, open_tool, found_id,
}

-- the fields that say nothing of blocks
abbrev pub marked :
    {J : Type 0}
    → Builder J
    → Bool
    → Bool
    → Bool
    → String
    → String
    → ℤ
    → ℤ
    → List (String × ℤ)
    → Builder J
marked b s f c reason message i o use_counts = record b {
  started = s;
  finished = f;
  emitted_content = c;
  stop_reason = reason;
  error_message = message;
  input_tokens = i;
  output_tokens = o;
  server_tool_use = use_counts;
}

module _ {J : Type 0} {b : Builder J} (v : Inv b) where
  pub marked-Inv :
      (s f c : Bool) (reason message : String) (i o : ℤ) (u : List (String × ℤ))
      → Inv (marked b s f c reason message i o u)
  marked-Inv s f c reason message i o u = record {
    agrees = v.agrees;
    once = v.once;
    fresh = v.fresh;
    unique = v.unique;
  }

  content-Inv : Inv (record b { emitted_content = true })
  content-Inv =
      marked-Inv b.started b.finished true b.stop_reason b.error_message b.input_tokens
        b.output_tokens b.server_tool_use

module _ {J : Type 0} (conn : Connection J) where
  text_open-close_thinking : (b : Builder J) → (close_thinking conn b).text_open ≡ b.text_open
  unfolding close_thinking send
  text_open-close_thinking b = ground arith

  thinking_open-close_text : (b : Builder J) → (close_text conn b).thinking_open ≡ b.thinking_open
  unfolding close_text send
  thinking_open-close_text b = ground arith

  text_open-ensure_text : (b : Builder J) → (ensure_text conn b).text_open ≡ true
  unfolding ensure_text open_text send
  text_open-ensure_text b = ground arith

  thinking_open-ensure_thinking : (b : Builder J) → (ensure_thinking conn b).thinking_open ≡ true
  unfolding ensure_thinking open_thinking send
  thinking_open-ensure_thinking b = ground arith

  pub start-Inv : {b : Builder J} → Inv b → Inv (start conn b)
  unfolding start
  start-Inv {b} v =
      if_cases (λ (c : Builder J). Inv c) (b.started) (λ _. v)
        λ s.
          other-Inv conn
            (marked-Inv v true b.finished b.emitted_content b.stop_reason b.error_message
              b.input_tokens b.output_tokens b.server_tool_use)
            _ (λ o. refl)

  pub ensure_text-Inv : {b : Builder J} → Inv b → Inv (ensure_text conn b)
  unfolding ensure_text
  ensure_text-Inv {b} v =
      if_cases (λ (c : Builder J). Inv c) (b.text_open) (λ _. v)
        λ s.
          open_text-Inv conn (close_thinking-Inv conn (content-Inv v))
            (text_open-close_thinking (record b { emitted_content = true }) ∙ s)

  pub ensure_thinking-Inv : {b : Builder J} → Inv b → Inv (ensure_thinking conn b)
  unfolding ensure_thinking
  ensure_thinking-Inv {b} v =
      if_cases (λ (c : Builder J). Inv c) (b.thinking_open) (λ _. v)
        λ s.
          open_thinking-Inv conn (close_text-Inv conn (content-Inv v))
            (thinking_open-close_text (record b { emitted_content = true }) ∙ s)

  pub emit_text-Inv : {b : Builder J} (chunk : String) → Inv b → Inv (emit_text conn b chunk)
  unfolding emit_text
  emit_text-Inv {b} chunk v =
      if_cases (λ (c : Builder J). Inv c) ((str_eq chunk "")) (λ _. v)
        λ s.
          let b' = ensure_text conn b in
          delta-Inv conn (ensure_text-Inv v) b'.text_index (text_delta chunk)
            (ground (arith, text_open-ensure_text b, ==ℤ_refl b'.text_index))

  pub emit_thinking-Inv :
      {b : Builder J} (chunk : String) → Inv b → Inv (emit_thinking conn b chunk)
  unfolding emit_thinking
  emit_thinking-Inv {b} chunk v =
      if_cases (λ (c : Builder J). Inv c) ((str_eq chunk "")) (λ _. v)
        λ s.
          let b' = ensure_thinking conn b in
          delta-Inv conn (ensure_thinking-Inv v) b'.thinking_index (thinking_delta chunk)
            (ground (arith, thinking_open-ensure_thinking b, ==ℤ_refl b'.thinking_index))

  add_tool-Inv :
      {b : Builder J} (t : ToolState)
      → Inv b
      → find_tool t.id b.tools ≡ none
      → t.block_index ≡ pos b.next_index
      → t.started ≡ false
      → Inv (record b { tools = b.tools ++ t ∷ []; next_index = suc b.next_index })
  add_tool-Inv {b} t v new ix shut = record {
    agrees = Agrees-ext _ v.agrees (λ i. ground (arith, open_at-append b.tools t i));
    once = λ i. ground (
      arith,
      tools_at-append b.tools t i,
      v.once i,
      v.fresh b.next_index,
      ==ℤ_iff t.block_index i,
    );
    fresh = λ n h. ground (arith, tools_at-append b.tools t (pos n), v.fresh n);
    unique = Unique-append b.tools t new v.unique;
  }

  rename-Inv :
      {b : Builder J} (call_id name : String) (t : ToolState)
      → Inv b
      → find_tool call_id b.tools ≡ some t
      → Inv (record b { tools = set_tool call_id (named t name) b.tools })
  rename-Inv {b} call_id name t v known =
      set_tool-Inv conn v call_id t known (named t name) b.w (ground arith)
        (ground (arith, found_id conn v call_id t known))
        (Agrees-ext _ v.agrees
          (λ i. ground (arith, open_at-set_tool call_id t (named t name) b.tools i known)))

  enter_tool-Inv :
      {b : Builder J} (call_id name typ : String) (input : J)
      → Inv b
      → Inv (enter_tool conn b (find_tool call_id b.tools) call_id name typ input)
  unfolding enter_tool
  enter_tool-Inv {b} call_id name typ input v = elim (Option-cases (find_tool call_id b.tools)) [
    | inl new ↦ rw new (
        let t : ToolState = record {
          block_index = pos b.next_index;
          id = call_id;
          name = name;
          started = false;
        } in
        begin_tool-Inv conn (add_tool-Inv t v new refl refl) call_id t
          (ground (arith, find_tool-append call_id b.tools t new, str_eq_iff call_id call_id)) typ
          input)
    | inr (t, known) ↦ rw known (
        begin_tool-Inv conn (rename-Inv call_id name t v known) call_id (named t name)
          (ground (
            arith,
            find_tool-set_tool call_id call_id t (named t name) b.tools,
            found_id conn v call_id t known,
            str_eq_iff call_id call_id,
          ))
          typ input)
  ]

  pub start_tool_block-Inv :
      {b : Builder J} (call_id name typ : String) (input : J)
      → Inv b
      → Inv (start_tool_block conn b call_id name typ input)
  unfolding start_tool_block
  start_tool_block-Inv call_id name typ input v =
      enter_tool-Inv call_id name typ input
        (close_thinking-Inv conn (close_text-Inv conn (content-Inv v)))

  pub emit_tool_input-Inv :
      {b : Builder J} (call_id partial_json : String)
      → Inv b
      → Inv (emit_tool_input conn b call_id partial_json)
  unfolding emit_tool_input input_to
  emit_tool_input-Inv {b} call_id partial_json v = elim (Option-cases (find_tool call_id b.tools)) [
    | inl new ↦ rw new v
    | inr (t, known) ↦ rw known (
        if_cases (λ (c : Builder J). Inv c) (not t.started) (λ _. v)
          λ s.
            if_cases (λ (c : Builder J). Inv c) (str_eq partial_json "") (λ _. v)
              λ _.
                delta-Inv conn v t.block_index (input_json_delta partial_json)
                  (ground (arith, open_tool conn v call_id t known)))
  ]

  pub stop_tool-Inv : {b : Builder J} (call_id : String) → Inv b → Inv (stop_tool conn b call_id)
  unfolding stop_tool
  stop_tool-Inv {b} call_id v = elim (Option-cases (find_tool call_id b.tools)) [
    | inl new ↦ rw new (unfold stop_found in v)
    | inr (t, known) ↦ rw known (stop_found-Inv conn v call_id t known)
  ]

  close_each-Inv : (ks : List String) {b : Builder J} → Inv b → Inv (close_each conn b ks)
  unfolding close_each
  close_each-Inv [] v = v
  close_each-Inv (k ∷ ks) v = close_each-Inv ks (stop_tool-Inv k v)

  close_blocks-Inv :
      {b : Builder J} → Inv b → Inv (close_all_tools conn (close_thinking conn (close_text conn b)))
  unfolding close_all_tools
  close_blocks-Inv v = close_each-Inv _ (close_thinking-Inv conn (close_text-Inv conn v))

  pub emit_server_tool_result-Inv :
      {b : Builder J} (result_type call_id : String) (content : J)
      → Inv b
      → Inv (emit_server_tool_result conn b result_type call_id content)
  unfolding emit_server_tool_result send
  emit_server_tool_result-Inv {b} result_type call_id content v =
      let b' =
        close_all_tools conn
          (close_thinking conn (close_text conn (record b { emitted_content = true }))) in
      let v' : Inv b' = close_blocks-Inv (content-Inv v) in
      let index = pos b'.next_index in
      record {
        agrees =
            Agrees-ext _
              (Agrees-stop conn index
                (Agrees-start conn index (result_block result_type call_id content) v'.agrees
                  (next_free conn v'))
                (ground (arith, ==ℤ_refl index)))
              (λ i. omega arith);
        once = v'.once;
        fresh = λ n h. v'.fresh n (omega arith);
        unique = v'.unique;
      }

  pub finish-Inv : {b : Builder J} → Inv b → Inv (finish conn b)
  unfolding finish
  finish-Inv {b} v =
      if_cases (λ (c : Builder J). Inv c) b.finished (λ _. v)
        λ _.
          other-Inv conn
            (other-Inv conn
              (close_blocks-Inv (
                marked-Inv v b.started true b.emitted_content b.stop_reason b.error_message
                  b.input_tokens b.output_tokens b.server_tool_use))
              _ (λ o. refl))
            message_stop (λ o. refl)

  pub message-Inv : {b : Builder J} (m : String) → Inv b → Inv (record b { error_message = m })
  message-Inv {b} m v =
      marked-Inv v b.started b.finished b.emitted_content b.stop_reason m b.input_tokens
        b.output_tokens b.server_tool_use

  pub ending-Inv :
      {b : Builder J} (o : ℤ) (r : String)
      → Inv b
      → Inv (record b { output_tokens = o; stop_reason = r })
  ending-Inv {b} o r v =
      marked-Inv v b.started b.finished b.emitted_content r b.error_message b.input_tokens o
        b.server_tool_use

  pub finished-Inv : {b : Builder J} → Inv b → Inv (record b { finished = true })
  finished-Inv {b} v =
      marked-Inv v b.started true b.emitted_content b.stop_reason b.error_message b.input_tokens
        b.output_tokens b.server_tool_use

  pub finish_with_error-Inv :
      {b : Builder J} (msg : String) → Inv b → Inv (finish_with_error conn b msg)
  unfolding finish_with_error
  finish_with_error-Inv {b} msg v =
      if_cases (λ (c : Builder J). Inv c) b.finished (λ _. v)
        λ _.
          if_cases (λ (c : Builder J). Inv c) (not b.started)
            (λ _. finished-Inv (other-Inv conn (message-Inv msg v) (error_event msg) (λ o. refl)))
            λ _. finish-Inv (ending-Inv _ "end_turn" (emit_text-Inv msg (message-Inv msg v)))
