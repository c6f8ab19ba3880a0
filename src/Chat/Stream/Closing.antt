-- ===== src/Chat/Stream/Closing.antt =====
-- The end of a stream of the chat adapter leaves no block open.
use realy_code.Common.{ℤ, pos, String, Bool, true, false, ◌≡◌, refl, ◌∙◌, arith, if_cases}
use mathlib.Core.Path.{subst}
use realy_code.Sse.Writer.{Connection}
use realy_code.Sse.Builder.{
  Builder, start, emit_text, emit_thinking, start_tool, emit_tool_input, stop_tool, set_stop_reason,
  set_output_tokens, ensure_text, open_text, close_thinking, close_text, ensure_thinking,
  open_thinking, send, start_tool_block, enter_tool, begin_tool, input_to, stop_found,
}
use realy_code.Sse.Builder.Invariant.{Inv, open_count}
use realy_code.Sse.Builder.Run.{start-Inv, finish-Inv, finish_with_error-Inv}
use realy_code.Sse.Builder.Calls.{
  call-Inv, text, thinking, tool, tool_input, stop_tool_block, stop_reason_is, output_is, call,
}
use realy_code.Sse.Builder.Endings.{finish_closes, finish_with_error_closes}
use realy_code.Chat.Stream.{
  Machine, running, Answer, Tools, stream, emit_call, count_output, is_positive,
}
use realy_code.Chat.Stream.Sent.{Sent, nothing, said, thought, called}
use realy_code.Chat.Stream.Ended.{Ended, concluded, failed, EndedOutcome, stream-Ended}

module _ {J : Type 0} where
  -- a message that was started and is not finished, with the flags of another
  abbrev SameFlags : Builder J → Builder J → Type 0
  SameFlags b c = (c.started ≡ b.started) × (c.finished ≡ b.finished)

  module _ (conn : Connection J) where
    flags-emit_text : (b : Builder J) (s : String) → SameFlags b (emit_text conn b s)
    unfolding emit_text ensure_text open_text close_thinking send
    flags-emit_text b s = ground arith

    flags-emit_thinking : (b : Builder J) (s : String) → SameFlags b (emit_thinking conn b s)
    unfolding emit_thinking ensure_thinking open_thinking close_text send
    flags-emit_thinking b s = ground arith

    flags-start_tool :
        (b : Builder J) (empty : J) (id name : String)
        → SameFlags b (start_tool conn b empty id name)
    unfolding start_tool start_tool_block enter_tool begin_tool close_thinking close_text send
    flags-start_tool b empty id name = ground arith

    flags-emit_tool_input :
        (b : Builder J) (id json : String) → SameFlags b (emit_tool_input conn b id json)
    unfolding emit_tool_input input_to send
    flags-emit_tool_input b id json = ground arith

    flags-stop_tool : (b : Builder J) (id : String) → SameFlags b (stop_tool conn b id)
    unfolding stop_tool stop_found send
    flags-stop_tool b id = ground arith

    -- a message that was started and is not finished
    record Ready (b : Builder J) : Type 0 where
      holds : Inv b
      was_started : b.started ≡ true
      unfinished : b.finished ≡ false

    step-Ready : {b c : Builder J} → Ready b → Inv c → SameFlags b c → Ready c
    step-Ready r v (s, f) = record {
      holds = v;
      was_started = s ∙ r.was_started;
      unfinished = f ∙ r.unfinished;
    }

    module _ (empty : J) (h : Tools) where
      called-Ready :
          {b : Builder J} (id name args : String)
          → Ready b
          → Ready (emit_call conn empty h b id name args)
      unfolding call
      called-Ready {b} id name args r =
          let r1 =
            step-Ready r (call-Inv conn (tool empty id name) r.holds)
              (flags-start_tool b empty id name) in
          let r2 =
            step-Ready r1 (call-Inv conn (tool_input id args) r1.holds)
              (flags-emit_tool_input _ id args) in
          step-Ready r2 (call-Inv conn (stop_tool_block id) r2.holds) (flags-stop_tool _ id)

      Sent-Ready : {b c : Builder J} {e : Bool} → Sent conn empty h b c e → Ready b → Ready c
      unfolding call
      Sent-Ready nothing r = r
      Sent-Ready (said s text_sent) r =
          let m = Sent-Ready s r in
          step-Ready m (call-Inv conn (text text_sent) m.holds) (flags-emit_text _ text_sent)
      Sent-Ready (thought s text_sent) r =
          let m = Sent-Ready s r in
          step-Ready m (call-Inv conn (thinking text_sent) m.holds)
            (flags-emit_thinking _ text_sent)
      Sent-Ready (called s id name args restored no_id no_name ok) r =
          called-Ready id name restored (Sent-Ready s r)

      count_output-Ready : {b : Builder J} (n : ℤ) → Ready b → Ready (count_output conn empty h n b)
      unfolding call set_output_tokens
      count_output-Ready {b} n r =
          if_cases (λ (c : Builder J). Ready c) (is_positive n)
            (λ _. step-Ready r (call-Inv conn (output_is n) r.holds) (refl, refl)) (λ _. r)

      reason-Ready : {b : Builder J} (reason : String) → Ready b → Ready (set_stop_reason b reason)
      unfolding call set_stop_reason
      reason-Ready reason r =
          step-Ready r (call-Inv conn (stop_reason_is reason) r.holds) (refl, refl)

      -- the message is finished, and no block of it is open
      abbrev pub IsClosed : Builder J → Type 0
      IsClosed b = Inv b × (b.finished ≡ true) × ((i : ℤ) → open_count b i ≡ 0)

      Ended-IsClosed : {b c : Builder J} → Ended conn empty h b c → Ready b → IsClosed c
      Ended-IsClosed (concluded s n reason why) r =
          let m = reason-Ready reason (count_output-Ready n (Sent-Ready s r)) in
          (
            finish-Inv conn m.holds,
            (finish_closes conn _ "" (pos 0) m.holds m.unfinished).1,
            λ i. (finish_closes conn _ "" i m.holds m.unfinished).0,
          )
      Ended-IsClosed (failed s msg) r =
          let m = Sent-Ready s r in
          (
            finish_with_error-Inv conn msg m.holds,
            (finish_with_error_closes conn _ msg (pos 0) m.holds m.unfinished m.was_started).1,
            λ i. (finish_with_error_closes conn _ msg i m.holds m.unfinished m.was_started).0,
          )

      flags-start :
          (b : Builder J) → ((start conn b).started ≡ true) × ((start conn b).finished ≡ b.finished)
      unfolding start send
      flags-start b = ground arith

      start-Ready : {b : Builder J} → Inv b → b.finished ≡ false → Ready (start conn b)
      start-Ready {b} v f = record {
        holds = start-Inv conn v;
        was_started = (flags-start b).0;
        unfinished = (flags-start b).1 ∙ f;
      }

      -- Whatever the upstream answers, and wherever its answer or the connection to the client breaks
      -- off: unless the check of a tool call panics, a message that was not finished is finished when
      -- the stream returns, none of its blocks is open, and its events follow the protocol.
      pub stream-IsClosed :
          (b : Builder J) (a : Answer) (m : Machine J)
          → Inv b
          → b.finished ≡ false
          → stream conn empty h b a ≡ running m
          → IsClosed m.b
      stream-IsClosed b a m v f e =
          Ended-IsClosed
            (subst (EndedOutcome conn empty h (start conn b)) e (stream-Ended conn empty h b a))
            (start-Ready v f)
