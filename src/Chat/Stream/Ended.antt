-- ===== src/Chat/Stream/Ended.antt =====
-- How a stream of the chat adapter ends, and what the client has then.
use realy_code.Common.{ℤ, String, Bool, true, none, some, Option, ◌≡◌, arith, str_eq_iff}
use realy_code.Sse.Writer.{Connection}
use realy_code.Sse.Builder.{Builder, start, finish, finish_with_error, set_stop_reason}
use realy_code.Chat.Stream.{
  Outcome, running, panicked, Answer, no_answer, answer, Tools, map_stop_reason, flush_text,
  final_reason, count_output, conclude, after_events, new_machine, stream,
}
use realy_code.Chat.Stream.Sent.{
  Sent, nothing, Traced, emit_validated-Traced, on_events-Traced, flush_text-Sent,
}

module _ {J : Type 0} (conn : Connection J) (empty : J) (h : Tools) where
  -- The end of a stream that sent what `Sent` allows: with a stop reason, which is "tool_use" only
  -- after a tool call, or with an error.
  pub data Ended (b : Builder J) : Builder J → Type 0 where
    concluded :
        {c : Builder J} {e : Bool}
        → Sent conn empty h b c e
        → (n : ℤ) (reason : String) → (reason ≡ "tool_use" → e ≡ true)
        → Ended b (finish conn (set_stop_reason (count_output conn empty h n c) reason))
    failed :
        {c : Builder J} {e : Bool}
        → Sent conn empty h b c e
        → (msg : String) → Ended b (finish_with_error conn c msg)

  module _ (b0 : Builder J) where
    abbrev pub EndedOutcome : Outcome J → Type 0
    EndedOutcome (running m) = Ended b0 m.b
    EndedOutcome (panicked b) = (e : Bool) × Sent conn empty h b0 b e

    final_reason_called :
        (reason : String) (e : Bool) → final_reason conn empty h reason e ≡ "tool_use" → e ≡ true
    final_reason_called reason e r =
        ground (arith, str_eq_iff reason "tool_use", str_eq_iff "end_turn" "tool_use")

    conclude-Ended :
        (o : Outcome J) → Traced conn empty h b0 o → EndedOutcome (conclude conn empty h o)
    conclude-Ended (panicked b) s = s
    conclude-Ended (running m) s =
        concluded s m.completion_tokens _
          (final_reason_called (map_stop_reason m.finish_reason) m.emitted_tool_call)

    after_events-Ended :
        (why : Option String) (o : Outcome J)
        → Traced conn empty h b0 o
        → EndedOutcome (after_events conn empty h why o)
    after_events-Ended none (panicked b) s = s
    after_events-Ended (some msg) (panicked b) s = s
    after_events-Ended (some msg) (running m) s = failed s msg
    after_events-Ended none (running m) s = conclude-Ended _ (
        emit_validated-Traced conn empty h b0 (flush_text conn empty h m)
          (flush_text-Sent conn empty h b0 m s))

  -- Whatever the upstream answers: unless the check of a call panics, the stream sends text, thinking
  -- and whole tool calls, each with an id and a name and with arguments that the check accepted, and
  -- ends with one `Finish` or one `FinishWithError`; it gives the stop reason "tool_use" only after a
  -- tool call. Up to a panic it sends text, thinking and such calls.
  pub stream-Ended :
      (b : Builder J) (a : Answer) → EndedOutcome (start conn b) (stream conn empty h b a)
  unfolding stream
  stream-Ended b (no_answer msg) = failed nothing msg
  stream-Ended b (answer evs why) = after_events-Ended (start conn b) why _ (
      on_events-Traced conn empty h (start conn b) evs
        (running (new_machine conn empty h (start conn b))) nothing)
