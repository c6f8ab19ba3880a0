-- ===== src/Chat/Stream/Sent.antt =====
-- What a stream of the chat adapter may send, as a step relation on the builder, and that it sends
-- nothing else.
use realy_code.Common.{
  ℤ, String, Bool, true, false, not, ◌||◌, Option, none, some, List, [], ◌∷◌, map, str_eq, ◌≡◌, ◌≢◌,
  refl, arith, if_cases, str_eq_iff, if◌then◌else◌,
}
use realy_code.Sse.Writer.{Connection}
use realy_code.Sse.Builder.{Builder, emit_text, emit_thinking}
use realy_code.Streams.Bytes.{Bytes}
use realy_code.Streams.Think.{ChunkKind, text_chunk, thinking_chunk, Chunk, feed, flush}
use realy_code.Guard.Registry.{Checked, accepted, refused, crashed}
use realy_code.Chat.Stream.{
  ToolTrack, Choice, ChatChunk, Machine, Outcome, running, panicked, Emission, emission,
  emission_panicked, Tools, map_stop_reason, track_at, emit_kind, emit_chunks, emit_parsed_text,
  emit_call, emit_checked, passed_over, emit_track, emit_at, emit_each, emit_validated_tool_calls,
  note_emitted, end_choice, emit_reasoning, emit_content, collect_calls, on_choice, on_choices,
  count_tokens, on_chunk, on_event, on_events, emit_tail, flush_text, sort_ints,
}

module _ {J : Type 0} (conn : Connection J) (empty : J) (h : Tools) where
  -- The steps of a stream: text, thinking, or a whole tool call that was accepted. The flag says
  -- whether a tool call was sent.
  pub data Sent (b : Builder J) : Builder J → Bool → Type 0 where
    nothing : Sent b b false
    said : {c : Builder J} {e : Bool} → Sent b c e → (s : String) → Sent b (emit_text conn c s) e
    thought :
        {c : Builder J} {e : Bool} → Sent b c e → (s : String) → Sent b (emit_thinking conn c s) e
    called :
        {c : Builder J} {e : Bool}
        → Sent b c e
        → (id name args restored : String) → id ≢ ""
        → name ≢ ""
        → h.validate name args ≡ accepted restored
        → Sent b (emit_call conn empty h c id name restored) true

  module _ (b0 : Builder J) where
    -- `emitted_tool_call` tells whether a tool call was sent
    abbrev pub Traced : Outcome J → Type 0
    Traced (running m) = Sent b0 m.b m.emitted_tool_call
    Traced (panicked b) = (e : Bool) × Sent b0 b e

    abbrev TracedEmission : Emission J → Type 0
    TracedEmission (emission m f) = Sent b0 m.b (if f then true else m.emitted_tool_call)
    TracedEmission (emission_panicked b) = (e : Bool) × Sent b0 b e

    emit_kind-Sent :
        {b : Builder J} {e : Bool} (k : ChunkKind) (content : Bytes)
        → Sent b0 b e
        → Sent b0 (emit_kind conn empty h k b content) e
    emit_kind-Sent thinking_chunk content s = thought s (h.text_of content)
    emit_kind-Sent text_chunk content s = said s (h.text_of content)

    emit_chunks-Sent :
        (cs : List Chunk) {b : Builder J} {e : Bool}
        → Sent b0 b e
        → Sent b0 (emit_chunks conn empty h b cs) e
    emit_chunks-Sent [] s = s
    emit_chunks-Sent (c ∷ cs) s = emit_chunks-Sent cs (emit_kind-Sent c.kind c.content s)

    emit_tail-Sent :
        {b : Builder J} {e : Bool} (o : Option Chunk)
        → Sent b0 b e
        → Sent b0 (emit_tail conn empty h o b) e
    emit_tail-Sent none s = s
    emit_tail-Sent (some c) s = emit_kind-Sent c.kind c.content s

    emit_checked-Traced :
        (m : Machine J) (i : ℤ) (t : ToolTrack) (f : Bool) (r : Checked)
        → h.validate t.name t.args ≡ r
        → passed_over conn empty h t ≡ false
        → TracedEmission (emission m f)
        → TracedEmission (emit_checked conn empty h m i t f r)
    emit_checked-Traced m i t f (accepted restored) checked p s =
        called s t.id t.name t.args restored (λ z. absurd (ground (arith, str_eq_iff t.id "")))
          (λ z. absurd (ground (arith, str_eq_iff t.name ""))) checked
    emit_checked-Traced m i t f refused checked p s = s
    emit_checked-Traced m i t f crashed checked p s = (_, s)

    emit_track-Traced :
        (m : Machine J) (i : ℤ) (f : Bool) (o : Option ToolTrack)
        → TracedEmission (emission m f)
        → TracedEmission (emit_track conn empty h m i f o)
    emit_track-Traced m i f none s = s
    emit_track-Traced m i f (some t) s =
        if_cases (λ (x : Emission J). TracedEmission x) (passed_over conn empty h t) (λ _. s)
          (λ p. emit_checked-Traced m i t f (h.validate t.name t.args) refl p s)

    emit_at-Traced :
        (i : ℤ) (x : Emission J) → TracedEmission x → TracedEmission (emit_at conn empty h i x)
    emit_at-Traced i (emission m f) s = emit_track-Traced m i f (track_at i m.tools) s
    emit_at-Traced i (emission_panicked b) s = s

    emit_each-Traced :
        (is : List ℤ) (x : Emission J)
        → TracedEmission x
        → TracedEmission (emit_each conn empty h is x)
    emit_each-Traced [] x s = s
    emit_each-Traced (i ∷ is) x s =
        emit_each-Traced is (emit_at conn empty h i x) (emit_at-Traced i x s)

    note_emitted-Traced : (x : Emission J) → TracedEmission x → Traced (note_emitted conn empty h x)
    note_emitted-Traced (emission m f) s = s
    note_emitted-Traced (emission_panicked b) s = s

    pub emit_validated-Traced :
        (m : Machine J)
        → Sent b0 m.b m.emitted_tool_call
        → Traced (note_emitted conn empty h (emit_validated_tool_calls conn empty h m))
    unfolding emit_validated_tool_calls
    emit_validated-Traced m s =
        note_emitted-Traced _
          (emit_each-Traced (sort_ints (map (λ entry. entry.0) m.tools)) (emission m false) s)

    end_choice-Traced :
        (reason : String) (m : Machine J)
        → Sent b0 m.b m.emitted_tool_call
        → Traced (end_choice conn empty h reason m)
    end_choice-Traced reason m s =
        if_cases (λ (x : Outcome J). Traced x) (str_eq reason "") (λ _. s)
          (λ _.
            if_cases (λ (x : Outcome J). Traced x) (str_eq (map_stop_reason reason) "tool_use")
              (λ _. emit_validated-Traced (record m { finish_reason = reason }) s) (λ _. s))

    emit_reasoning-Sent :
        (text : String) (m : Machine J)
        → Sent b0 m.b m.emitted_tool_call
        → Traced (running (emit_reasoning conn empty h text m))
    emit_reasoning-Sent text m s =
        if_cases (λ (x : Machine J). Traced (running x)) (not (str_eq text ""))
          (λ _. thought s text) (λ _. s)

    emit_content-Sent :
        (text : String) (m : Machine J)
        → Sent b0 m.b m.emitted_tool_call
        → Traced (running (emit_content conn empty h text m))
    unfolding emit_parsed_text
    emit_content-Sent text m s =
        if_cases (λ (x : Machine J). Traced (running x)) (not (str_eq text ""))
          (λ _. emit_chunks-Sent (feed m.think_parser (h.bytes_of text)).chunks s) (λ _. s)

    on_choice-Traced :
        (ch : Choice) (o : Outcome J) → Traced o → Traced (on_choice conn empty h ch o)
    on_choice-Traced ch (panicked b) s = s
    on_choice-Traced ch (running m) s =
        let thinking = emit_reasoning conn empty h ch.delta.reasoning_content m in
        let spoken = emit_content conn empty h ch.delta.content thinking in
        end_choice-Traced ch.finish_reason (collect_calls conn empty h ch.delta.tool_calls spoken) (
          emit_content-Sent ch.delta.content thinking
            (emit_reasoning-Sent ch.delta.reasoning_content m s))

    on_choices-Traced :
        (cs : List Choice) (o : Outcome J) → Traced o → Traced (on_choices conn empty h cs o)
    on_choices-Traced [] o s = s
    on_choices-Traced (c ∷ cs) o s =
        on_choices-Traced cs (on_choice conn empty h c o) (on_choice-Traced c o s)

    count_tokens-Sent :
        (n : Option ℤ) (m : Machine J)
        → Sent b0 m.b m.emitted_tool_call
        → Traced (running (count_tokens conn empty h n m))
    count_tokens-Sent none m s = s
    count_tokens-Sent (some n) m s = s

    on_chunk-Traced :
        (c : Option ChatChunk) (m : Machine J)
        → Sent b0 m.b m.emitted_tool_call
        → Traced (on_chunk conn empty h c m)
    on_chunk-Traced none m s = s
    on_chunk-Traced (some c) m s =
        on_choices-Traced c.choices (running (count_tokens conn empty h c.usage m))
          (count_tokens-Sent c.usage m s)

    on_event-Traced :
        (payload : String) (o : Outcome J) → Traced o → Traced (on_event conn empty h payload o)
    on_event-Traced payload (panicked b) s = s
    on_event-Traced payload (running m) s =
        if_cases (λ (x : Outcome J). Traced x) (str_eq payload "" || str_eq payload "[DONE]")
          (λ _. s) (λ _. on_chunk-Traced (h.read_chunk payload) m s)

    pub on_events-Traced :
        (evs : List String) (o : Outcome J) → Traced o → Traced (on_events conn empty h evs o)
    on_events-Traced [] o s = s
    on_events-Traced (ev ∷ evs) o s =
        on_events-Traced evs (on_event conn empty h ev o) (on_event-Traced ev o s)

    pub flush_text-Sent :
        (m : Machine J)
        → Sent b0 m.b m.emitted_tool_call
        → Traced (running (flush_text conn empty h m))
    flush_text-Sent m s = emit_tail-Sent (flush m.think_parser).0 s
