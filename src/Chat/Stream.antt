-- ===== src/Chat/Stream.antt =====
-- `Stream` of internal/provider/chat/chat.go, from the first event of the answer on: the chunks become calls
-- of the builder, and the tool calls that arrive in pieces are collected and checked.
pub mod Sent
pub mod Ended
pub mod Closing
pub mod Indices
pub mod Complete
use realy_code.Common.{
  ℤ, pos, negsuc, ◌==ℤ◌, String, Bool, true, false, not, ◌&&◌, ◌||◌, Option, none, some, List, [],
  ◌∷◌, ◌++◌, map, str_eq, leb, ltb, concat, if◌then◌else◌,
}
use realy_code.Sse.Writer.{Connection}
use realy_code.Sse.Builder.{
  Builder, start, emit_text, emit_thinking, start_tool, emit_tool_input, stop_tool, set_stop_reason,
  set_output_tokens, finish, finish_with_error,
}
use realy_code.Streams.Bytes.{Bytes}
use realy_code.Streams.Think.{
  ChunkKind, text_chunk, thinking_chunk, Chunk, ThinkTagParser, feed, flush,
}
use realy_code.Guard.Registry.{Checked, accepted, refused, crashed}

-- one item of `tool_calls` in a chunk
pub record ToolCallDelta : Type 0 where
  pub index : ℤ
  pub id : String
  pub name : String
  pub arguments : String

pub record ChoiceDelta : Type 0 where
  pub content : String
  pub reasoning_content : String
  pub tool_calls : List ToolCallDelta

pub record Choice : Type 0 where
  pub delta : ChoiceDelta
  pub finish_reason : String

-- `usage` by its completion tokens, `none` where the chunk has none
pub record ChatChunk : Type 0 where
  pub choices : List Choice
  pub usage : Option ℤ

-- `toolTrack`
pub record ToolTrack : Type 0 where
  pub id : String
  pub name : String
  pub args : String
  pub emitted : Bool

-- the variables of `Stream`
pub record Machine (J : Type 0) : Type 0 where
  pub b : Builder J
  pub tools : List (ℤ × ToolTrack)
  pub finish_reason : String
  pub completion_tokens : ℤ
  pub emitted_tool_call : Bool
  pub think_parser : ThinkTagParser

-- `panicked` is the builder as a panic of the check of a tool call leaves it
pub data Outcome (J : Type 0) : Type 0 where
  running : Machine J → Outcome J
  panicked : Builder J → Outcome J

-- what the emission of tool calls comes to: the state, and whether one was emitted
pub data Emission (J : Type 0) : Type 0 where
  emission : Machine J → Bool → Emission J
  emission_panicked : Builder J → Emission J

-- what the upstream does: no answer, or the data of the events and the error that cuts them off
pub data Answer : Type 0 where
  no_answer : String → Answer
  answer : List String → Option String → Answer

-- `json.Unmarshal` into a chunk; `registry.Validate`; and the bytes of a text, as Go's strings have them
pub record Tools : Type 0 where
  pub read_chunk : String → Option ChatChunk
  pub validate : String → String → Checked
  pub bytes_of : String → Bytes
  pub text_of : Bytes → String

unfoldable pub map_stop_reason : String → String
map_stop_reason openai =
    if str_eq openai "stop"
    then "end_turn"
    else if str_eq openai "length"
    then "max_tokens"
    else if str_eq openai "tool_calls" || str_eq openai "function_call"
    then "tool_use"
    else "end_turn"

-- `tools[idx]`
abbrev pub track_at : ℤ → List (ℤ × ToolTrack) → Option ToolTrack
track_at i [] = none
track_at i ((j, t) ∷ ts) = let later = track_at i ts in if j ==ℤ i then some t else later

abbrev pub put_track : ℤ → ToolTrack → List (ℤ × ToolTrack) → List (ℤ × ToolTrack)
put_track i t [] = (i, t) ∷ []
put_track i t ((j, u) ∷ ts) =
    let later = put_track i t ts in if j ==ℤ i then (j, t) ∷ ts else (j, u) ∷ later

abbrev pub new_track : ToolCallDelta → ToolTrack
new_track tc = record { id = tc.id; name = tc.name; args = ""; emitted = false }

abbrev pub or_new : ToolCallDelta → Option ToolTrack → ToolTrack
or_new tc none = new_track tc
or_new tc (some t) = t

abbrev pub extend_track : ToolCallDelta → ToolTrack → ToolTrack
extend_track tc t = record t {
  id = if not (str_eq tc.id "") && str_eq t.id "" then tc.id else t.id;
  name = if not (str_eq tc.name "") && str_eq t.name "" then tc.name else t.name;
  args = concat (t.args ∷ tc.arguments ∷ []);
}

-- the loop over `d.ToolCalls`
abbrev pub collect : List ToolCallDelta → List (ℤ × ToolTrack) → List (ℤ × ToolTrack)
collect [] tools = tools
collect (tc ∷ tcs) tools =
    collect tcs (put_track tc.index (extend_track tc (or_new tc (track_at tc.index tools))) tools)

abbrev pub at_most : ℤ → ℤ → Bool
at_most (pos a) (pos b) = leb a b
at_most (negsuc a) (pos b) = true
at_most (pos a) (negsuc b) = false
at_most (negsuc a) (negsuc b) = leb b a

abbrev pub insert_index : ℤ → List ℤ → List ℤ
insert_index i [] = i ∷ []
insert_index i (j ∷ js) =
    let later = insert_index i js in if at_most i j then i ∷ j ∷ js else j ∷ later

-- `sort.Ints`
abbrev pub sort_ints : List ℤ → List ℤ
sort_ints [] = []
sort_ints (i ∷ is) = insert_index i (sort_ints is)

abbrev pub is_positive : ℤ → Bool
is_positive (pos n) = ltb 0 n
is_positive (negsuc n) = false

module _ {J : Type 0} (conn : Connection J) (empty : J) (h : Tools) where
  abbrev pub emit_kind : ChunkKind → Builder J → Bytes → Builder J
  emit_kind thinking_chunk b content = emit_thinking conn b (h.text_of content)
  emit_kind text_chunk b content = emit_text conn b (h.text_of content)

  abbrev pub emit_chunks : Builder J → List Chunk → Builder J
  emit_chunks b [] = b
  emit_chunks b (c ∷ cs) = emit_chunks (emit_kind c.kind b c.content) cs

  -- `emitParsedText`
  unfoldable pub emit_parsed_text : Machine J → String → Machine J
  emit_parsed_text m text =
      let fed = feed m.think_parser (h.bytes_of text) in
      record m { b = emit_chunks m.b fed.chunks; think_parser = fed.parser }

  -- `StartTool`, `EmitToolInput`, `StopTool`
  abbrev pub emit_call : Builder J → String → String → String → Builder J
  emit_call b id name restored =
      stop_tool conn (emit_tool_input conn (start_tool conn b empty id name) id restored) id

  abbrev pub emit_checked : Machine J → ℤ → ToolTrack → Bool → Checked → Emission J
  emit_checked m idx t emitted (accepted restored) =
      emission
        (record m {
          b = emit_call m.b t.id t.name restored;
          tools = put_track idx (record t { emitted = true }) m.tools;
        })
        true
  emit_checked m idx t emitted refused = emission m emitted
  emit_checked m idx t emitted crashed = emission_panicked m.b

  abbrev pub passed_over : ToolTrack → Bool
  passed_over t = t.emitted || (str_eq t.id "" || str_eq t.name "")

  abbrev pub emit_track : Machine J → ℤ → Bool → Option ToolTrack → Emission J
  emit_track m idx emitted none = emission m emitted
  emit_track m idx emitted (some t) =
      if passed_over t
      then emission m emitted
      else emit_checked m idx t emitted (h.validate t.name t.args)

  abbrev pub emit_at : ℤ → Emission J → Emission J
  emit_at idx (emission_panicked b) = emission_panicked b
  emit_at idx (emission m emitted) = emit_track m idx emitted (track_at idx m.tools)

  abbrev pub emit_each : List ℤ → Emission J → Emission J
  emit_each [] e = e
  emit_each (i ∷ is) e = emit_each is (emit_at i e)

  -- `emitValidatedToolCalls`
  unfoldable pub emit_validated_tool_calls : Machine J → Emission J
  emit_validated_tool_calls m =
      emit_each (sort_ints (map (λ entry. entry.0) m.tools)) (emission m false)

  -- `if emitValidatedToolCalls() { emittedToolCall = true }`
  abbrev pub note_emitted : Emission J → Outcome J
  note_emitted (emission_panicked b) = panicked b
  note_emitted (emission m emitted) =
      running (record m { emitted_tool_call = if emitted then true else m.emitted_tool_call })

  -- the finish reason of a choice
  abbrev pub end_choice : String → Machine J → Outcome J
  end_choice reason m =
      if str_eq reason ""
      then running m
      else if str_eq (map_stop_reason reason) "tool_use"
      then note_emitted (emit_validated_tool_calls (record m { finish_reason = reason }))
      else running (record m { finish_reason = reason })

  abbrev pub emit_reasoning : String → Machine J → Machine J
  emit_reasoning s m = if not (str_eq s "") then record m { b = emit_thinking conn m.b s } else m

  abbrev pub emit_content : String → Machine J → Machine J
  emit_content s m = if not (str_eq s "") then emit_parsed_text m s else m

  abbrev pub collect_calls : List ToolCallDelta → Machine J → Machine J
  collect_calls tcs m = record m { tools = collect tcs m.tools }

  -- the body of the loop over `c.Choices`
  abbrev pub on_choice : Choice → Outcome J → Outcome J
  on_choice ch (panicked b) = panicked b
  on_choice ch (running m) = end_choice ch.finish_reason (
      collect_calls ch.delta.tool_calls
        (emit_content ch.delta.content (emit_reasoning ch.delta.reasoning_content m)))

  abbrev pub on_choices : List Choice → Outcome J → Outcome J
  on_choices [] o = o
  on_choices (c ∷ cs) o = on_choices cs (on_choice c o)

  abbrev pub count_tokens : Option ℤ → Machine J → Machine J
  count_tokens none m = m
  count_tokens (some n) m = record m { completion_tokens = n }

  abbrev pub on_chunk : Option ChatChunk → Machine J → Outcome J
  on_chunk none m = running m
  on_chunk (some c) m = on_choices c.choices (running (count_tokens c.usage m))

  -- the function given to `IterSSE`
  abbrev pub on_event : String → Outcome J → Outcome J
  on_event payload (panicked b) = panicked b
  on_event payload (running m) =
      if str_eq payload "" || str_eq payload "[DONE]"
      then running m
      else on_chunk (h.read_chunk payload) m

  abbrev pub on_events : List String → Outcome J → Outcome J
  on_events [] o = o
  on_events (ev ∷ evs) o = on_events evs (on_event ev o)

  -- the tail that `Flush` gives
  abbrev pub emit_tail : Option Chunk → Builder J → Builder J
  emit_tail none b = b
  emit_tail (some c) b = emit_kind c.kind b c.content

  abbrev pub flush_text : Machine J → Machine J
  flush_text m =
      let flushed = flush m.think_parser in
      record m { b = emit_tail flushed.0 m.b; think_parser = flushed.1 }

  abbrev pub final_reason : String → Bool → String
  final_reason reason emitted =
      if str_eq reason "tool_use" && not emitted then "end_turn" else reason

  abbrev pub count_output : ℤ → Builder J → Builder J
  count_output n b = if is_positive n then set_output_tokens b n else b

  abbrev pub conclude : Outcome J → Outcome J
  conclude (panicked b) = panicked b
  conclude (running m) = running (record m {
    b = finish conn (
        set_stop_reason (count_output m.completion_tokens m.b)
          (final_reason (map_stop_reason m.finish_reason) m.emitted_tool_call));
  })

  -- what follows `IterSSE`
  abbrev pub after_events : Option String → Outcome J → Outcome J
  after_events why (panicked b) = panicked b
  after_events (some msg) (running m) = running (record m { b = finish_with_error conn m.b msg })
  after_events none (running m) = conclude (note_emitted (emit_validated_tool_calls (flush_text m)))

  abbrev pub new_machine : Builder J → Machine J
  new_machine b = record {
    b = b;
    tools = [];
    finish_reason = "";
    completion_tokens = pos 0;
    emitted_tool_call = false;
    think_parser = record { buffer = []; in_tag = false };
  }

  abbrev pub stream_from : Builder J → Answer → Outcome J
  stream_from b (no_answer msg) = running (new_machine (finish_with_error conn b msg))
  stream_from b (answer evs why) = after_events why (on_events evs (running (new_machine b)))

  -- `Stream`, once the request is built
  unfoldable pub stream : Builder J → Answer → Outcome J
  unfolding emit_parsed_text emit_validated_tool_calls map_stop_reason
  stream b a = stream_from (start conn b) a
