-- ===== src/Native/Policy.antt =====
-- The handlers of `nativePolicy` of internal/provider/anthropic/policy.go, which renumber the content blocks
-- of an upstream's stream and drop its thinking blocks.
pub mod Numbering
pub mod Opening
use text.Mathlib.Text.{find?}
use realy_code.Common.{
  ℕ, suc, String, ℤ, pos, ◌==ℤ◌, Bool, true, false, not, ◌&&◌, ◌||◌, Option, none, some, List, [],
  ◌∷◌, ◌++◌, str_eq, concat, if◌then◌else◌,
}
use realy_code.Json.{
  Value, int, str, object, Fields, no_fields, field, get_field, set_field, as_string, as_object,
  look, payload_index,
}
use realy_code.Native.Blocks.{
  UpstreamBlock, NativePolicy, Codec, Frame, Answer, new_native_policy, format_sse_frame,
  write_frames, should_drop_kind, delta_kind, find_block, put_block, put_flag, clone_map,
  synthetic_start, allocate, with_index, Closed, stop_frame, close_each, close_other_open,
}

module _ (j : Codec) where
  -- `transformStart` behind the guard for dropped kinds
  unfoldable pub start_block : NativePolicy → String → Fields → ℤ → String → Option Fields → Answer
  unfolding allocate close_other_open
  start_block p event payload i kind block =
      let closed = close_other_open p i in
      record {
        policy = allocate j closed.policy i kind block;
        frames =
            closed.frames
            ++ (record { event = event; payload = with_index closed.policy.next_index payload }
                ∷ []);
      }

  -- `transformStart`, with what `payloadIndex` gives
  unfoldable pub start_at : NativePolicy → String → Fields → Bool → Option ℤ → Answer
  unfolding start_block
  start_at p event payload thinking none = record {
    policy = p;
    frames = record { event = event; payload = payload } ∷ [];
  }
  start_at p event payload thinking (some i) =
      let block = as_object (get_field "content_block" payload) in
      let kind = as_string (look "type" block) in
      if should_drop_kind kind thinking
      then record { policy = record p { dropped = put_flag i true p.dropped }; frames = [] }
      else start_block p event payload i kind block

  unfoldable pub transform_start : NativePolicy → String → Fields → Bool → Answer
  unfolding start_at
  transform_start p event payload thinking =
      start_at p event payload thinking (payload_index payload)

  -- a start that the upstream did not send, then the delta
  unfoldable pub begin_block :
      NativePolicy → String → Fields → ℤ → String → Option Fields → Fields → Answer
  unfolding allocate
  begin_block p event payload i kind stored start = record {
    policy = allocate j p i kind stored;
    frames =
        record {
          event = "content_block_start";
          payload = field "type" (str "content_block_start") (
              field "index" (int (pos p.next_index))
                (field "content_block" (object start) no_fields));
        }
        ∷ record { event = event; payload = with_index p.next_index payload }
        ∷ [];
  }

  -- `transformDelta` behind its guards
  unfoldable pub delta_to :
      NativePolicy → String → Fields → ℤ → String → Option UpstreamBlock → Answer
  unfolding begin_block synthetic_start
  delta_to p event payload i kind (some b) =
      if b.is_open
      then record {
        policy = p;
        frames = record { event = event; payload = with_index b.down_index payload } ∷ [];
      }
      else begin_block (record p { suppressed_stops = put_flag i false p.suppressed_stops }) event
          payload i kind b.start (synthetic_start j kind i b.start)
  delta_to p event payload i kind none =
      let start = synthetic_start j kind i none in
      if str_eq kind "text" || str_eq kind "tool_use" || str_eq kind "thinking"
      then begin_block p event payload i kind (some start) start
      else record { policy = p; frames = record { event = event; payload = payload } ∷ [] }

  -- `transformDelta`, with what `payloadIndex` gives
  unfoldable pub delta_at : NativePolicy → String → Fields → Bool → Option ℤ → Answer
  unfolding delta_to
  delta_at p event payload thinking none = record {
    policy = p;
    frames = record { event = event; payload = payload } ∷ [];
  }
  delta_at p event payload thinking (some i) =
      let delta_type = as_string (look "type" (as_object (get_field "delta" payload))) in
      let kind = delta_kind delta_type in
      if p.dropped i
      then record { policy = p; frames = [] }
      else if should_drop_kind delta_type thinking
      then record { policy = p; frames = [] }
      else if str_eq kind ""
      then record { policy = p; frames = record { event = event; payload = payload } ∷ [] }
      else delta_to p event payload i kind (find_block i p.by_upstream)

  unfoldable pub transform_delta : NativePolicy → String → Fields → Bool → Answer
  unfolding delta_at
  transform_delta p event payload thinking =
      delta_at p event payload thinking (payload_index payload)

-- `transformStop` behind its guards
unfoldable pub stop_block :
    NativePolicy → String → Fields → Bool → ℤ → Option UpstreamBlock → Answer
stop_block p event payload thinking i (some b) =
    if b.is_open
    then record {
      policy = record p { by_upstream = put_block i (record b { is_open = false }) p.by_upstream };
      frames = record { event = event; payload = with_index b.down_index payload } ∷ [];
    }
    else record { policy = p; frames = [] }
stop_block p event payload thinking i none =
    if not thinking
    then record { policy = p; frames = [] }
    else record { policy = p; frames = record { event = event; payload = payload } ∷ [] }

-- `transformStop`, with what `payloadIndex` gives
unfoldable pub stop_at : NativePolicy → String → Fields → Bool → Option ℤ → Answer
unfolding stop_block
stop_at p event payload thinking none = record {
  policy = p;
  frames = record { event = event; payload = payload } ∷ [];
}
stop_at p event payload thinking (some i) =
    if p.dropped i
    then record { policy = p; frames = [] }
    else if p.suppressed_stops i
    then record {
      policy = record p { suppressed_stops = put_flag i false p.suppressed_stops };
      frames = [];
    }
    else stop_block p event payload thinking i (find_block i p.by_upstream)

unfoldable pub transform_stop : NativePolicy → String → Fields → Bool → Answer
unfolding stop_at
transform_stop p event payload thinking = stop_at p event payload thinking (payload_index payload)

-- `Transform` on a frame whose event and data were read
unfoldable pub transform : Codec → NativePolicy → String → Fields → Bool → Answer
unfolding transform_start transform_delta transform_stop
transform j p event payload thinking =
    if str_eq event "content_block_start"
    then transform_start j p event payload thinking
    else if str_eq event "content_block_delta"
    then transform_delta j p event payload thinking
    else if str_eq event "content_block_stop"
    then transform_stop p event payload thinking
    else record { policy = p; frames = record { event = event; payload = payload } ∷ [] }
