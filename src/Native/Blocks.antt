-- ===== src/Native/Blocks.antt =====
-- The state of `nativePolicy` of internal/provider/anthropic/policy.go, and the helpers of its handlers. A
-- string that the code returns is a list of frames here; `write_frames` is the string. A map from
-- numbers to Booleans is a function, false where Go has no entry.
use text.Mathlib.Text.{find?}
use realy_code.Common.{
  ℕ, suc, String, ℤ, pos, ◌==ℤ◌, Bool, true, false, not, ◌||◌, Option, none, some, List, [], ◌∷◌,
  str_eq, concat, if◌then◌else◌,
}
use realy_code.Json.{
  int, str, object, Fields, no_fields, field, set_field, as_string, as_object, look,
}

pub record UpstreamBlock : Type 0 where
  pub kind : String
  pub down_index : ℕ
  pub is_open : Bool
  pub start : Option Fields

pub record NativePolicy : Type 0 where
  pub next_index : ℕ
  pub by_upstream : List (ℤ × UpstreamBlock)
  pub dropped : ℤ → Bool
  pub suppressed_stops : ℤ → Bool

-- what `encoding/json` and `fmt.Sprintf("%d")` do
pub record Codec : Type 0 where
  pub marshal : Fields → String
  pub unmarshal : String → Option Fields
  pub decimal : ℤ → String

pub record Frame : Type 0 where
  pub event : String
  pub payload : Fields

pub record Answer : Type 0 where
  pub policy : NativePolicy
  pub frames : List Frame

unfoldable pub new_native_policy : NativePolicy
new_native_policy = record {
  next_index = 0;
  by_upstream = [];
  dropped = λ i. false;
  suppressed_stops = λ i. false;
}

abbrev pub format_sse_frame : Codec → Frame → String
format_sse_frame j f = concat ("event: " ∷ f.event ∷ "\ndata: " ∷ j.marshal f.payload ∷ "\n\n" ∷ [])

abbrev pub write_frames : Codec → List Frame → String
write_frames j [] = ""
write_frames j (f ∷ fs) = concat (format_sse_frame j f ∷ write_frames j fs ∷ [])

abbrev pub should_drop_kind : String → Bool → Bool
should_drop_kind kind true = false
should_drop_kind kind false = elim (find? kind "thinking") [ none ↦ false | some _ ↦ true ]

abbrev pub delta_kind : String → String
delta_kind t =
    if str_eq t "thinking_delta" || str_eq t "signature_delta"
    then "thinking"
    else if str_eq t "text_delta"
    then "text"
    else if str_eq t "input_json_delta"
    then "tool_use"
    else ""

abbrev pub find_block : ℤ → List (ℤ × UpstreamBlock) → Option UpstreamBlock
find_block i [] = none
find_block i ((k, b) ∷ bs) = let later = find_block i bs in if k ==ℤ i then some b else later

abbrev pub put_block : ℤ → UpstreamBlock → List (ℤ × UpstreamBlock) → List (ℤ × UpstreamBlock)
put_block i b [] = (i, b) ∷ []
put_block i b ((k, c) ∷ bs) =
    let later = put_block i b bs in if k ==ℤ i then (i, b) ∷ bs else (k, c) ∷ later

-- `m[i] = b`, and `delete(m, i)` with false
abbrev pub put_flag : ℤ → Bool → (ℤ → Bool) → ℤ → Bool
put_flag i b m k = if k ==ℤ i then b else m k

-- `cloneMap`
abbrev pub clone_map : Codec → Option Fields → Option Fields
clone_map j none = none
clone_map j (some fs) = j.unmarshal (j.marshal fs)

module _ (j : Codec) where
  -- `fmt.Sprintf("toolu_or_%d", upstream)`
  abbrev tool_id : ℤ → String
  tool_id upstream = concat ("toolu_or_" ∷ j.decimal upstream ∷ [])

  abbrev tool_start : String → String → Fields → Fields
  tool_start id name input =
      field "type" (str "tool_use")
        (field "id" (str id) (field "name" (str name) (field "input" (object input) no_fields)))

  abbrev stored_input : Option Fields → Fields
  stored_input none = no_fields
  stored_input (some fs) = fs

  unfoldable pub synthetic_start : String → ℤ → Option Fields → Fields
  synthetic_start kind upstream stored =
      let id = as_string (look "id" stored) in
      let name = as_string (look "name" stored) in
      let input = stored_input (as_object (look "input" stored)) in
      if str_eq kind "tool_use"
      then (if str_eq (as_string (look "type" stored)) "tool_use"
          then tool_start (if str_eq id "" then tool_id upstream else id) name input
          else tool_start (tool_id upstream) "" no_fields)
      else if str_eq kind "thinking"
      then field "type" (str "thinking") (field "thinking" (str "") no_fields)
      else field "type" (str "text") (field "text" (str "") no_fields)

  unfoldable pub allocate : NativePolicy → ℤ → String → Option Fields → NativePolicy
  allocate p upstream kind start = record p {
    next_index = suc p.next_index;
    by_upstream =
        put_block upstream
          (record {
            kind = kind;
            down_index = p.next_index;
            is_open = true;
            start = clone_map j start;
          })
          p.by_upstream;
  }

abbrev pub with_index : ℕ → Fields → Fields
with_index n payload = set_field "index" (int (pos n)) payload

-- what the loop of `closeOtherOpen` has done
pub record Closed : Type 0 where
  pub blocks : List (ℤ × UpstreamBlock)
  pub stops : List Frame
  pub suppressed : ℤ → Bool

abbrev pub stop_frame : UpstreamBlock → Frame
stop_frame b = record {
  event = "content_block_stop";
  payload =
      field "type" (str "content_block_stop") (field "index" (int (pos b.down_index)) no_fields);
}

unfoldable pub close_each : ℤ → (ℤ → Bool) → List (ℤ × UpstreamBlock) → Closed
close_each current suppressed [] = record { blocks = []; stops = []; suppressed = suppressed }
close_each current suppressed ((upstream, b) ∷ bs) =
    let passed = close_each current suppressed bs in
    let closed = close_each current (put_flag upstream true suppressed) bs in
    if upstream ==ℤ current || not b.is_open
    then record passed { blocks = (upstream, b) ∷ passed.blocks }
    else record closed {
      blocks = (upstream, record b { is_open = false }) ∷ closed.blocks;
      stops = stop_frame b ∷ closed.stops;
    }

unfoldable pub close_other_open : NativePolicy → ℤ → Answer
unfolding close_each
close_other_open p current =
    let c = close_each current p.suppressed_stops p.by_upstream in
    record {
      policy = record p { by_upstream = c.blocks; suppressed_stops = c.suppressed };
      frames = c.stops;
    }
