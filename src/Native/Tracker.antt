-- ===== src/Native/Tracker.antt =====
-- internal/provider/anthropic/tracker.go: `streamTracker`, which knows the blocks that a relayed
-- stream has open, so that they can be stopped when the stream breaks off. Reading the lines of a
-- frame and its JSON is left to the caller: an observed frame is an event and, where its data could
-- be decoded, a payload.
pub mod Backwards
pub mod Numbers
pub mod Balance
use realy_code.Common.{
  ℕ, suc, String, ℤ, pos, negsuc, ◌+ℤ◌, ◌==ℤ◌, leb, Bool, true, false, not, ◌&&◌, ◌||◌, Option,
  none, some, List, [], ◌∷◌, ◌++◌, map, length, zero, str_eq, if◌then◌else◌,
}
use realy_code.Json.{Fields, no_fields, field, int, str, object, null, payload_index}
use realy_code.Native.Blocks.{Frame}

pub record StreamTracker : Type 0 where
  -- in the order of Go's slice: the last element is the last one opened
  pub opened : List ℤ
  pub max_index : ℤ
  pub saw_events : Bool

unfoldable pub new_stream_tracker : StreamTracker
new_stream_tracker = record { opened = []; max_index = negsuc 0; saw_events = false }

abbrev pub gtℤ : ℤ → ℤ → Bool
gtℤ (pos a) (pos b) = not (leb a b)
gtℤ (pos a) (negsuc b) = true
gtℤ (negsuc a) (pos b) = false
gtℤ (negsuc a) (negsuc b) = not (leb b a)

abbrev pub holds : ℤ → List ℤ → Bool
holds i [] = false
holds i (k ∷ ks) = (k ==ℤ i) || holds i ks

-- `removeOpen`: the loop runs from the end and takes out the last element that is `i`
abbrev pub remove_open : ℤ → List ℤ → List ℤ
remove_open i [] = []
remove_open i (k ∷ ks) =
    let rest = remove_open i ks in if holds i ks then k ∷ rest else if k ==ℤ i then ks else k ∷ rest

-- `observe` behind the reading of the frame's lines: a frame without an event and without data
-- is no event, and `payload` is none where the data are no JSON object
unfoldable pub observe_at : StreamTracker → String → Option ℤ → StreamTracker
observe_at t event none = record t { saw_events = true }
observe_at t event (some i) =
    if str_eq event "content_block_start"
    then record {
      opened = t.opened ++ (i ∷ []);
      max_index = if gtℤ i t.max_index then i else t.max_index;
      saw_events = true;
    }
    else if str_eq event "content_block_stop"
    then record t { opened = remove_open i t.opened; saw_events = true }
    else record t { saw_events = true }

abbrev decoded_index : Option Fields → Option ℤ
decoded_index none = none
decoded_index (some fs) = payload_index fs

unfoldable pub observe : StreamTracker → String → Option Fields → StreamTracker
unfolding observe_at
observe t event payload = observe_at t event (decoded_index payload)

abbrev last_of : ℤ → List ℤ → ℤ
last_of i [] = i
last_of i (k ∷ ks) = last_of k ks

abbrev init_of : ℤ → List ℤ → List ℤ
init_of i [] = []
init_of i (k ∷ ks) = i ∷ init_of k ks

-- `PopOpen`: `none` where the code returns false
unfoldable pub pop_open : StreamTracker → Option (ℤ × StreamTracker)
pop_open t = elim t.opened [
  | [] ↦ none
  | i ∷ is ↦ some (last_of i is, record t { opened = init_of i is })
]

unfoldable pub next_index : StreamTracker → ℤ
next_index t = t.max_index +ℤ pos 1

-- the loop over `PopOpen` in `emitStreamErrorTail` of anthropic.go: the numbers it pops, and on fuel
abbrev pub pop_all : ℕ → StreamTracker → List ℤ
unfolding pop_open
pop_all zero t = []
pop_all (suc n) t = elim (pop_open t) [ none ↦ [] | some (i, rest) ↦ i ∷ pop_all n rest ]

abbrev pub stop_at : ℤ → Frame
stop_at i = record {
  event = "content_block_stop";
  payload = field "type" (str "content_block_stop") (field "index" (int i) no_fields);
}

-- the block of text that tells the client of the error, and the end of the message
abbrev pub error_block : ℤ → String → List Frame
error_block i msg =
    record {
      event = "content_block_start";
      payload = field "type" (str "content_block_start") (
          field "index" (int i) (
            field "content_block"
              (object (field "type" (str "text") (field "text" (str "") no_fields))) no_fields));
    }
    ∷ record {
      event = "content_block_delta";
      payload = field "type" (str "content_block_delta") (
          field "index" (int i) (
            field "delta"
              (object (field "type" (str "text_delta") (field "text" (str msg) no_fields)))
              no_fields));
    }
    ∷ stop_at i
    ∷ record {
      event = "message_delta";
      payload = field "type" (str "message_delta") (
          field "delta"
            (object (field "stop_reason" (str "end_turn") (field "stop_sequence" null no_fields)))
            (field "usage"
              (object (
                field "input_tokens" (int (pos 0)) (field "output_tokens" (int (pos 1)) no_fields)))
              no_fields));
    }
    ∷ record { event = "message_stop"; payload = field "type" (str "message_stop") no_fields }
    ∷ []

pub data ErrorTail : Type 0 where
  -- `b.Start()` and `b.FinishWithError(msg)`
  whole_message : String → ErrorTail
  -- the events that are written behind those of the upstream
  events : List Frame → ErrorTail

unfoldable pub emit_stream_error_tail : StreamTracker → String → ErrorTail
unfolding next_index
emit_stream_error_tail t msg =
    let stops = map stop_at (pop_all (length t.opened) t) in
    if not t.saw_events then whole_message msg else events (stops ++ error_block (next_index t) msg)
