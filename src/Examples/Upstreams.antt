-- ===== src/Examples/Upstreams.antt =====
-- Runs of the native policy and of the tracker.
use realy_code.Common.{String, ℤ, pos, false, Option, none, some, List, [], ◌∷◌}
use realy_code.Json.{Fields, no_fields, field, int, str, object}
use realy_code.Native.Blocks.{Codec, NativePolicy, new_native_policy, allocate}
use realy_code.Native.Policy.Numbering.{Numbered, starts, relay, relay_counts}
use realy_code.Native.Tracker.{new_stream_tracker, emit_stream_error_tail}
use realy_code.Native.Tracker.Balance.{IsEnding, observe_all, tail_stops_all}

-- a codec that keeps the empty object alone
abbrev blank : Codec
blank = record { marshal = λ fs. "{}"; unmarshal = λ s. some no_fields; decimal = λ i. "7" }

abbrev start_of : ℤ → String → Fields
start_of i kind =
    field "index" (int i)
      (field "content_block" (object (field "type" (str kind) no_fields)) no_fields)

abbrev delta_of : ℤ → String → Fields
delta_of i kind =
    field "index" (int i) (field "delta" (object (field "type" (str kind) no_fields)) no_fields)

-- a block of thinking, which is dropped, then text, and a tool that begins without a start
abbrev stream : List (String × Fields)
stream =
    ("content_block_start", start_of (pos 0) "thinking")
    ∷ ("content_block_start", start_of (pos 1) "text")
    ∷ ("content_block_delta", delta_of (pos 1) "text_delta")
    ∷ ("content_block_delta", delta_of (pos 2) "input_json_delta")
    ∷ []

relay_counts_example :
    Numbered 0
      (starts (relay blank new_native_policy false stream).frames)
      (relay blank new_native_policy false stream).policy.next_index
relay_counts_example = relay_counts blank false stream

abbrev after_text : NativePolicy
after_text = allocate blank new_native_policy (pos 1) "text" none

abbrev seen : List (String × Option Fields)
seen =
    ("content_block_start", some (start_of (pos 0) "text"))
    ∷ ("content_block_stop", some (start_of (pos 0) "text"))
    ∷ ("content_block_start", some (start_of (pos 1) "text"))
    ∷ ("ping", none)
    ∷ []

tail_stops_all_example :
    IsEnding seen "cut off" (emit_stream_error_tail (observe_all new_stream_tracker seen) "cut off")
tail_stops_all_example = tail_stops_all seen "cut off"
