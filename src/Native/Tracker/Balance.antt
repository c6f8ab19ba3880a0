-- ===== src/Native/Tracker/Balance.antt =====
-- What the tracker of tracker.go promises to the error tail of anthropic.go.
use realy_code.Common.{
  String, ℤ, true, not, Option, none, some, List, [], ◌∷◌, ◌++◌, map, length, ◌≡◌, refl, sym, ap,
  ◌∙◌, str_eq, if◌then◌else◌, if_cases, if_false, inl, inr, Bool-cases,
}
use realy_code.Json.{Fields, payload_index}
use realy_code.Native.Tracker.{
  StreamTracker, ErrorTail, new_stream_tracker, gtℤ, observe_at, observe, decoded_index, next_index,
  stop_at, error_block, whole_message, events, emit_stream_error_tail,
}
use realy_code.Native.Tracker.Backwards.{
  backwards, pop_all-backwards, without_newest, backwards-grow, backwards-remove_open,
}
use realy_code.Native.Tracker.Numbers.{up_to, up_to-grow, up_to-keep, all_below, all_below-next}

-- the frames that were relayed, each an event and its data, if these were an object
unfoldable pub observe_all : StreamTracker → List (String × Option Fields) → StreamTracker
observe_all t [] = t
observe_all t ((event, payload) ∷ rest) = observe_all (observe t event payload) rest

-- The stream as the client sees it, apart from the tracker: the numbers of the blocks that are open
-- after the frames, the newest first. A start opens the block of its number, and a stop ends the
-- newest one of its number.
abbrev open_after : List ℤ → String → Option ℤ → List ℤ
open_after blocks event none = blocks
open_after blocks event (some i) =
    if str_eq event "content_block_start"
    then i ∷ blocks
    else if str_eq event "content_block_stop"
    then without_newest i blocks
    else blocks

abbrev index_in : Option Fields → Option ℤ
index_in none = none
index_in (some fs) = payload_index fs

abbrev open_blocks : List ℤ → List (String × Option Fields) → List ℤ
open_blocks blocks [] = blocks
open_blocks blocks ((event, payload) ∷ rest) =
    open_blocks (open_after blocks event (index_in payload)) rest

-- the numbers under which blocks were started
abbrev started_at : String → Option ℤ → List ℤ
started_at event none = []
started_at event (some i) = if str_eq event "content_block_start" then i ∷ [] else []

abbrev started_blocks : List (String × Option Fields) → List ℤ
started_blocks [] = []
started_blocks ((event, payload) ∷ rest) =
    started_at event (index_in payload) ++ started_blocks rest

observe_at-open_after :
    (t : StreamTracker) (event : String) (i : Option ℤ)
    → backwards (observe_at t event i).opened ≡ open_after (backwards t.opened) event i
unfolding observe_at
observe_at-open_after t event none = refl
observe_at-open_after t event (some i) = elim (Bool-cases (str_eq event "content_block_start")) [
  | inl s ↦ rw s (backwards-grow i t.opened)
  | inr s ↦ elim (Bool-cases (str_eq event "content_block_stop")) [
    | inl u ↦ rw s (rw u (backwards-remove_open i t.opened))
    | inr u ↦ rw s (rw u)
  ]
]

index_in-decoded : (payload : Option Fields) → decoded_index payload ≡ index_in payload
index_in-decoded none = refl
index_in-decoded (some fs) = refl

observe_all-open_blocks :
    (t : StreamTracker) (seen : List (String × Option Fields))
    → backwards (observe_all t seen).opened ≡ open_blocks (backwards t.opened) seen
unfolding observe_all observe
observe_all-open_blocks t [] = refl
observe_all-open_blocks t ((event, payload) ∷ rest) =
    observe_all-open_blocks (observe t event payload) rest
    ∙ ap (λ bs. open_blocks bs rest)
        (observe_at-open_after t event (decoded_index payload)
          ∙ ap (open_after (backwards t.opened) event) (index_in-decoded payload))

append_none : (is : List ℤ) → is ++ [] ≡ is
append_none [] = refl
append_none (i ∷ is) = ap (λ js. i ∷ js) (append_none is)

append_twice : (is js ks : List ℤ) → (is ++ js) ++ ks ≡ is ++ (js ++ ks)
append_twice [] js ks = refl
append_twice (i ∷ is) js ks = ap (λ us. i ∷ us) (append_twice is js ks)

observe_at-started_at :
    (t : StreamTracker) (event : String) (i : Option ℤ) (before : List ℤ)
    → up_to t.max_index before ≡ true
    → up_to (observe_at t event i).max_index (before ++ started_at event i) ≡ true
unfolding observe_at
observe_at-started_at t event none before h = rw (append_none before) h
observe_at-started_at t event (some i) before h =
    elim (Bool-cases (str_eq event "content_block_start")) [
      | inl s ↦ rw s (
          if_cases (λ (m : ℤ). up_to m (before ++ (i ∷ [])) ≡ true) (gtℤ i t.max_index)
            (λ g. up_to-grow t.max_index i before g h) (λ g. up_to-keep t.max_index i before g h))
      | inr s ↦ rw s (
          rw (append_none before) (
            if_cases (λ (u : StreamTracker). up_to u.max_index before ≡ true)
              (str_eq event "content_block_stop") (λ _. h) (λ _. h)))
    ]

observe_all-started_blocks :
    (t : StreamTracker) (before : List ℤ) (seen : List (String × Option Fields))
    → up_to t.max_index before ≡ true
    → up_to (observe_all t seen).max_index (before ++ started_blocks seen) ≡ true
unfolding observe_all observe
observe_all-started_blocks t before [] h = rw (append_none before) h
observe_all-started_blocks t before ((event, payload) ∷ rest) h =
    let i = index_in payload in
    let now = observe_at t event (decoded_index payload) in
    sym (
      ap (up_to (observe_all now rest).max_index)
        (append_twice before (started_at event i) (started_blocks rest)))
    ∙ observe_all-started_blocks now (before ++ started_at event i) rest (
        ap (λ j. up_to now.max_index (before ++ started_at event j))
          (sym (index_in-decoded payload))
        ∙ observe_at-started_at t event (decoded_index payload) before h)

observe_at_saw :
    (t : StreamTracker) (event : String) (i : Option ℤ) → (observe_at t event i).saw_events ≡ true
unfolding observe_at
observe_at_saw t event none = refl
observe_at_saw t event (some i) =
    if_cases (λ (u : StreamTracker). u.saw_events ≡ true) (str_eq event "content_block_start")
      (λ _. refl)
      (λ _.
        if_cases (λ (u : StreamTracker). u.saw_events ≡ true) (str_eq event "content_block_stop")
          (λ _. refl) (λ _. refl))

observe_all_saw :
    (t : StreamTracker) (seen : List (String × Option Fields))
    → t.saw_events ≡ true
    → (observe_all t seen).saw_events ≡ true
unfolding observe_all observe
observe_all_saw t [] h = h
observe_all_saw t ((event, payload) ∷ rest) h =
    observe_all_saw (observe t event payload) rest (observe_at_saw t event (decoded_index payload))

-- what has to follow the frames that the client has seen
abbrev pub IsEnding : List (String × Option Fields) → String → ErrorTail → Type 0
IsEnding [] msg tail = tail ≡ whole_message msg
IsEnding (f ∷ fs) msg tail =
    (n : ℤ) × (tail ≡ events (map stop_at (open_blocks [] (f ∷ fs)) ++ error_block n msg))
    × (all_below n (started_blocks (f ∷ fs)) ≡ true)

tail_of :
    (t : StreamTracker) (msg : String)
    → t.saw_events ≡ true
    → emit_stream_error_tail t msg
      ≡ events (map stop_at (backwards t.opened) ++ error_block (next_index t) msg)
unfolding emit_stream_error_tail
tail_of t msg h =
    if_false (whole_message msg) (ap not h)
    ∙ ap (λ is. events (map stop_at is ++ error_block (next_index t) msg))
        (pop_all-backwards (length t.opened) t.opened t.max_index t.saw_events refl)

-- After a stream was cut off: where nothing had been relayed, the client gets a whole message with
-- the error. Otherwise it gets a stop for each block that the relayed frames left open, the newest
-- first, and then the error as a block whose number is above those of all blocks that were started.
pub tail_stops_all :
    (seen : List (String × Option Fields)) (msg : String)
    → IsEnding seen msg (emit_stream_error_tail (observe_all new_stream_tracker seen) msg)
unfolding emit_stream_error_tail next_index new_stream_tracker observe_all observe
tail_stops_all [] msg = refl
tail_stops_all ((event, payload) ∷ rest) msg =
    let seen = (event, payload) ∷ rest in
    let t = observe_all new_stream_tracker seen in
    (
      next_index t,
      tail_of t msg (
            observe_all_saw (observe new_stream_tracker event payload) rest
              (observe_at_saw new_stream_tracker event (decoded_index payload)))
          ∙ ap (λ is. events (map stop_at is ++ error_block (next_index t) msg))
              (observe_all-open_blocks new_stream_tracker seen),
      all_below-next t.max_index (started_blocks seen)
          (observe_all-started_blocks new_stream_tracker [] seen refl),
    )
