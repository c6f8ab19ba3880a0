-- ===== src/Native/Policy/Numbering.antt =====
-- The numbers under which the policy of policy.go announces blocks to the client.
use realy_code.Common.{
  ℕ, suc, String, ℤ, pos, Bool, true, false, not, ◌||◌, Option, none, some, List, [], ◌∷◌, ◌++◌,
  ◌≡◌, refl, sym, ap, ◌∙◌, arith, str_eq, if_cases,
}
use mathlib.Core.Path.{subst}
use realy_code.Json.{
  int, Fields, payload_index, get_field-set_field, get_field, index_value, look, as_string,
  as_object,
}
use realy_code.Native.Blocks.{
  UpstreamBlock, NativePolicy, Codec, put_flag, Frame, Answer, new_native_policy, with_index,
  should_drop_kind, find_block, close_each, close_other_open, allocate, delta_kind,
}
use realy_code.Native.Policy.{
  start_block, transform_start, start_at, delta_at, stop_at, begin_block, delta_to, transform_delta,
  stop_block, transform_stop, transform,
}

-- the number that a frame announces, in front of others
abbrev announce : Bool → Option ℤ → List ℤ → List ℤ
announce false o is = is
announce true none is = is
announce true (some i) is = i ∷ is

-- the numbers that the starts of blocks announce
abbrev pub starts : List Frame → List ℤ
starts [] = []
starts (f ∷ fs) =
    announce (str_eq f.event "content_block_start") (payload_index f.payload) (starts fs)

-- the numbers are `a`, `a + 1` and so on, up to `b`
abbrev pub Numbered : ℕ → List ℤ → ℕ → Type 0
Numbered a [] b = a ≡ b
Numbered a (i ∷ is) b = (i ≡ pos a) × Numbered (suc a) is b

Numbered-nil : (a : ℕ) (is : List ℤ) (b : ℕ) → is ≡ [] → a ≡ b → Numbered a is b
Numbered-nil a [] b h e = e
Numbered-nil a (i ∷ is) b h e = absurd (cc)

Numbered-one : (a : ℕ) (is : List ℤ) → is ≡ pos a ∷ [] → Numbered a is (suc a)
Numbered-one a [] h = absurd (cc)
Numbered-one a (i ∷ []) h = (cc, refl)
Numbered-one a (i ∷ j ∷ is) h = absurd (cc)

Numbered-append :
    (a : ℕ) (is js : List ℤ) (b c : ℕ) → Numbered a is b → Numbered b js c → Numbered a (is ++ js) c
Numbered-append a [] [] b c h k = h ∙ k
Numbered-append a [] (j ∷ js) b c h k =
    (k.0 ∙ ap pos (sym h), Numbered-append (suc a) [] js (suc b) c (ap suc h) k.1)
Numbered-append a (i ∷ is) js b c h k = (h.0, Numbered-append (suc a) is js b c h.1 k)

announce-append :
    (t : Bool) (o : Option ℤ) (is js : List ℤ) → announce t o is ++ js ≡ announce t o (is ++ js)
announce-append false o is js = refl
announce-append true none is js = refl
announce-append true (some i) is js = refl

starts-append : (fs gs : List Frame) → starts (fs ++ gs) ≡ starts fs ++ starts gs
starts-append [] gs = refl
starts-append (f ∷ fs) gs =
    ap (announce (str_eq f.event "content_block_start") (payload_index f.payload))
      (starts-append fs gs)
    ∙ sym (
        announce-append (str_eq f.event "content_block_start") (payload_index f.payload) (starts fs)
          (starts gs))

start_numbered :
    (n : ℕ) (event : String) (payload : Fields)
    → str_eq event "content_block_start" ≡ true
    → starts (record { event = event; payload = with_index n payload } ∷ []) ≡ pos n ∷ []
start_numbered n event payload h =
    ap (λ t. announce t (payload_index (with_index n payload)) []) h
    ∙ ap (λ o. announce true (index_value o) []) (get_field-set_field "index" (int (pos n)) payload)

not_start :
    (event : String) (payload : Fields)
    → str_eq event "content_block_start" ≡ false
    → starts (record { event = event; payload = payload } ∷ []) ≡ []
not_start event payload h = ap (λ t. announce t (payload_index payload) []) h

announce-none : (t : Bool) → announce t none [] ≡ []
announce-none false = refl
announce-none true = refl

no_number :
    (event : String) (payload : Fields)
    → payload_index payload ≡ none
    → starts (record { event = event; payload = payload } ∷ []) ≡ []
no_number event payload h =
    ap (λ o. announce (str_eq event "content_block_start") o []) h
    ∙ announce-none (str_eq event "content_block_start")

close_each-starts :
    (current : ℤ) (suppressed : ℤ → Bool) (bs : List (ℤ × UpstreamBlock))
    → starts (close_each current suppressed bs).stops ≡ []
unfolding close_each
close_each-starts current suppressed [] = refl
close_each-starts current suppressed ((u, b) ∷ bs) = ground (
  arith,
  close_each-starts current suppressed bs,
  close_each-starts current (put_flag u true suppressed) bs,
)

-- What the answer announces are the next numbers of the policy, and it counts them.
abbrev IsNumbered : NativePolicy → Answer → Type 0
IsNumbered p a = Numbered p.next_index (starts a.frames) a.policy.next_index

module _ (j : Codec) (p : NativePolicy) (event : String) (payload : Fields) (i : ℤ)
    (kind : String) where
  start_block-IsNumbered :
      (block : Option Fields)
      → str_eq event "content_block_start" ≡ true
      → IsNumbered p (start_block j p event payload i kind block)
  unfolding start_block allocate close_other_open
  start_block-IsNumbered block h =
      let closed = close_each i p.suppressed_stops p.by_upstream in
      Numbered-one p.next_index _ (
        starts-append closed.stops
          (record { event = event; payload = with_index p.next_index payload } ∷ [])
        ∙ ap
            (λ is.
              is
              ++ starts (record { event = event; payload = with_index p.next_index payload } ∷ []))
            (close_each-starts i p.suppressed_stops p.by_upstream)
        ∙ start_numbered p.next_index event payload h)

  -- an event that starts no block announces none, whatever its payload
  silent :
      (payload' : Fields) (n : ℕ)
      → str_eq event "content_block_start" ≡ false
      → Numbered n (starts (record { event = event; payload = payload' } ∷ [])) n
  silent payload' n h = Numbered-nil n _ n (not_start event payload' h) refl

  delta_to-IsNumbered :
      (block : Option UpstreamBlock)
      → str_eq event "content_block_start" ≡ false
      → IsNumbered p (delta_to j p event payload i kind block)
  unfolding delta_to begin_block allocate
  delta_to-IsNumbered none h =
      if_cases (IsNumbered p)
        (str_eq kind "text" || str_eq kind "tool_use" || str_eq kind "thinking")
        (λ t. (refl, silent (with_index p.next_index payload) (suc p.next_index) h))
        (λ t. silent payload p.next_index h)
  delta_to-IsNumbered (some b) h =
      if_cases (IsNumbered p) b.is_open
        (λ t. silent (with_index b.down_index payload) p.next_index h)
        (λ t. (refl, silent (with_index p.next_index payload) (suc p.next_index) h))

  stop_block-IsNumbered :
      (thinking : Bool) (block : Option UpstreamBlock)
      → str_eq event "content_block_start" ≡ false
      → IsNumbered p (stop_block p event payload thinking i block)
  unfolding stop_block
  stop_block-IsNumbered thinking none h =
      if_cases (IsNumbered p) (not thinking) (λ t. refl) (λ t. silent payload p.next_index h)
  stop_block-IsNumbered thinking (some b) h =
      if_cases (IsNumbered p) b.is_open
        (λ t. silent (with_index b.down_index payload) p.next_index h) (λ t. refl)

module _ (j : Codec) (p : NativePolicy) (event : String) (payload : Fields) (thinking : Bool) where
  start_at-IsNumbered :
      (i : Option ℤ)
      → payload_index payload ≡ i
      → str_eq event "content_block_start" ≡ true
      → IsNumbered p (start_at j p event payload thinking i)
  unfolding start_at
  start_at-IsNumbered none e h =
      Numbered-nil p.next_index _ p.next_index (no_number event payload e) refl
  start_at-IsNumbered (some i) e h =
      let block = as_object (get_field "content_block" payload) in
      let kind = as_string (look "type" block) in
      if_cases (IsNumbered p) (should_drop_kind kind thinking) (λ t. refl)
        (λ t. start_block-IsNumbered j p event payload i kind block h)

  delta_at-IsNumbered :
      (i : Option ℤ)
      → str_eq event "content_block_start" ≡ false
      → IsNumbered p (delta_at j p event payload thinking i)
  unfolding delta_at
  delta_at-IsNumbered none h = silent j p event payload (pos 0) "" payload p.next_index h
  delta_at-IsNumbered (some i) h =
      let delta_type = as_string (look "type" (as_object (get_field "delta" payload))) in
      let kind = delta_kind delta_type in
      if_cases (IsNumbered p) (p.dropped i) (λ t. refl)
        (λ t.
          if_cases (IsNumbered p) (should_drop_kind delta_type thinking) (λ u. refl)
            (λ u.
              if_cases (IsNumbered p) (str_eq kind "")
                (λ v. silent j p event payload i "" payload p.next_index h)
                (λ v. delta_to-IsNumbered j p event payload i kind (find_block i p.by_upstream) h)))

  stop_at-IsNumbered :
      (i : Option ℤ)
      → str_eq event "content_block_start" ≡ false
      → IsNumbered p (stop_at p event payload thinking i)
  unfolding stop_at
  stop_at-IsNumbered none h = silent j p event payload (pos 0) "" payload p.next_index h
  stop_at-IsNumbered (some i) h =
      if_cases (IsNumbered p) (p.dropped i) (λ t. refl)
        (λ t.
          if_cases (IsNumbered p) (p.suppressed_stops i) (λ u. refl)
            (λ u.
              stop_block-IsNumbered j p event payload i "" thinking (find_block i p.by_upstream) h))

  transform-IsNumbered : IsNumbered p (transform j p event payload thinking)
  unfolding transform transform_start transform_delta transform_stop
  transform-IsNumbered =
      let index = payload_index payload in
      if_cases (IsNumbered p) (str_eq event "content_block_start")
        (λ h. start_at-IsNumbered index refl h)
        (λ h.
          if_cases (IsNumbered p) (str_eq event "content_block_delta")
            (λ t. delta_at-IsNumbered index h)
            (λ t.
              if_cases (IsNumbered p) (str_eq event "content_block_stop")
                (λ u. stop_at-IsNumbered index h)
                (λ u. silent j p event payload (pos 0) "" payload p.next_index h)))

-- the frames of a stream, as they are read: each an event and its data
abbrev pub Incoming : Type 0
Incoming = List (String × Fields)

-- what the client gets of a stream
unfoldable pub relay : Codec → NativePolicy → Bool → Incoming → Answer
relay j p thinking [] = record { policy = p; frames = [] }
relay j p thinking ((event, payload) ∷ rest) =
    let a = transform j p event payload thinking in
    let later = relay j a.policy thinking rest in
    record { policy = later.policy; frames = a.frames ++ later.frames }

relay-IsNumbered :
    (j : Codec) (p : NativePolicy) (thinking : Bool) (stream : Incoming)
    → IsNumbered p (relay j p thinking stream)
unfolding relay
relay-IsNumbered j p thinking [] = refl
relay-IsNumbered j p thinking ((event, payload) ∷ rest) =
    let a = transform j p event payload thinking in
    let later = relay j a.policy thinking rest in
    subst (λ is. Numbered p.next_index is later.policy.next_index)
      (sym (starts-append a.frames later.frames))
      (Numbered-append p.next_index (starts a.frames) (starts later.frames) a.policy.next_index
        later.policy.next_index (transform-IsNumbered j p event payload thinking)
        (relay-IsNumbered j a.policy thinking rest))

-- Whatever frames an upstream sends, the blocks that the client is told of start under the numbers
-- 0, 1, 2 and so on, one each, and `nextIndex` is how many these are.
pub relay_counts :
    (j : Codec) (thinking : Bool) (stream : Incoming)
    → Numbered 0
        (starts (relay j new_native_policy thinking stream).frames)
        (relay j new_native_policy thinking stream).policy.next_index
unfolding new_native_policy
relay_counts j thinking stream = relay-IsNumbered j new_native_policy thinking stream
