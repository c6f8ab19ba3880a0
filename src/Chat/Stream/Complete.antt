-- ===== src/Chat/Stream/Complete.antt =====
-- Which tool calls `emitValidatedToolCalls` of chat.go sends, and what it notes of them.
use realy_code.Common.{
  ℤ, ◌==ℤ◌, ==ℤ_iff, Bool, true, false, ◌||◌, Option, none, some, List, [], ◌∷◌, ◌++◌, map, ◌≡◌,
  refl, sym, ap, ◌∙◌, arith, str_eq, Bool-cases, inl, inr, if_true, if_false, if_cases,
  if◌then◌else◌,
}
use mathlib.Core.Path.{subst}
use realy_code.Sse.Writer.{Connection}
use realy_code.Sse.Builder.{Builder}
use realy_code.Sse.Builder.Calls.{Call, tool, tool_input, stop_tool_block, call, run_calls}
use realy_code.Guard.Registry.{Checked, accepted, refused, crashed}
use realy_code.Chat.Stream.{
  ToolTrack, Machine, Emission, emission, emission_panicked, Tools, track_at, sort_ints,
  emit_checked, passed_over, emit_track, emit_each, emit_validated_tool_calls,
}
use realy_code.Chat.Stream.Indices.{
  among, has_track, distinct, ascending, below_all_apart, track_at-put_track, IsSweep,
  sort_ints-IsSweep,
}

module _ {J : Type 0} (empty : J) (h : Tools) where
  -- the call of a tool, with the arguments as the check gives them back
  abbrev calls_of : ToolTrack → Checked → List (Call J)
  calls_of t (accepted restored) =
      tool empty t.id t.name ∷ tool_input t.id restored ∷ stop_tool_block t.id ∷ []
  calls_of t refused = []
  calls_of t crashed = []

  -- what is due for a track: nothing if it was sent, or has no id or no name
  abbrev pub due : Option ToolTrack → List (Call J)
  due none = []
  due (some t) =
      if t.emitted || (str_eq t.id "" || str_eq t.name "")
      then []
      else calls_of t (h.validate t.name t.args)

  abbrev pub due_calls : List (ℤ × ToolTrack) → List ℤ → List (Call J)
  due_calls tools [] = []
  due_calls tools (i ∷ is) = due (track_at i tools) ++ due_calls tools is

  abbrev pub is_any : List (Call J) → Bool
  is_any [] = false
  is_any (c ∷ cs) = true

  -- a track is noted as sent where a call was due for it
  abbrev pub noted : Option ToolTrack → Option ToolTrack
  noted none = none
  noted (some t) = if is_any (due (some t)) then some (record t { emitted = true }) else some t

  is_any-append : (cs ds : List (Call J)) → is_any (cs ++ ds) ≡ (is_any cs || is_any ds)
  is_any-append [] ds = refl
  is_any-append (c ∷ cs) ds = refl

  due_calls-same :
      (tools others : List (ℤ × ToolTrack)) (is : List ℤ)
      → ((k : ℤ) → among k is ≡ true → track_at k tools ≡ track_at k others)
      → due_calls tools is ≡ due_calls others is
  due_calls-same tools others [] same = refl
  due_calls-same tools others (i ∷ is) same =
      ap (λ o. due o ++ due_calls tools is) (same i (ground (arith, ==ℤ_iff i i)))
      ∙ ap (λ cs. due (track_at i others) ++ cs)
          (due_calls-same tools others is (λ k a. same k (ground arith)))

or_false : (b : Bool) → (b || false) ≡ b
or_false true = refl
or_false false = refl

or_assoc : (a b c : Bool) → ((a || b) || c) ≡ (a || (b || c))
or_assoc true b c = refl
or_assoc false b c = refl

apart : (i k : ℤ) (is : List ℤ) → among i is ≡ false → among k is ≡ true → (i ==ℤ k) ≡ false
apart i k is n a = elim (Bool-cases (i ==ℤ k)) [
  | inl s ↦ let same = ap (λ j. among j is) ((==ℤ_iff i k).0 s) in absurd (cc)
  | inr d ↦ d
]

module _ {J : Type 0} (conn : Connection J) (empty : J) (h : Tools) where
  run_calls-append :
      (b : Builder J) (cs ds : List (Call J))
      → run_calls conn b (cs ++ ds) ≡ run_calls conn (run_calls conn b cs) ds
  unfolding run_calls
  run_calls-append b [] ds = refl
  run_calls-append b (c ∷ cs) ds = run_calls-append (call conn b c) cs ds

  -- what the step at one index, with its track, comes to
  record Stepped (m : Machine J) (f : Bool) (i : ℤ) (o : Option ToolTrack) (m' : Machine J)
      (f' : Bool) : Type 0 where
    step_sent : m'.b ≡ run_calls conn m.b (due empty h o)
    step_told : f' ≡ (f || is_any empty h (due empty h o))
    step_tracks :
        (k : ℤ) → track_at k m'.tools ≡ (if i ==ℤ k then noted empty h o else track_at k m.tools)

  abbrev StepTo : Machine J → Bool → ℤ → Option ToolTrack → Emission J → Type 0
  StepTo m f i o (emission m' f') = Stepped m f i o m' f'
  StepTo m f i o (emission_panicked b) = Unit

  nothing_due :
      (m : Machine J) (f : Bool) (i : ℤ) (o : Option ToolTrack)
      → track_at i m.tools ≡ o
      → due empty h o ≡ []
      → noted empty h o ≡ o
      → Stepped m f i o m f
  unfolding run_calls
  nothing_due m f i o e d n = record {
    step_sent = sym (ap (run_calls conn m.b) d);
    step_told = sym (ap (λ cs. f || is_any empty h cs) d ∙ or_false f);
    step_tracks = λ k. elim (Bool-cases (i ==ℤ k)) [
      | inl s ↦
          ap (λ j. track_at j m.tools) (sym ((==ℤ_iff i k).0 s)) ∙ e ∙ sym n ∙ sym (if_true _ s)
      | inr s ↦ sym (if_false _ s)
    ];
  }

  nothing_noted : (t : ToolTrack) → due empty h (some t) ≡ [] → noted empty h (some t) ≡ some t
  nothing_noted t d = if_false _ (ap (is_any empty h) d)

  emit_checked-StepTo :
      (m : Machine J) (i : ℤ) (t : ToolTrack) (f : Bool) (r : Checked)
      → track_at i m.tools ≡ some t
      → due empty h (some t) ≡ calls_of empty h t r
      → StepTo m f i (some t) (emit_checked conn empty h m i t f r)
  unfolding run_calls call
  emit_checked-StepTo m i t f (accepted restored) e d = record {
    step_sent = sym (ap (run_calls conn m.b) d);
    step_told = sym (ap (λ cs. f || is_any empty h cs) d ∙ or_true f);
    step_tracks = λ k.
        track_at-put_track k i (record t { emitted = true }) m.tools
        ∙ ap (λ o. if i ==ℤ k then o else track_at k m.tools)
            (sym (if_true (some t) (ap (is_any empty h) d)));
  }
    where
      or_true : (b : Bool) → (b || true) ≡ true
      or_true true = refl
      or_true false = refl
  emit_checked-StepTo m i t f refused e d = nothing_due m f i (some t) e d (nothing_noted t d)
  emit_checked-StepTo m i t f crashed e d = tt

  emit_track-StepTo :
      (m : Machine J) (i : ℤ) (f : Bool) (o : Option ToolTrack)
      → track_at i m.tools ≡ o
      → StepTo m f i o (emit_track conn empty h m i f o)
  emit_track-StepTo m i f none e = nothing_due m f i none e refl refl
  emit_track-StepTo m i f (some t) e =
      if_cases (λ (x : Emission J). StepTo m f i (some t) x) (passed_over conn empty h t)
        (λ p. nothing_due m f i (some t) e (if_true _ p) (nothing_noted t (if_true _ p)))
        (λ p. emit_checked-StepTo m i t f (h.validate t.name t.args) e (if_false [] p))

  -- What a run over the indices comes to: the due calls were sent, whether there were any, and the tracks.
  pub record Swept (m : Machine J) (f : Bool) (is : List ℤ) (m' : Machine J) (f' : Bool)
      : Type 0 where
    pub sent : m'.b ≡ run_calls conn m.b (due_calls empty h m.tools is)
    pub told : f' ≡ (f || is_any empty h (due_calls empty h m.tools is))
    pub tracks :
        (k : ℤ)
        → track_at k m'.tools
          ≡ (if among k is then noted empty h (track_at k m.tools) else track_at k m.tools)

  abbrev Exact : Machine J → Bool → List ℤ → Emission J → Type 0
  Exact m f is (emission m' f') = Swept m f is m' f'
  Exact m f is (emission_panicked b) = Unit

  panicked_stays :
      (m : Machine J) (f : Bool) (js is : List ℤ) (b : Builder J)
      → Exact m f js (emit_each conn empty h is (emission_panicked b))
  panicked_stays m f js [] b = tt
  panicked_stays m f js (i ∷ is) b = panicked_stays m f js is b

  Swept-Stepped :
      (m m1 m2 : Machine J) (f f1 f2 : Bool) (i : ℤ) (is : List ℤ)
      → Stepped m f i (track_at i m.tools) m1 f1
      → among i is ≡ false
      → Swept m1 f1 is m2 f2
      → Swept m f (i ∷ is) m2 f2
  Swept-Stepped m m1 m2 f f1 f2 i is s n r =
      let first = due empty h (track_at i m.tools) in
      let later = due_calls empty h m.tools is in
      let other : (k : ℤ) → among k is ≡ true → track_at k m1.tools ≡ track_at k m.tools =
        λ k a. s.step_tracks k ∙ if_false _ (apart i k is n a) in
      let same : due_calls empty h m1.tools is ≡ later =
        due_calls-same empty h m1.tools m.tools is other in
      record {
        sent =
            r.sent
            ∙ ap (run_calls conn m1.b) same
            ∙ ap (λ b. run_calls conn b later) s.step_sent
            ∙ sym (run_calls-append m.b first later);
        told =
            r.told
            ∙ ap (λ cs. f1 || is_any empty h cs) same
            ∙ ap (λ g. g || is_any empty h later) s.step_told
            ∙ or_assoc f (is_any empty h first) (is_any empty h later)
            ∙ ap (λ g. f || g) (sym (is_any-append empty h first later));
        tracks = λ k. elim (Bool-cases (among k is)) [
          | inl a ↦
              r.tracks k
              ∙ if_true _ a
              ∙ ap (noted empty h) (other k a)
              ∙ sym (if_true (track_at k m.tools) {t = among k (i ∷ is)} (ground arith))
          | inr u ↦ r.tracks k ∙ if_false _ u ∙ s.step_tracks k ∙ elim (Bool-cases (i ==ℤ k)) [
            | inl here ↦
                if_true _ here
                ∙ ap (λ j. noted empty h (track_at j m.tools)) ((==ℤ_iff i k).0 here)
                ∙ sym (if_true (track_at k m.tools) {t = among k (i ∷ is)} (ground arith))
            | inr there ↦
                if_false _ there
                ∙ sym (
                    if_false (noted empty h (track_at k m.tools)) {t = among k (i ∷ is)}
                      (ground arith))
          ]
        ];
      }

  Exact-Stepped :
      (m m1 : Machine J) (f f1 : Bool) (i : ℤ) (is : List ℤ) (x : Emission J)
      → Stepped m f i (track_at i m.tools) m1 f1
      → among i is ≡ false
      → Exact m1 f1 is x
      → Exact m f (i ∷ is) x
  Exact-Stepped m m1 f f1 i is (emission m2 f2) s n r = Swept-Stepped m m1 m2 f f1 f2 i is s n r
  Exact-Stepped m m1 f f1 i is (emission_panicked b) s n r = tt

  Exact-StepTo :
      (m : Machine J) (f : Bool) (i : ℤ) (is : List ℤ) (x : Emission J)
      → StepTo m f i (track_at i m.tools) x
      → among i is ≡ false
      → ((m1 : Machine J) (f1 : Bool) → Exact m1 f1 is (emit_each conn empty h is (emission m1 f1)))
      → Exact m f (i ∷ is) (emit_each conn empty h is x)
  Exact-StepTo m f i is (emission m1 f1) s n rest =
      Exact-Stepped m m1 f f1 i is (emit_each conn empty h is (emission m1 f1)) s n (rest m1 f1)
  Exact-StepTo m f i is (emission_panicked b) s n rest = panicked_stays m f (i ∷ is) is b

  emit_each-Exact :
      (is : List ℤ) (m : Machine J) (f : Bool)
      → ascending is ≡ true
      → Exact m f is (emit_each conn empty h is (emission m f))
  unfolding run_calls
  emit_each-Exact [] m f a = record { sent = refl; told = sym (or_false f); tracks = λ k. refl }
  emit_each-Exact (i ∷ is) m f a =
      Exact-StepTo m f i is (emit_track conn empty h m i f (track_at i m.tools))
        (emit_track-StepTo m i f (track_at i m.tools) refl) (below_all_apart i is (ground arith))
        (λ m1 f1. emit_each-Exact is m1 f1 (ground arith))

  noted_all :
      (o : Option ToolTrack) (b : Bool)
      → b ≡ has_track o
      → (if b then noted empty h o else o) ≡ noted empty h o
  noted_all none b e = if_false _ e
  noted_all (some t) b e = if_true _ e

  -- What was sent, whether the machine says so, and what it holds afterwards.
  pub record HasSent (m m' : Machine J) (f : Bool) (is : List ℤ) : Type 0 where
    pub all_sent : m'.b ≡ run_calls conn m.b (due_calls empty h m.tools is)
    pub said_so : f ≡ is_any empty h (due_calls empty h m.tools is)
    pub all_noted : (k : ℤ) → track_at k m'.tools ≡ noted empty h (track_at k m.tools)

  -- `emitValidatedToolCalls`, if no check panics: over the indices that have a track, each once and
  -- in their order, the builder gets `StartTool`, `EmitToolInput` and `StopTool` for exactly the tracks
  -- that were not sent before, have an id and a name, and pass the check, with the arguments that the
  -- check gives back; the result tells whether there was one; and these tracks, and no others, are
  -- noted as sent, none being lost. The indices are those of a map: none stands twice.
  pub emit_validated_sends_due :
      (m m' : Machine J) (f : Bool)
      → distinct (map (λ entry. entry.0) m.tools) ≡ true
      → emit_validated_tool_calls conn empty h m ≡ emission m' f
      → (is : List ℤ) × IsSweep m.tools is × HasSent m m' f is
  unfolding emit_validated_tool_calls
  emit_validated_sends_due m m' f once e =
      let is = sort_ints (map (λ entry. entry.0) m.tools) in
      let sweep = sort_ints-IsSweep m.tools once in
      let r : Swept m false is m' f =
        subst (Exact m false is) e (emit_each-Exact is m false sweep.in_order) in
      (
        is,
        sweep,
        record {
          all_sent = r.sent;
          said_so = r.told;
          all_noted =
              λ k. r.tracks k ∙ noted_all (track_at k m.tools) (among k is) (sweep.complete k);
        },
      )
