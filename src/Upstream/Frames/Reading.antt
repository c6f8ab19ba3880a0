-- ===== src/Upstream/Frames/Reading.antt =====
-- An answer that is written event by event is read event by event.
use Prim.Native.String.{◌++◌ as append}
use text.Mathlib.Text.{starts_with}
use text.Mathlib.TextLemmas.{append_assoc}
use text.Mathlib.TextPositions.{slice-append_left}
use realy_code.Common.{
  String, true, false, not, ◌||◌, Option, none, some, List, [], ◌∷◌, str_eq, str_eq_iff, ◌≡◌, refl,
  sym, ◌∙◌, ap, if_true, if_false, inl, inr, Bool-cases,
}
use realy_code.Upstream.Frames.{
  SseEvent, Told, go_on, stop_sse, fails, LineTools, PendingEvent, no_frame, Turn, looping,
  returned, after_event, on_line, on_lines, at_end, iter_sse, read_line,
}

-- the lines of an event, as internal/sse writes them
abbrev event_line : SseEvent → String
event_line e = append "event: " (append e.event "\n")

abbrev payload_line : SseEvent → String
payload_line e = append "data: " (append e.payload "\n")

abbrev pub all_lines : List SseEvent → List String
all_lines [] = []
all_lines (e ∷ es) = event_line e ∷ payload_line e ∷ "\n" ∷ all_lines es

begins : (p q s : String) → starts_with (append (append p q) s) p ≡ true
begins p q s =
    ap (λ v. starts_with v p) (append_assoc p q s)
    ∙ ap (λ v. str_eq v p) (slice-append_left p (append q s))
    ∙ (str_eq_iff p p).1 refl

not_empty : (p s : String) → starts_with "" p ≡ false → starts_with s p ≡ true → str_eq s "" ≡ false
not_empty p s e h = elim (Bool-cases (str_eq s "")) [
  | inl empty ↦ absurd (cc (sym h ∙ ap (λ v. starts_with v p) ((str_eq_iff s "").0 empty) ∙ e))
  | inr full ↦ full
]

begins_event : (s : String) → starts_with (append "event: " s) "event:" ≡ true
begins_event s = begins "event:" " " s

begins_payload : (s : String) → starts_with (append "data: " s) "data:" ≡ true
begins_payload s = begins "data:" " " s

payload_no_event : (s : String) → starts_with (append "data: " s) "event:" ≡ false
payload_no_event s = ap (λ v. str_eq v "event:") (slice-append_left "data: " s)

-- What the code relies on for an event: its line ends are trimmed away, the blank behind the colon too,
-- and nothing of its name and its data; and it has data.
pub record IsPlain (t : LineTools) (e : SseEvent) : Type 0 where
  pub event_trimmed : t.trim_line_end (event_line e) ≡ append "event: " e.event
  pub payload_trimmed : t.trim_line_end (payload_line e) ≡ append "data: " e.payload
  pub event_behind : t.trim_space (t.behind "event:" (append "event: " e.event)) ≡ e.event
  pub payload_behind : t.trim_space (t.behind "data:" (append "data: " e.payload)) ≡ e.payload
  pub has_payload : str_eq e.payload "" ≡ false

abbrev pub AllPlain : LineTools → List SseEvent → Type 0
AllPlain t [] = Unit
AllPlain t (e ∷ es) = IsPlain t e × AllPlain t es

module _ {S : Type 0} (t : LineTools) (fn : S → SseEvent → S × Told) where
  -- the callback on each event, until it returns an error
  abbrev after_told : S × Told → (S → S × Option String) → S × Option String
  after_told (s, go_on) later = later s
  after_told (s, stop_sse) later = (s, none)
  after_told (s, fails why) later = (s, some why)

  abbrev pub each_event : S → List SseEvent → S × Option String
  each_event s [] = (s, none)
  each_event s (e ∷ es) = after_told (fn s e) (λ s'. each_event s' es)

  abbrev named_frame : SseEvent → PendingEvent
  named_frame e = record { event = e.event; payload = "" }

  abbrev whole_frame : SseEvent → PendingEvent
  whole_frame e = record { event = e.event; payload = e.payload }

  module _ (s : S) (e : SseEvent) (p : IsPlain t e) where
    event_read : on_line t fn (looping s no_frame) (event_line e) ≡ looping s (named_frame e)
    event_read =
        if_false (looping s no_frame)
          (not_empty "event:" (event_line e) refl (begins_event (append e.event "\n")))
        ∙ ap (read_line t fn s no_frame) p.event_trimmed
        ∙ if_false _ (not_empty "event:" (append "event: " e.event) refl (begins_event e.event))
        ∙ if_true _ (begins_event e.event)
        ∙ ap (λ name. looping s (record { event = name; payload = "" })) p.event_behind

    payload_read :
        on_line t fn (looping s (named_frame e)) (payload_line e) ≡ looping s (whole_frame e)
    payload_read =
        if_false (looping s (named_frame e))
          (not_empty "data:" (payload_line e) refl (begins_payload (append e.payload "\n")))
        ∙ ap (read_line t fn s (named_frame e)) p.payload_trimmed
        ∙ if_false _ (not_empty "data:" (append "data: " e.payload) refl (begins_payload e.payload))
        ∙ if_false _ (payload_no_event e.payload)
        ∙ if_true _ (begins_payload e.payload)
        ∙ ap (λ text. looping s (record { event = e.event; payload = text })) p.payload_behind

    end_read :
        t.trim_line_end "\n" ≡ ""
        → on_line t fn (looping s (whole_frame e)) "\n" ≡ after_event t fn (fn s e)
    end_read z =
        ap (read_line t fn s (whole_frame e)) z
        ∙ if_true _ (ap (λ b. not b || not (str_eq e.event "")) p.has_payload)

    lines_read :
        t.trim_line_end "\n" ≡ ""
        → (rest : List String)
        → on_lines t fn (looping s no_frame) (event_line e ∷ payload_line e ∷ "\n" ∷ rest)
          ≡ on_lines t fn (after_event t fn (fn s e)) rest
    lines_read z rest =
        ap (λ turn. on_lines t fn turn rest)
          (ap (λ turn. on_line t fn (on_line t fn turn (payload_line e)) "\n") event_read
            ∙ ap (λ turn. on_line t fn turn "\n") payload_read
            ∙ end_read z)

  on_lines_returned :
      (s : S) (why : Option String) (ls : List String)
      → on_lines t fn (returned s why) ls ≡ returned s why
  on_lines_returned s why [] = refl
  on_lines_returned s why (l ∷ ls) = on_lines_returned s why ls

  abbrev end_input : Turn S → S × Option String
  end_input turn = at_end t fn none (on_line t fn turn "")

  read_rest :
      (r : S × Told) (es : List SseEvent)
      → ((s : S) → end_input (on_lines t fn (looping s no_frame) (all_lines es)) ≡ each_event s es)
      → end_input (on_lines t fn (after_event t fn r) (all_lines es))
        ≡ after_told r (λ s'. each_event s' es)
  read_rest (s, go_on) es later = later s
  read_rest (s, stop_sse) es later = ap end_input (on_lines_returned s none (all_lines es))
  read_rest (s, fails why) es later = ap end_input (on_lines_returned s (some why) (all_lines es))

  read_all :
      (es : List SseEvent) (s : S)
      → t.trim_line_end "\n" ≡ ""
      → AllPlain t es
      → end_input (on_lines t fn (looping s no_frame) (all_lines es)) ≡ each_event s es
  read_all [] s z p = refl
  read_all (e ∷ es) s z p =
      ap end_input (lines_read s e p.0 z (all_lines es))
      ∙ read_rest (fn s e) es (λ s'. read_all es s' z p.1)

  -- An answer that holds each event as a line of its name, a line of its data and an empty line, as
  -- internal/sse writes events, and ends there: `IterSSE` calls the callback with exactly these events
  -- in their order, as long as it returns nil, and returns its error.
  pub written-read :
      (es : List SseEvent) (s : S)
      → t.trim_line_end "\n" ≡ ""
      → AllPlain t es
      → iter_sse t fn s (record { lines = all_lines es; last = ""; error = none }) ≡ each_event s es
  unfolding iter_sse
  written-read es s z p = read_all es s z p
