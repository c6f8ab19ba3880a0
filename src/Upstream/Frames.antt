-- ===== src/Upstream/Frames.antt =====
-- `IterSSE` of internal/provider/http.go: the events of an answer, one after the other, to a callback.
pub mod Reading
use Prim.Native.String.{◌++◌ as append}
use text.Mathlib.Text.{starts_with}
use realy_code.Common.{
  String, Bool, true, false, not, ◌&&◌, ◌||◌, Option, none, some, List, [], ◌∷◌, str_eq, concat,
  if◌then◌else◌,
}

pub record SseEvent : Type 0 where
  pub event : String
  pub payload : String

-- What `ReadString` gives: whole lines, then a last piece without a line end, and the error behind it,
-- `none` for `io.EOF`.
pub record Reader : Type 0 where
  pub lines : List String
  pub last : String
  pub error : Option String

-- what the callback returns: nil, `ErrStopSSE`, or an error
pub data Told : Type 0 where
  go_on stop_sse : Told
  fails : String → Told

-- `strings.TrimRight(line, "\r\n")`, `strings.TrimSpace`, and the rest of a text behind a prefix
pub record LineTools : Type 0 where
  pub trim_line_end : String → String
  pub trim_space : String → String
  pub behind : String → String → String

-- `event` and `data`
pub record PendingEvent : Type 0 where
  pub event : String
  pub payload : String

abbrev pub no_frame : PendingEvent
no_frame = record { event = ""; payload = "" }

-- what the loop has come to: it goes on, or it has returned
pub data Turn (S : Type 0) : Type 0 where
  looping : S → PendingEvent → Turn S
  returned : S → Option String → Turn S

abbrev pub with_payload : PendingEvent → String → PendingEvent
with_payload f text = record f {
  payload = if not (str_eq f.payload "") then concat (f.payload ∷ "\n" ∷ text ∷ []) else text;
}

module _ {S : Type 0} (t : LineTools) (fn : S → SseEvent → S × Told) where
  abbrev pub after_event : S × Told → Turn S
  after_event (s, go_on) = looping s no_frame
  after_event (s, stop_sse) = returned s none
  after_event (s, fails why) = returned s (some why)

  abbrev pub event_of : PendingEvent → SseEvent
  event_of f = record { event = f.event; payload = f.payload }

  abbrev pub dispatch : S → PendingEvent → Turn S
  dispatch s f =
      if not (str_eq f.payload "") || not (str_eq f.event "")
      then after_event (fn s (event_of f))
      else looping s f

  -- a line, without its end
  abbrev pub read_line : S → PendingEvent → String → Turn S
  read_line s f line =
      if str_eq line ""
      then dispatch s f
      else if starts_with line "event:"
      then looping s (record f { event = t.trim_space (t.behind "event:" line) })
      else if starts_with line "data:"
      then looping s (with_payload f (t.trim_space (t.behind "data:" line)))
      else looping s f

  abbrev pub on_line : Turn S → String → Turn S
  on_line (returned s why) line = returned s why
  on_line (looping s f) line =
      if str_eq line "" then looping s f else read_line s f (t.trim_line_end line)

  abbrev pub on_lines : Turn S → List String → Turn S
  on_lines turn [] = turn
  on_lines turn (l ∷ ls) = on_lines (on_line turn l) ls

  -- the end of the input; what the callback returns for the last event is not looked at
  abbrev pub at_end : Option String → Turn S → S × Option String
  at_end why (returned s e) = (s, e)
  at_end (some why) (looping s f) = (s, some why)
  at_end none (looping s f) =
      if not (str_eq f.payload "") then ((fn s (event_of f)).0, none) else (s, none)

  unfoldable pub iter_sse : S → Reader → S × Option String
  iter_sse s r = at_end r.error (on_line (on_lines (looping s no_frame) r.lines) r.last)
