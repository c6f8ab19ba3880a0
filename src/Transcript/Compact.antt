-- ===== src/Transcript/Compact.antt =====
-- `CompactToolResultText` of internal/anthropic/types.go and its helpers: a long tool result is cut down to
-- its first, its last and its telling lines.
pub mod Lines
pub mod Windows
use Prim.Native.Char.{Char}
use Prim.Native.String.{len}
use text.Mathlib.Text.{find?}
use realy_code.Common.{
  ℕ, zero, suc, ◌-◌, ◌/◌, String, Bool, true, false, not, ◌&&◌, ◌||◌, Option, none, some, List, [],
  ◌∷◌, str_eq, ltb, leb, ◌==◌, length, take, drop, any_of, concat, join, if◌then◌else◌,
}
use realy_code.Transcript.Message.{Raw}
use realy_code.Transcript.Blocks.{Json, tool_result_text}

-- `strings.ToLower`, the bytes from one place to another, `%d`, and `strings.TrimRight` for "\n"
pub record Texts : Type 0 where
  pub lower : String → String
  pub slice : String → ℕ → ℕ → String
  pub decimal : ℕ → String
  pub trim_newlines : String → String

abbrev pub in_front : Char → List String → List String
in_front c [] = String.◌∷◌ c String.[] ∷ []
in_front c (l ∷ ls) = String.◌∷◌ c l ∷ ls

-- `strings.Split(text, "\n")`
abbrev pub split_lines : String → List String
split_lines String.[] = "" ∷ []
split_lines (String.◌∷◌ c s) =
    let rest = split_lines s in
    if str_eq (String.◌∷◌ c String.[]) "\n" then "" ∷ rest else in_front c rest

abbrev later_of : ℕ → ℕ → ℕ
later_of a b = if ltb a b then b else a

-- where the tail begins
abbrev pub start_of_tail : ℕ → ℕ → List String → ℕ
start_of_tail head tail lines = later_of (length lines - tail) head

-- `writeLineWindow`: the builder's text with the window behind it
unfoldable pub write_line_window : String → String → List String → String
write_line_window b name [] = b
write_line_window b name (l ∷ ls) =
    concat (b ∷ "--- " ∷ name ∷ " ---\n" ∷ join "\n" (l ∷ ls) ∷ "\n" ∷ [])

abbrev contains : String → String → Bool
contains s t = elim (find? s t) [ none ↦ false | some _ ↦ true ]

abbrev markers : List String
markers =
    "error" ∷ "fail" ∷ "panic" ∷ "traceback" ∷ "exception" ∷ "fatal" ∷ "exit status" ∷ "killed"
    ∷ "oom" ∷ "denied" ∷ "permission" ∷ "not found" ∷ []

module _ (t : Texts) where
  unfoldable pub is_important_tool_result_line : String → Bool
  is_important_tool_result_line line = any_of (contains (t.lower line)) markers

  -- the loop of `importantToolResultLines` from line `i` on, with room for so many lines more
  unfoldable pub pick_lines : ℕ → ℕ → ℕ → ℕ → List String → List String
  pick_lines head start i room [] = []
  pick_lines head start i zero (l ∷ ls) = []
  pick_lines head start i (suc room) (l ∷ ls) =
      let passed = pick_lines head start (suc i) (suc room) ls in
      let taken = pick_lines head start (suc i) room ls in
      if ltb i head || leb start i || not (is_important_tool_result_line l)
      then passed
      else l ∷ taken

  unfoldable pub important_tool_result_lines : List String → ℕ → ℕ → List String
  unfolding pick_lines
  important_tool_result_lines lines head tail =
      pick_lines head (start_of_tail head tail lines) 0 80 lines

  abbrev half_from : String → String
  half_from text = if ltb 6000 (len text) then t.slice text (len text - 6000) (len text) else ""

  abbrev half_to : String → String
  half_to text = if ltb 6000 (len text) then t.slice text 0 6000 else text

  unfoldable pub compact_single_line_tool_result : String → String
  compact_single_line_tool_result text = concat (
      "[tool output compacted: "
      ∷ t.decimal (len text)
      ∷ " bytes, 1 line; set server.compact_tool_results: false or use RELAYCODE_CAPTURE_DIR for full output]\n--- head ---\n"
      ∷ half_to text
      ∷ "\n--- tail ---\n"
      ∷ half_from text
      ∷ [])

  abbrev pub banner : String → List String → String
  banner text lines = concat (
      "[tool output compacted: "
      ∷ t.decimal (len text)
      ∷ " bytes, "
      ∷ t.decimal (length lines)
      ∷ " lines; set server.compact_tool_results: false or use RELAYCODE_CAPTURE_DIR for full output]\n"
      ∷ [])

  -- the lines of the window "tail"
  abbrev pub tail_lines : List String → List String
  tail_lines lines = if ltb 80 (length lines) then drop (start_of_tail 80 80 lines) lines else []

  abbrev pub windows : String → List String → String
  windows text lines =
      write_line_window
        (write_line_window (write_line_window (banner text lines) "head" (take 80 lines))
          "important" (important_tool_result_lines lines 80 80))
        "tail" (tail_lines lines)

  abbrev pub compact_lines : String → List String → String
  compact_lines text lines =
      if leb (len text) 12000 && leb (length lines) 240
      then text
      else if length lines == 1
      then compact_single_line_tool_result text
      else t.trim_newlines (windows text lines)

  unfoldable pub compact_tool_result_text : String → String
  unfolding important_tool_result_lines write_line_window compact_single_line_tool_result
  compact_tool_result_text text = compact_lines text (split_lines text)

  abbrev compacted : Bool → Option String → Option String
  compacted compact none = none
  compacted compact (some text) = some (if compact then compact_tool_result_text text else text)

  unfoldable pub tool_result_text_for_upstream : Json → Raw → Bool → Option String
  unfolding tool_result_text compact_tool_result_text
  tool_result_text_for_upstream json raw compact = compacted compact (tool_result_text json raw)
