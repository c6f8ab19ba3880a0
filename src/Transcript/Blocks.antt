-- ===== src/Transcript/Blocks.antt =====
-- The functions of internal/anthropic/types.go on the blocks of one message. `encoding/json` is a
-- parameter: the calls that the code makes of it.
use realy_code.Common.{
  String, Bool, true, false, not, ◌&&◌, ◌||◌, Option, none, some, List, [], ◌∷◌, map, str_eq,
  any_of, all_of, keep_if, concat, join, if◌then◌else◌,
}
use text.Mathlib.Text.{starts_with}
use realy_code.Transcript.Message.{Raw, Slice, elems, Block, bare_block, text_block}

-- `Part` is a JSON object of a content list.
pub record Json : Type 1 where
  pub Part : Type 0
  pub part_type : Part → String
  pub text_part : String → Part
  pub parse_parts : Raw → Option (List Part)
  pub marshal_parts : List Part → Option Raw
  pub parse_text : Raw → Option String
  pub parse_blocks : Raw → Option (List Block)

unfoldable pub is_server_tool_block : Block → Bool
is_server_tool_block b =
    str_eq b.typ "server_tool_use"
    || str_eq b.typ "web_search_tool_result"
    || str_eq b.typ "web_fetch_tool_result"
    || str_eq b.typ "code_execution_tool_result"
    || str_eq b.typ "computer_use_tool_result"
    || str_eq b.typ "mcp_tool_use"
    || str_eq b.typ "mcp_tool_result"

unfoldable pub is_thinking_block : Block → Bool
is_thinking_block b = str_eq b.typ "thinking" || str_eq b.typ "redacted_thinking"

unfoldable pub all_thinking_blocks : List Block → Bool
unfolding is_thinking_block
all_thinking_blocks [] = false
all_thinking_blocks (b ∷ bs) = all_of is_thinking_block (b ∷ bs)

unfoldable pub has_tool_results : List Block → Bool
has_tool_results bs = any_of (λ b. str_eq b.typ "tool_result") bs

abbrev pub member : String → List String → Bool
member k [] = false
member k (j ∷ js) = str_eq j k || member k js

-- the loop of `stripToolResults`; `allowed` is `none` for a nil map
unfoldable pub strip_results : List String → Option (List String) → List Block → List Block
strip_results seen allowed [] = []
strip_results seen allowed (b ∷ bs) =
    let drop_it = strip_results seen allowed bs in
    let keep_it = b ∷ drop_it in
    let first = b ∷ strip_results (b.tool_use_id ∷ seen) allowed bs in
    if not (str_eq b.typ "tool_result")
    then keep_it
    else if str_eq b.tool_use_id ""
        || member b.tool_use_id seen
        || (elim allowed [ none ↦ true | some ids ↦ not (member b.tool_use_id ids) ])
    then drop_it
    else first

unfoldable pub strip_tool_results : List Block → Option (List String) → List Block
unfolding strip_results
strip_tool_results bs allowed = strip_results [] allowed bs

-- the loop of `toolResultIDs`
unfoldable pub result_ids_from : List String → List Block → List String
result_ids_from seen [] = []
result_ids_from seen (b ∷ bs) =
    let skip = result_ids_from seen bs in
    let take_it = b.tool_use_id ∷ result_ids_from (b.tool_use_id ∷ seen) bs in
    if str_eq b.typ "tool_result"
      && not (str_eq b.tool_use_id "")
      && not (member b.tool_use_id seen)
    then take_it
    else skip

unfoldable pub tool_result_ids : List Block → List String
unfolding result_ids_from
tool_result_ids bs = result_ids_from [] bs

unfoldable pub synthetic_tool_result : String → Block
synthetic_tool_result id = record (bare_block "tool_result") {
  tool_use_id = id;
  content = "\"[Tool result missing due to transcript repair]\"";
  is_error = true;
}

-- `cloneBlocks`: a copy, nil where there is nothing to copy
unfoldable pub clone_blocks : Slice Block → Slice Block
clone_blocks none = none
clone_blocks (some []) = none
clone_blocks (some (b ∷ bs)) = some (b ∷ bs)

module _ (json : Json) where
  open json use {Part, part_type, text_part, parse_parts, marshal_parts, parse_text, parse_blocks}

  -- `toolResultText`; `none` for an error
  unfoldable pub tool_result_text : Raw → Option String
  tool_result_text raw =
      if str_eq raw ""
      then some ""
      else if starts_with raw "\""
      then parse_text raw
      else if starts_with raw "["
      then elim (parse_blocks raw) [
        | none ↦ none
        | some bs ↦ some (join "\n" (map (λ b. b.text) (keep_if (λ b. str_eq b.typ "text") bs)))
      ]
      else some raw

  abbrev or_else : String → String → String
  or_else s t = if str_eq s "" then t else s

  unfoldable pub server_tool_detail : Block → String
  unfolding tool_result_text
  server_tool_detail b =
      if not (str_eq b.input "")
      then b.input
      else if not (str_eq b.content "")
      then elim (tool_result_text b.content) [ some text ↦ text | none ↦ b.content ]
      else ""

  unfoldable pub server_tool_summary : Block → String
  unfolding server_tool_detail
  server_tool_summary b =
      let name = or_else b.name b.typ in
      let id = or_else b.id b.tool_use_id in
      let detail = server_tool_detail b in
      if not (str_eq detail "")
      then concat (
          "[Anthropic server/MCP tool history preserved: " ∷ name ∷ " id=" ∷ id ∷ " detail="
          ∷ detail ∷ "]" ∷ [])
      else concat ("[Anthropic server/MCP tool history preserved: " ∷ name ∷ " id=" ∷ id ∷ "]" ∷ [])

  unfoldable pub degraded : Block → Block
  unfolding is_server_tool_block server_tool_summary
  degraded b = if not (is_server_tool_block b) then b else text_block (server_tool_summary b)

  unfoldable pub degrade_server_tool_blocks : Slice Block → Slice Block
  unfolding degraded
  degrade_server_tool_blocks none = none
  degrade_server_tool_blocks (some bs) = some (map degraded bs)

  abbrev note_if_empty : List Part → List Part
  note_if_empty [] = text_part "[Tool references removed - tool search not enabled]" ∷ []
  note_if_empty (p ∷ ps) = p ∷ ps

  is_reference : Part → Bool
  is_reference p = str_eq (part_type p) "tool_reference"

  unfoldable pub without_references : Raw → List Part → Raw
  unfolding is_reference
  without_references raw parts =
      if not (any_of is_reference parts)
      then raw
      else elim (marshal_parts (note_if_empty (keep_if (λ p. not (is_reference p)) parts))) [
        | none ↦ raw
        | some text ↦ text
      ]

  unfoldable pub strip_tool_reference_blocks : Raw → Raw
  unfolding without_references
  strip_tool_reference_blocks raw =
      if str_eq raw "" || not (starts_with raw "[")
      then raw
      else elim (parse_parts raw) [ none ↦ raw | some parts ↦ without_references raw parts ]

  without_search_fields : Block → Block
  unfolding strip_tool_reference_blocks
  without_search_fields b = record b {
    caller = "";
    content =
        if str_eq b.typ "tool_result" && not (str_eq b.content "")
        then strip_tool_reference_blocks b.content
        else b.content;
  }

  -- never nil, also for nil
  unfoldable pub strip_tool_search_only_fields : Slice Block → Slice Block
  unfolding without_search_fields
  strip_tool_search_only_fields bs = some (map without_search_fields (elems bs))

  -- the three steps with which both normalisations begin on the blocks of a message
  unfoldable pub prepare_blocks : Bool → Bool → Slice Block → Slice Block
  unfolding strip_tool_search_only_fields degrade_server_tool_blocks clone_blocks
  prepare_blocks preserve_server_tools preserve_tool_search blocks =
      let copy = clone_blocks blocks in
      let plain = if not preserve_tool_search then strip_tool_search_only_fields copy else copy in
      if not preserve_server_tools then degrade_server_tool_blocks plain else plain
