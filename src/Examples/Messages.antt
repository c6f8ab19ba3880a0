-- ===== src/Examples/Messages.antt =====
-- A resumed transcript with a tool use that repeats and one without a result.
use realy_code.Common.{Sieved, ◌≤◌, String, false, none, some, List, [], ◌∷◌}
use realy_code.Transcript.Message.{Slice, elems, Block, Message, bare_block, text_block, of_blocks}
use realy_code.Transcript.Blocks.{Json}
use realy_code.Transcript.ServerTools.{
  Tool, tools_for_upstream, strip_server_tool_blocks, blocks_for_upstream,
}
use realy_code.Transcript.ServerTools.Upstream.{
  IsServerBlock, IsOtherBlock, IsServerTool, IsClientTool, Replaced, upstream_gets_client_parts,
}
use realy_code.Transcript.Repair.{normalize_messages_for_upstream}
use realy_code.Transcript.Pairing.{Paired, transcript_uses}
use realy_code.Transcript.Pairing.Loop.{normalize-Paired, normalize-uses_once}

-- a JSON package that reads nothing
abbrev pub mute : Json
mute = record {
  Part = String;
  part_type = λ p. p;
  text_part = λ t. t;
  parse_parts = λ _. none;
  marshal_parts = λ _. none;
  parse_text = λ _. none;
  parse_blocks = λ _. none;
}

abbrev used : String → Block
used id = record (bare_block "tool_use") { id = id; name = "Read" }

abbrev result : String → Block
result id = record (bare_block "tool_result") { tool_use_id = id }

abbrev says : String → List Block → Message
says role blocks = record { role = role; content = of_blocks (some blocks) }

abbrev resumed : List Message
resumed =
    says "user" (result "old" ∷ [])
    ∷ says "assistant" (used "a" ∷ used "b" ∷ used "a" ∷ [])
    ∷ says "user" (result "b" ∷ result "c" ∷ text_block "go on" ∷ [])
    ∷ says "assistant" (bare_block "thinking" ∷ [])
    ∷ []

normalize-Paired_example : Paired [] (normalize_messages_for_upstream mute false false resumed)
normalize-Paired_example = normalize-Paired mute false false resumed

normalize-uses_once_example :
    transcript_uses (normalize_messages_for_upstream mute false false resumed) "a" ≤ 1
normalize-uses_once_example = normalize-uses_once mute false false "a" resumed

abbrev search : Tool
search = record {
  typ = "web_search_20250305";
  name = "web_search";
  description = "";
  input_schema = "";
  strict = none;
}

abbrev read_file : Tool
read_file = record {
  typ = "";
  name = "Read";
  description = "reads a file";
  input_schema = "{}";
  strict = none;
}

abbrev offered : Slice Tool
offered = some (search ∷ read_file ∷ [])

abbrev history : Slice Block
history = some (bare_block "server_tool_use" ∷ text_block "done" ∷ [])

upstream_gets_client_parts_example :
    Sieved IsClientTool IsServerTool (elems offered) (elems (tools_for_upstream offered false))
    × Sieved IsOtherBlock IsServerBlock (elems history) (elems (strip_server_tool_blocks history))
    × Replaced mute (elems history) (elems (blocks_for_upstream mute history false))
upstream_gets_client_parts_example = upstream_gets_client_parts mute offered history
