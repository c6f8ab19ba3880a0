-- ===== src/Transcript/ServerTools/Upstream.antt =====
-- Which tools and blocks of a request reach a backend that does not know the provider's own tools
-- (internal/anthropic/types.go), told by their types and names alone.
use realy_code.Common.{
  String, Bool, true, false, not, none, some, List, [], ◌∷◌, map, ◌≡◌, ◌≢◌, refl, sym, ◌∙◌, ap,
  arith, str_eq, str_eq_iff, ◌⊎◌, inl, inr, Bool-cases, Listed, NotListed, is_among,
  is_among-Listed, is_among-NotListed, Sieved, all_seen, keep_if-Sieved,
}
use realy_code.Transcript.Message.{Slice, elems, Block, text_block}
use realy_code.Transcript.Blocks.{
  Json, is_server_tool_block, degraded, degrade_server_tool_blocks, server_tool_summary,
}
use realy_code.Transcript.ServerTools.{
  Tool, is_server_tool_type, is_server_tool_name, is_server_tool, filter_client_tools,
  tools_for_upstream, strip_server_tool_blocks, blocks_for_upstream,
}

-- the blocks that the provider's tools and its MCP connector write
abbrev server_blocks : List String
server_blocks =
    "server_tool_use" ∷ "web_search_tool_result" ∷ "web_fetch_tool_result"
    ∷ "code_execution_tool_result" ∷ "computer_use_tool_result" ∷ "mcp_tool_use" ∷ "mcp_tool_result"
    ∷ []

abbrev pub IsServerBlock : Block → Type 0
IsServerBlock b = Listed b.typ server_blocks

abbrev pub IsOtherBlock : Block → Type 0
IsOtherBlock b = NotListed b.typ server_blocks

-- the types that a tool of the client may have, and the names that mean a tool of the provider
-- where a tool has neither type nor schema
abbrev client_types : List String
client_types = "" ∷ "custom" ∷ "function" ∷ []

abbrev server_names : List String
server_names = "web_search" ∷ "web_fetch" ∷ []

abbrev pub IsServerTool : Tool → Type 0
IsServerTool t =
    NotListed t.typ client_types
    ⊎ ((t.typ ≡ "") × (t.input_schema ≡ "") × Listed t.name server_names)

abbrev pub IsClientTool : Tool → Type 0
IsClientTool t =
    Listed t.typ client_types
    × ((t.typ ≢ "") ⊎ ((t.input_schema ≢ "") ⊎ NotListed t.name server_names))

-- each block as it was, or in the place of a server tool's a text that tells of it
pub data Replaced (json : Json) : List Block → List Block → Type 0 where
  none_left : Replaced json [] []
  as_it_was :
      {b : Block} {bs cs : List Block}
      → IsOtherBlock b
      → Replaced json bs cs
      → Replaced json (b ∷ bs) (b ∷ cs)
  retold :
      {b : Block} {bs cs : List Block}
      → IsServerBlock b
      → Replaced json bs cs
      → Replaced json (b ∷ bs) (text_block (server_tool_summary json b) ∷ cs)

is_server_tool_block_by : (b : Block) → is_server_tool_block b ≡ is_among b.typ server_blocks
unfolding is_server_tool_block
is_server_tool_block_by b = ground arith

not-true : (t : Bool) → not t ≡ true → t ≡ false
not-true true h = absurd (cc)
not-true false h = refl

not-false : (t : Bool) → not t ≡ false → t ≡ true
not-false true h = refl
not-false false h = absurd (cc)

server_block : (b : Block) → is_server_tool_block b ≡ true → IsServerBlock b
server_block b h = is_among-Listed b.typ server_blocks (sym (is_server_tool_block_by b) ∙ h)

other_block : (b : Block) → is_server_tool_block b ≡ false → IsOtherBlock b
other_block b h = is_among-NotListed b.typ server_blocks (sym (is_server_tool_block_by b) ∙ h)

degraded-Replaced : (json : Json) (bs : List Block) → Replaced json bs (map (degraded json) bs)
unfolding degraded
degraded-Replaced json [] = none_left
degraded-Replaced json (b ∷ bs) = elim (Bool-cases (is_server_tool_block b)) [
  | inl s ↦ rw s (retold (server_block b s) (degraded-Replaced json bs))
  | inr o ↦ rw o (as_it_was (other_block b o) (degraded-Replaced json bs))
]

equal : (s x : String) → str_eq s x ≡ true → s ≡ x
equal s x h = (str_eq_iff s x).0 h

differs : (s x : String) → str_eq s x ≡ false → s ≢ x
differs s x h = λ e. let same = (str_eq_iff s x).1 e in absurd (cc)

is_server_tool_type_by : (typ : String) → is_server_tool_type typ ≡ not (is_among typ client_types)
unfolding is_server_tool_type
is_server_tool_type_by typ = ground arith

server_tool : (t : Tool) → is_server_tool t ≡ true → IsServerTool t
unfolding is_server_tool is_server_tool_name
server_tool t h = elim (Bool-cases (is_among t.typ client_types)) [
  | inl client ↦
      let plain : is_server_tool_type t.typ ≡ false =
        is_server_tool_type_by t.typ ∙ ap not client in
      inr (
        equal t.typ "" (ground arith),
        equal t.input_schema "" (ground arith),
        is_among-Listed t.name server_names (ground arith),
      )
  | inr other ↦ inl (is_among-NotListed t.typ client_types other)
]

client_tool : (t : Tool) → is_server_tool t ≡ false → IsClientTool t
unfolding is_server_tool is_server_tool_name
client_tool t h =
    let by = is_server_tool_type_by t.typ in
    (
      is_among-Listed t.typ client_types (ground arith),
      elim (Bool-cases (str_eq t.typ "")) [
        | inr typed ↦ inl (differs t.typ "" typed)
        | inl untyped ↦ inr (elim (Bool-cases (str_eq t.input_schema "")) [
          | inr schema ↦ inl (differs t.input_schema "" schema)
          | inl bare ↦ inr (is_among-NotListed t.name server_names (ground arith))
        ])
      ],
    )

client_tools-Sieved :
    (tools : Slice Tool)
    → Sieved IsClientTool IsServerTool (elems tools) (elems (filter_client_tools tools))
unfolding filter_client_tools
client_tools-Sieved none = all_seen
client_tools-Sieved (some []) = all_seen
client_tools-Sieved (some (t ∷ ts)) =
    keep_if-Sieved (λ u. not (is_server_tool u)) (λ u h. client_tool u (not-true _ h))
      (λ u h. server_tool u (not-false _ h)) (t ∷ ts)

stripped-Sieved :
    (blocks : Slice Block)
    → Sieved IsOtherBlock IsServerBlock (elems blocks) (elems (strip_server_tool_blocks blocks))
unfolding strip_server_tool_blocks
stripped-Sieved none = all_seen
stripped-Sieved (some []) = all_seen
stripped-Sieved (some (b ∷ bs)) =
    keep_if-Sieved (λ c. not (is_server_tool_block c)) (λ c h. other_block c (not-true _ h))
      (λ c h. server_block c (not-false _ h)) (b ∷ bs)

degraded_slice-Replaced :
    (json : Json) (blocks : Slice Block)
    → Replaced json (elems blocks) (elems (degrade_server_tool_blocks json blocks))
unfolding degrade_server_tool_blocks
degraded_slice-Replaced json none = none_left
degraded_slice-Replaced json (some bs) = degraded-Replaced json bs

-- Without the pass-through of server tools a backend gets exactly the client's tools of a request, in
-- their order: those of type "", "custom" or "function", but for one without type and schema named
-- "web_search" or "web_fetch". `StripServerToolBlocks` leaves out exactly the blocks of the seven types that
-- server tools and MCP write, and `BlocksForUpstream` puts a text with the summary in the place of each of
-- them; every other block stays as it was, in its place.
pub upstream_gets_client_parts :
    (json : Json) (tools : Slice Tool) (blocks : Slice Block)
    → Sieved IsClientTool IsServerTool (elems tools) (elems (tools_for_upstream tools false))
      × Sieved IsOtherBlock IsServerBlock (elems blocks) (elems (strip_server_tool_blocks blocks))
      × Replaced json (elems blocks) (elems (blocks_for_upstream json blocks false))
unfolding tools_for_upstream blocks_for_upstream
upstream_gets_client_parts json tools blocks =
    (client_tools-Sieved tools, stripped-Sieved blocks, degraded_slice-Replaced json blocks)
