-- ===== src/Transcript/ServerTools.antt =====
-- internal/anthropic/types.go: the tools of a request, and what of the provider's own tools a backend
-- that does not know them gets.
pub mod Upstream
use realy_code.Common.{
  String, suc, Bool, true, false, not, ◌&&◌, ◌||◌, Option, none, some, List, [], ◌∷◌, map, any_of,
  keep_if, length, ◌≡◌, refl, ap, arith, str_eq, if◌then◌else◌, if_cases,
}
use realy_code.Transcript.Message.{Raw, Slice, elems, Block}
use realy_code.Transcript.Blocks.{Json, is_server_tool_block, degraded, degrade_server_tool_blocks}

pub record Tool : Type 0 where
  pub typ : String
  pub name : String
  pub description : String
  pub input_schema : Raw
  pub strict : Option Bool

unfoldable pub is_server_tool_type : String → Bool
is_server_tool_type typ =
    if str_eq typ "" || str_eq typ "custom" || str_eq typ "function" then false else true

unfoldable pub is_server_tool_name : String → Bool
is_server_tool_name name = str_eq name "web_search" || str_eq name "web_fetch"

unfoldable pub is_server_tool : Tool → Bool
unfolding is_server_tool_type is_server_tool_name
is_server_tool t =
    if is_server_tool_type t.typ
    then true
    else str_eq t.typ "" && str_eq t.input_schema "" && is_server_tool_name t.name

unfoldable pub filter_client_tools : Slice Tool → Slice Tool
unfolding is_server_tool
filter_client_tools none = none
filter_client_tools (some []) = none
filter_client_tools (some (t ∷ ts)) = some (keep_if (λ u. not (is_server_tool u)) (t ∷ ts))

unfoldable pub tools_for_upstream : Slice Tool → Bool → Slice Tool
unfolding filter_client_tools
tools_for_upstream tools passthrough = if passthrough then tools else filter_client_tools tools

unfoldable pub strip_server_tool_blocks : Slice Block → Slice Block
unfolding is_server_tool_block
strip_server_tool_blocks none = none
strip_server_tool_blocks (some []) = some []
strip_server_tool_blocks (some (b ∷ bs)) =
    some (keep_if (λ c. not (is_server_tool_block c)) (b ∷ bs))

unfoldable pub blocks_for_upstream : Json → Slice Block → Bool → Slice Block
unfolding degrade_server_tool_blocks
blocks_for_upstream json blocks passthrough =
    if passthrough then blocks else degrade_server_tool_blocks json blocks
