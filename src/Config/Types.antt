-- ===== src/Config/Types.antt =====
-- The types of internal/config/config.go that routing and validation read. A map is a list of names
-- and values in the order in which Go visits them, which is any order.
use realy_code.Common.{String, ℤ, Bool, Option, none, some, List, [], ◌∷◌, str_eq, if◌then◌else◌}

pub record Route : Type 0 where
  pub match : String
  pub provider : String
  pub model : String

pub record ToolValidationConfig : Type 0 where
  pub unknown_tools : String
  pub invalid_known_tools : String
  pub malformed_arguments : String

pub record ProviderConfig : Type 0 where
  pub kind : String
  pub base_url : String
  pub api_key : String
  pub experimental_passthrough_server_tools : Bool
  pub codex_auth_path : String
  pub http_timeout_seconds : ℤ
  pub http_proxy : String
  pub max_retries : ℤ
  pub max_concurrency : ℤ
  pub experimental_previous_response_id : Bool
  pub responses_custom_tool_mode : String
  pub responses_namespace_tools : Bool
  pub compact_tool_results : Bool
  pub service_tier : String
  pub responses_reasoning_summary : String
  pub responses_parallel_tool_calls : Option Bool
  pub tool_validation : ToolValidationConfig

-- `Config` without the server settings, which neither routing nor validation reads
pub record Config : Type 0 where
  pub routes : List Route
  pub providers : List (String × ProviderConfig)
  pub tool_validation : ToolValidationConfig

-- `providers[name]`
abbrev pub find_provider : String → List (String × ProviderConfig) → Option ProviderConfig
find_provider k [] = none
find_provider k ((j, p) ∷ ps) = if str_eq j k then some p else find_provider k ps
