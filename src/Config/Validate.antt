-- ===== src/Config/Validate.antt =====
-- `validate` and `validateToolValidation` of internal/config/config.go: `none` where the code returns
-- nil, else the error.
use realy_code.Common.{
  String, Bool, true, false, not, ◌&&◌, ◌||◌, Option, none, some, List, [], ◌∷◌, str_eq,
  if◌then◌else◌,
}
use realy_code.Config.Types.{Route, ToolValidationConfig, ProviderConfig, Config, find_provider}

pub data ConfigError : Type 0 where
  bad_tool_validation : String → ConfigError
  unknown_provider : Route → ConfigError
  no_fallback : ConfigError
  custom_tool_mode_kind custom_tool_mode_value namespace_tools_kind : String → ConfigError
  service_tier_kind reasoning_summary_kind parallel_tool_calls_kind : String → ConfigError

abbrev is_policy : String → Bool
is_policy v = str_eq v "drop" || str_eq v "warn" || str_eq v "repair"

-- the loop of `validateToolValidation`
unfoldable pub validate_settings : List (String × String) → Option ConfigError
validate_settings [] = none
validate_settings ((key, value) ∷ rest) =
    let later = validate_settings rest in
    if is_policy value then later else some (bad_tool_validation key)

unfoldable pub validate_tool_validation : ToolValidationConfig → Option ConfigError
unfolding validate_settings
validate_tool_validation tv = validate_settings (
    ("unknown_tools", tv.unknown_tools)
    ∷ ("invalid_known_tools", tv.invalid_known_tools)
    ∷ ("malformed_arguments", tv.malformed_arguments)
    ∷ [])

abbrev is_responses : ProviderConfig → Bool
is_responses p = str_eq p.kind "openai_responses"

abbrev is_set : {A : Type 0} → Option A → Bool
is_set none = false
is_set (some _) = true

-- one turn of the loop over the providers
unfoldable pub validate_provider : String → ProviderConfig → Option ConfigError
validate_provider name p =
    let mode = p.responses_custom_tool_mode in
    let named_mode = not (str_eq mode "") && not (str_eq mode "native") in
    if named_mode && not (is_responses p)
    then some (custom_tool_mode_kind name)
    else if named_mode && not (str_eq mode "function")
    then some (custom_tool_mode_value name)
    else if p.responses_namespace_tools && not (is_responses p)
    then some (namespace_tools_kind name)
    else if not (str_eq p.service_tier "") && not (is_responses p)
    then some (service_tier_kind name)
    else if not (str_eq p.responses_reasoning_summary "") && not (is_responses p)
    then some (reasoning_summary_kind name)
    else if is_set p.responses_parallel_tool_calls && not (is_responses p)
    then some (parallel_tool_calls_kind name)
    else none

unfoldable pub validate_providers : List (String × ProviderConfig) → Option ConfigError
unfolding validate_provider
validate_providers [] = none
validate_providers ((name, p) ∷ ps) =
    let later = validate_providers ps in
    elim (validate_provider name p) [ some e ↦ some e | none ↦ later ]

-- the loop over the routes, with `hasFallback`; what comes behind it is `after`
unfoldable pub validate_routes :
    List (String × ProviderConfig) → Bool → List Route → Option ConfigError → Option ConfigError
validate_routes providers has_fallback [] after =
    if not has_fallback then some no_fallback else after
validate_routes providers has_fallback (r ∷ rs) after =
    let later = validate_routes providers (has_fallback || str_eq r.match "*") rs after in
    elim (find_provider r.provider providers) [ none ↦ some (unknown_provider r) | some _ ↦ later ]

unfoldable pub validate : Config → Option ConfigError
unfolding validate_tool_validation validate_routes validate_providers
validate c = elim (validate_tool_validation c.tool_validation) [
  | some e ↦ some e
  | none ↦ validate_routes c.providers false c.routes (validate_providers c.providers)
]
