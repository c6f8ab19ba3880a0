-- ===== src/Examples/Routes.antt =====
-- Runs of routing and validation on a small configuration.
use realy_code.Common.{String, true, pos, false, none, [], ◌∷◌, ◌≡◌, refl}
use realy_code.Config.{
  ToolValidationConfig, ProviderConfig, Config, validate, validate_tool_validation,
  validate_settings, validate_providers, validate_provider, validate_routes,
}
use realy_code.Router.{resolve, models, contains_id}
use realy_code.Router.Listing.{ids, distinct, models-distinct}
use realy_code.Router.Routing.{
  chosen, first_match, last_star, Resolves, resolve-chosen, validate-Resolves,
}

abbrev drop_all : ToolValidationConfig
drop_all = record {
  unknown_tools = "drop";
  invalid_known_tools = "warn";
  malformed_arguments = "repair";
}

abbrev chat : ProviderConfig
chat = record {
  kind = "openai_chat";
  base_url = "http://localhost";
  api_key = "k";
  experimental_passthrough_server_tools = false;
  codex_auth_path = "";
  http_timeout_seconds = pos 30;
  http_proxy = "";
  max_retries = pos 2;
  max_concurrency = pos 0;
  experimental_previous_response_id = false;
  responses_custom_tool_mode = "";
  responses_namespace_tools = false;
  compact_tool_results = false;
  service_tier = "";
  responses_reasoning_summary = "";
  responses_parallel_tool_calls = none;
  tool_validation = drop_all;
}

abbrev two_routes : Config
two_routes = record {
  routes =
      record { match = "*"; provider = "chat"; model = "small" }
      ∷ record { match = "opus"; provider = "chat"; model = "large" }
      ∷ [];
  providers = ("chat", chat) ∷ [];
  tool_validation = drop_all;
}

abbrev same : String → String
same s = s

resolve-chosen_example :
    resolve same two_routes "claude-opus-4"
    ≡ chosen two_routes "claude-opus-4"
        (first_match same "claude-opus-4" two_routes.routes)
        (last_star none two_routes.routes)
resolve-chosen_example = resolve-chosen same two_routes "claude-opus-4"

two_routes_valid : validate two_routes ≡ none
unfolding validate validate_tool_validation validate_settings validate_providers validate_provider
    validate_routes
two_routes_valid = refl

validate-Resolves_example : Resolves (resolve same two_routes "claude-haiku")
validate-Resolves_example = validate-Resolves same two_routes "claude-haiku" two_routes_valid

models-distinct_example :
    (distinct (ids (models two_routes)) ≡ true)
    × (contains_id "*" (ids (models two_routes)) ≡ false)
models-distinct_example = models-distinct two_routes
