-- ===== src/Router.antt =====
-- internal/router/router.go: from the name of a model to a provider and its model.
pub mod Routing
pub mod Listing
use text.Mathlib.Text.{find?}
use realy_code.Common.{
  String, Bool, true, false, not, ◌&&◌, ◌||◌, Option, none, some, List, [], ◌∷◌, str_eq,
  if◌then◌else◌,
}
use realy_code.Config.{Route, ProviderConfig, Config, find_provider}

pub record Resolved : Type 0 where
  pub provider_name : String
  pub provider : ProviderConfig
  pub model : String

pub data Resolution : Type 0 where
  ok : Resolved → Resolution
  no_route : String → Resolution
  unknown_provider : Route → Resolution

pub record ModelInfo : Type 0 where
  pub id : String
  pub provider_name : String
  pub upstream_model : String
  pub kind : String

-- `strings.Contains`
abbrev pub contains : String → String → Bool
contains s t = elim (find? s t) [ none ↦ false | some _ ↦ true ]

abbrev pub is_star : Route → Bool
is_star r = str_eq r.match "*"

unfoldable pub bind : Config → Route → Resolution
bind c r = elim (find_provider r.provider c.providers) [
  | none ↦ unknown_provider r
  | some p ↦ ok (record { provider_name = r.provider; provider = p; model = r.model })
]

-- `strings.ToLower` is a parameter: its Unicode tables are not part of the program.
module _ (lower : String → String) where
  abbrev pub matches : String → Route → Bool
  matches name r = contains name (lower r.match)

  unfoldable pub resolve_from : Config → String → String → Option Route → List Route → Resolution
  resolve_from c model name none [] = no_route model
  resolve_from c model name (some fallback) [] = bind c fallback
  resolve_from c model name fallback (r ∷ rs) =
      let go_on = resolve_from c model name fallback rs in
      let fall_back = resolve_from c model name (some r) rs in
      if is_star r then fall_back else if matches name r then bind c r else go_on

  unfoldable pub resolve : Config → String → Resolution
  unfolding resolve_from
  resolve c model = resolve_from c model (lower model) none c.routes

abbrev pub contains_id : String → List String → Bool
contains_id k [] = false
contains_id k (j ∷ js) = str_eq j k || contains_id k js

-- the entry for a route, if its provider is known
abbrev pub list_model :
    Route → Option ProviderConfig → List ModelInfo → List ModelInfo → List ModelInfo
list_model r none skip rest = skip
list_model r (some p) skip rest =
    record { id = r.match; provider_name = r.provider; upstream_model = r.model; kind = p.kind }
    ∷ rest

-- the loop of `Models`, with `seen`
unfoldable pub models_from : Config → List String → List Route → List ModelInfo
models_from c seen [] = []
models_from c seen (r ∷ rs) =
    let skip = models_from c seen rs in
    let rest = models_from c (r.match ∷ seen) rs in
    if is_star r || contains_id r.match seen
    then skip
    else list_model r (find_provider r.provider c.providers) skip rest

unfoldable pub models : Config → List ModelInfo
unfolding models_from
models c = models_from c [] c.routes
