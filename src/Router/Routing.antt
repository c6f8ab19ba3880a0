-- ===== src/Router/Routing.antt =====
-- What routing promises: the first route that matches, else the last fallback; and no failure on a
-- configuration that was validated.
use realy_code.Common.{
  String, Bool, true, false, not, ◌&&◌, ◌||◌, Option, none, some, List, [], ◌∷◌, ◌≡◌, refl, ap, ◌∙◌,
  arith, if◌then◌else◌, if_cases,
}
use realy_code.Config.{
  Route, ProviderConfig, Config, find_provider, validate_providers, validate_routes, validate,
  ConfigError,
}
use realy_code.Router.{
  Resolved, Resolution, ok, no_route, unknown_provider, is_star, matches, bind, resolve_from,
  resolve,
}

-- the first route, other than a fallback, whose text stands in the name
abbrev pub first_match : (String → String) → String → List Route → Option Route
first_match lower name [] = none
first_match lower name (r ∷ rs) =
    let later = first_match lower name rs in
    if not (is_star r) && matches lower name r then some r else later

-- the last fallback
abbrev pub last_star : Option Route → List Route → Option Route
last_star best [] = best
last_star best (r ∷ rs) = last_star (if is_star r then some r else best) rs

abbrev pub chosen : Config → String → Option Route → Option Route → Resolution
chosen c model (some r) fallback = bind c r
chosen c model none (some r) = bind c r
chosen c model none none = no_route model

module _ (lower : String → String) (c : Config) (model : String) where
  resolve_from-chosen :
      (fallback : Option Route) (rs : List Route)
      → resolve_from lower c model (lower model) fallback rs
        ≡ chosen c model (first_match lower (lower model) rs) (last_star fallback rs)
  unfolding resolve_from
  resolve_from-chosen none [] = refl
  resolve_from-chosen (some f) [] = refl
  resolve_from-chosen none (r ∷ rs) =
      ground (arith, resolve_from-chosen none rs, resolve_from-chosen (some r) rs)
  resolve_from-chosen (some f) (r ∷ rs) =
      ground (arith, resolve_from-chosen (some f) rs, resolve_from-chosen (some r) rs)

  -- `Resolve` takes the first route that is no fallback and whose text stands in the name, in lower
  -- case; if there is none, the last fallback; if there is none of either, it reports the model.
  pub resolve-chosen :
      resolve lower c model
      ≡ chosen c model (first_match lower (lower model) c.routes) (last_star none c.routes)
  unfolding resolve
  resolve-chosen = resolve_from-chosen none c.routes

-- every route names a provider of the configuration
abbrev RoutesBound : Config → List Route → Type 0
RoutesBound c [] = Unit
RoutesBound c (r ∷ rs) =
    ((p : ProviderConfig) × (find_provider r.provider c.providers ≡ some p)) × RoutesBound c rs

abbrev has_star : List Route → Bool
has_star [] = false
has_star (r ∷ rs) = is_star r || has_star rs

provider_there :
    (r : Route) (later : Option ConfigError) (found : Option ProviderConfig)
    → elim found [ none ↦ some (ConfigError.unknown_provider r) | some _ ↦ later ] ≡ none
    → ((p : ProviderConfig) × (found ≡ some p)) × (later ≡ none)
provider_there r later none h = absurd (cc)
provider_there r later (some p) h = ((p, refl), h)

validate_routes_sound :
    (c : Config) (star : Bool) (rs : List Route) (after : Option ConfigError)
    → validate_routes c.providers star rs after ≡ none
    → RoutesBound c rs × (((star || has_star rs) ≡ true) × (after ≡ none))
unfolding validate_routes
validate_routes_sound c star [] after h = ground arith
validate_routes_sound c star (r ∷ rs) after h =
    let found =
      provider_there r (validate_routes c.providers (star || is_star r) rs after)
        (find_provider r.provider c.providers) h in
    let later = validate_routes_sound c (star || is_star r) rs after (found.1) in
    ((found.0, later.0), (ground arith, later.1.1))

-- the provider of a route is found
abbrev IsBound : Config → Option Route → Type 0
IsBound c none = Unit
IsBound c (some r) = (p : ProviderConfig) × (find_provider r.provider c.providers ≡ some p)

first_match-IsBound :
    (lower : String → String) (c : Config) (name : String) (rs : List Route)
    → RoutesBound c rs
    → IsBound c (first_match lower name rs)
first_match-IsBound lower c name [] b = tt
first_match-IsBound lower c name (x ∷ rs) (bx, b) =
    if_cases (λ (o : Option Route). IsBound c o) (not (is_star x) && matches lower name x) (λ h. bx)
      (λ h. first_match-IsBound lower c name rs b)

last_star-IsBound :
    (c : Config) (rs : List Route) (best : Option Route)
    → RoutesBound c rs
    → IsBound c best
    → IsBound c (last_star best rs)
last_star-IsBound c [] best b known = known
last_star-IsBound c (x ∷ rs) best (bx, b) known =
    last_star-IsBound c rs (if is_star x then some x else best) b
      (if_cases (λ (o : Option Route). IsBound c o) (is_star x) (λ h. bx) (λ h. known))

is_some : Option Route → Bool
is_some none = false
is_some (some _) = true

last_star_there :
    (rs : List Route) (best : Option Route)
    → (is_some best || has_star rs) ≡ true
    → is_some (last_star best rs) ≡ true
unfolding is_some
last_star_there [] best h = ground arith
last_star_there (x ∷ rs) best h = last_star_there rs (if is_star x then some x else best) (
    if_cases (λ (o : Option Route). (is_some o || has_star rs) ≡ true) (is_star x) (λ star. refl)
      (λ plain. ground arith))

-- a provider and a model, and no error
abbrev pub Resolves : Resolution → Type 0
Resolves result = (r : Resolved) × (result ≡ ok r)

abbrev bind_found : Route → Option ProviderConfig → Resolution
bind_found r found = elim found [
  | none ↦ unknown_provider r
  | some p ↦ ok (record { provider_name = r.provider; provider = p; model = r.model })
]

bind-Resolves : (c : Config) (r : Route) → IsBound c (some r) → Resolves (bind c r)
unfolding bind
bind-Resolves c r (p, found) =
    (record { provider_name = r.provider; provider = p; model = r.model }, ap (bind_found r) found)

chosen-Resolves :
    (c : Config) (model : String) (first fallback : Option Route)
    → IsBound c first
    → IsBound c fallback
    → is_some fallback ≡ true
    → Resolves (chosen c model first fallback)
unfolding is_some
chosen-Resolves c model (some r) fallback b d h = bind-Resolves c r b
chosen-Resolves c model none (some r) b d h = bind-Resolves c r d
chosen-Resolves c model none none b d h = absurd (cc)

validate-routes :
    (c : Config)
    → validate c ≡ none
    → validate_routes c.providers false c.routes (validate_providers c.providers) ≡ none
unfolding validate
validate-routes c h = ground arith

-- On a configuration that `validate` lets pass, `Resolve` finds a provider for the name of any model,
-- whatever the lower-case form of a text is.
pub validate-Resolves :
    (lower : String → String) (c : Config) (model : String)
    → validate c ≡ none
    → Resolves (resolve lower c model)
unfolding is_some
validate-Resolves lower c model h =
    let sound =
      validate_routes_sound c false c.routes (validate_providers c.providers)
        (validate-routes c h) in
    let found =
      chosen-Resolves c model (first_match lower (lower model) c.routes) (last_star none c.routes)
        (first_match-IsBound lower c (lower model) c.routes sound.0)
        (last_star-IsBound c c.routes none sound.0 tt) (last_star_there c.routes none sound.1.0) in
    (found.0, resolve-chosen lower c model ∙ found.1)
