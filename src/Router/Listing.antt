-- ===== src/Router/Listing.antt =====
-- What the list of models promises.
use realy_code.Common.{
  String, Bool, true, false, not, ◌&&◌, ◌||◌, Option, none, some, List, [], ◌∷◌, ◌≡◌, refl, sym, ap,
  ◌∙◌, inl, inr, Bool-cases, arith, str_eq, str_eq_iff, if_cases,
}
use realy_code.Config.{Route, ProviderConfig, Config, find_provider}
use realy_code.Router.{ModelInfo, is_star, contains_id, list_model, models_from, models}

abbrev pub ids : List ModelInfo → List String
ids [] = []
ids (m ∷ ms) = m.id ∷ ids ms

abbrev pub distinct : List String → Bool
distinct [] = true
distinct (k ∷ ks) = not (contains_id k ks) && distinct ks

-- No id of `ms` is in `seen` or is the fallback's, and none stands twice.
abbrev IsNew : List String → List ModelInfo → Type 0
IsNew seen ms =
    ((k : String) → contains_id k (ids ms) ≡ true → contains_id k seen ≡ false)
    × ((contains_id "*" (ids ms) ≡ false) × (distinct (ids ms) ≡ true))

new_id :
    (seen : List String) (id k : String) (ks : List String)
    → contains_id id seen ≡ false
    → (contains_id k ks ≡ true → contains_id k (id ∷ seen) ≡ false)
    → (str_eq id k || contains_id k ks) ≡ true
    → contains_id k seen ≡ false
new_id seen id k ks fresh apart h = elim (Bool-cases (str_eq id k)) [
  | inl same ↦ ap (λ i. contains_id i seen) (sym ((str_eq_iff id k).0 same)) ∙ fresh
  | inr other ↦ ground (arith, apart (ground arith))
]

IsNew-cons :
    (seen : List String) (m : ModelInfo) (ms : List ModelInfo)
    → str_eq m.id "*" ≡ false
    → contains_id m.id seen ≡ false
    → IsNew (m.id ∷ seen) ms
    → IsNew seen (m ∷ ms)
IsNew-cons seen m ms star fresh (apart, plain_once) = (
  (λ k h. new_id seen m.id k (ids ms) fresh (apart k) h),
  (ground (arith, plain_once.0), ground (arith, plain_once.1, apart m.id, str_eq_iff m.id m.id)),
)

list_model-IsNew :
    (seen : List String) (r : Route) (found : Option ProviderConfig) (skip rest : List ModelInfo)
    → str_eq r.match "*" ≡ false
    → contains_id r.match seen ≡ false
    → IsNew seen skip
    → IsNew (r.match ∷ seen) rest
    → IsNew seen (list_model r found skip rest)
list_model-IsNew seen r none skip rest star fresh d e = d
list_model-IsNew seen r (some p) skip rest star fresh d e =
    IsNew-cons seen
      (record { id = r.match; provider_name = r.provider; upstream_model = r.model; kind = p.kind })
      rest star fresh e

models_from-IsNew :
    (c : Config) (seen : List String) (rs : List Route) → IsNew seen (models_from c seen rs)
unfolding models_from
models_from-IsNew c seen [] = ((λ k h. absurd (cc)), (refl, refl))
models_from-IsNew c seen (r ∷ rs) =
    if_cases (IsNew seen) (is_star r || contains_id r.match seen) (λ h. models_from-IsNew c seen rs)
      (λ h.
        list_model-IsNew seen r (find_provider r.provider c.providers) (models_from c seen rs)
          (models_from c (r.match ∷ seen) rs) (ground arith) (ground arith)
          (models_from-IsNew c seen rs) (models_from-IsNew c (r.match ∷ seen) rs))

-- `Models` lists no id twice, and never the fallback's.
pub models-distinct :
    (c : Config) → (distinct (ids (models c)) ≡ true) × (contains_id "*" (ids (models c)) ≡ false)
unfolding models
models-distinct c = ((models_from-IsNew c [] c.routes).1.1, (models_from-IsNew c [] c.routes).1.0)
