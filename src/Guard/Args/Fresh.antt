-- ===== src/Guard/Args/Fresh.antt =====
-- The alias that toolargs.go searches for: it is found, and no property has it.
use Prim.Native.String.{len}
use text.Mathlib.TextPositions.{len-append}
use text.Mathlib.TextLemmas.{append_cancel_left, append_cancel_right}
use realy_code.Common.{
  [], ◌∷◌, ℕ, zero, suc, ◌≤◌, ◌<◌, String, true, false, Option, none, some, ◌≡◌, ◌≢◌, refl, ap, ◌∙◌,
  inl, inr, arith, str_eq, str_eq_iff, concat, if_cases, Bool-cases, if_true, if_false,
}
use realy_code.Json.{
  Fields, no_fields, field, delete_field, has_field, size, get_field-delete_field,
}
use realy_code.Guard.Args.{Codec, candidate, search_alias, alias_for}

size-delete_le : (k : String) (fs : Fields) → size (delete_field k fs) ≤ size fs
size-delete_le k no_fields = omega arith
size-delete_le k (field i v rest) = ground (arith, size-delete_le k rest)

-- a key that is there is one less when it is deleted
size-delete_lt :
    (k : String) (fs : Fields) → has_field k fs ≡ true → suc (size (delete_field k fs)) ≤ size fs
size-delete_lt k no_fields h = absurd (cc)
size-delete_lt k (field i v rest) h = ground (arith, size-delete_lt k rest, size-delete_le k rest)

has_field-delete_field :
    (k i : String) (fs : Fields)
    → str_eq k i ≡ false
    → has_field i (delete_field k fs) ≡ has_field i fs
has_field-delete_field k i fs h =
    ap (λ o. elim o [ none ↦ false | some _ ↦ true ])
      (get_field-delete_field k i fs ∙ if_false none h)

module _ (j : Codec) (once : (a b : ℕ) → j.decimal a ≡ j.decimal b → a ≡ b) where
  candidate_apart : (a b : ℕ) → a < b → str_eq (candidate j a) (candidate j b) ≡ false
  candidate_apart a b h = elim (Bool-cases (str_eq (candidate j a) (candidate j b))) [
    | inr apart ↦ apart
    | inl same ↦ absurd (
        omega (
          arith,
          h,
          once a b (
              append_cancel_right (j.decimal a) (j.decimal b) "" (
                append_cancel_left "_fcc_arg_type_" (concat (j.decimal a ∷ []))
                  (concat (j.decimal b ∷ []))
                  ((str_eq_iff (candidate j a) (candidate j b)).0 same))),
        ))
  ]

  -- a candidate that is behind does not see the deletion of one before it
  search_alias-delete_field :
      (n i k : ℕ) (props : Fields)
      → k < i
      → search_alias j n i (delete_field (candidate j k) props) ≡ search_alias j n i props
  unfolding search_alias
  search_alias-delete_field zero i k props h = refl
  search_alias-delete_field (suc n) i k props h = ground (
    arith,
    has_field-delete_field (candidate j k) (candidate j i) props (candidate_apart k i h),
    search_alias-delete_field n (suc i) k props (omega (arith, h)),
  )

  search_alias-found : (n i : ℕ) (props : Fields) → size props < n → search_alias j n i props ≢ none
  unfolding search_alias
  search_alias-found zero i props h = absurd (omega arith)
  search_alias-found (suc n) i props h =
      if_cases (λ (o : Option String). o ≢ none) (has_field (candidate j i) props)
        (λ taken e.
          search_alias-found n (suc i) (delete_field (candidate j i) props)
            (omega (arith, size-delete_lt (candidate j i) props taken))
            (search_alias-delete_field n (suc i) i props (omega arith) ∙ e))
        (λ free e. cc)

-- what a search that ends has found
abbrev pub IsFree : Fields → Option String → Type 0
IsFree props o =
    (alias : String) × (o ≡ some alias)
    × (has_field alias props ≡ false)
    × (str_eq alias "type" ≡ false)

candidate_not_type : (j : Codec) (i : ℕ) → str_eq (candidate j i) "type" ≡ false
candidate_not_type j i = elim (Bool-cases (str_eq (candidate j i) "type")) [
  | inr apart ↦ apart
  | inl same ↦ absurd (
      omega (
        arith,
        len-append "_fcc_arg_type_" (concat (j.decimal i ∷ [])),
        ap len ((str_eq_iff (candidate j i) "type").0 same),
      ))
]

search_alias-IsFree :
    (j : Codec) (n i : ℕ) (props : Fields)
    → search_alias j n i props ≢ none
    → IsFree props (search_alias j n i props)
unfolding search_alias
search_alias-IsFree j zero i props h = absurd (h refl)
search_alias-IsFree j (suc n) i props h =
    if_cases (IsFree props) (has_field (candidate j i) props)
      (λ taken. search_alias-IsFree j n (suc i) props (λ e. h (if_true _ taken ∙ e)))
      (λ free. (candidate j i, refl, free, candidate_not_type j i))

-- Where decimal numbers differ for different numbers, the search for an alias ends, and the alias that it
-- finds is no property of the schema and not "type".
pub alias_for-IsFree :
    (j : Codec) (props : Fields)
    → ((a b : ℕ) → j.decimal a ≡ j.decimal b → a ≡ b)
    → IsFree props (alias_for j props)
unfolding alias_for
alias_for-IsFree j props once =
    if_cases (IsFree props) (has_field "_fcc_arg_type" props)
      (λ taken.
        search_alias-IsFree j (suc (size props)) 2 props
          (search_alias-found j once (suc (size props)) 2 props (omega arith)))
      (λ free. ("_fcc_arg_type", refl, free, refl))
