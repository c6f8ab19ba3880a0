-- ===== src/Guard/Validate/Fuel.antt =====
-- The depth of the recursion of `validateSchemaValue`: the size of the schema is fuel enough.
use realy_code.Common.{
  ℕ, suc, ◌+◌, ◌≤◌, ◌<◌, String, Option, none, some, List, [], ◌∷◌, ◌≡◌, refl, arith,
}
use realy_code.Json.{
  Value, Values, Fields, null, flag, float, int, str, array, object, nil, item, no_fields, field,
  get_field, elements, as_array,
}
use realy_code.Guard.Schema.{Verdict, Checks}
use realy_code.Guard.Validate.{
  check_all, check_all_of, check_any, check_any_of, check_count, check_one_of, check_each,
  check_items, array_ok, check_additional, check_property, check_properties,
}

-- how many values and keys a schema has
unfoldable mutual
  pub weight : Value → ℕ
  weight (array vs) = suc (weight_values vs)
  weight (object fs) = suc (weight_fields fs)
  weight null = 1
  weight (flag b) = 1
  weight (float f) = 1
  weight (int i) = 1
  weight (str s) = 1

  pub weight_values : Values → ℕ
  weight_values nil = 0
  weight_values (item v vs) = weight v + weight_values vs

  pub weight_fields : Fields → ℕ
  weight_fields no_fields = 0
  weight_fields (field k v rest) = weight v + weight_fields rest

-- The checks `f` and `g` agree on every schema that is lighter than `n`.
abbrev pub Agree : (Value → Value → Verdict) → (Value → Value → Verdict) → ℕ → Type 0
Agree f g n = (v s : Value) → weight s < n → f v s ≡ g v s

get_field-weight :
    (k : String) (fs : Fields) (s : Value) → get_field k fs ≡ some s → weight s ≤ weight_fields fs
unfolding weight
get_field-weight k no_fields s h = absurd (cc)
get_field-weight k (field j v rest) s h = ground (arith, get_field-weight k rest s)

module _ (c : Checks) (f g : Value → Value → Verdict) (n : ℕ) (same : Agree f g n) where
  check_all_same :
      (v : Value) (ss : Values)
      → weight_values ss < n
      → check_all c f v (elements ss) ≡ check_all c g v (elements ss)
  unfolding weight
  check_all_same v nil h = refl
  check_all_same v (item s ss) h =
      cc (same v s (omega (arith, h)), check_all_same v ss (omega (arith, h)))

  check_any_same :
      (v : Value) (ss : Values)
      → weight_values ss < n
      → check_any c f v (elements ss) ≡ check_any c g v (elements ss)
  unfolding weight
  check_any_same v nil h = refl
  check_any_same v (item s ss) h =
      cc (same v s (omega (arith, h)), check_any_same v ss (omega (arith, h)))

  check_count_same :
      (v : Value) (k : ℕ) (ss : Values)
      → weight_values ss < n
      → check_count c f v k (elements ss) ≡ check_count c g v k (elements ss)
  unfolding weight
  check_count_same v k nil h = refl
  check_count_same v k (item s ss) h = cc (
    same v s (omega (arith, h)),
    check_count_same v (suc k) ss (omega (arith, h)),
    check_count_same v k ss (omega (arith, h)),
  )

  check_each_same :
      (xs : List Value) (s : Value) → weight s < n → check_each c f xs s ≡ check_each c g xs s
  check_each_same [] s h = refl
  check_each_same (x ∷ xs) s h = cc (same x s h, check_each_same xs s h)

  -- a schema behind a key, if there is one
  pub behind_lighter :
      (k : String) (fs : Fields)
      → weight_fields fs < n
      → (s : Value) → get_field k fs ≡ some s
      → weight s < n
  behind_lighter k fs h s e = omega (arith, h, get_field-weight k fs s e)

  -- a part of a check reads what stands behind one key
  pub at_key :
      {A : Type 0} (k : String) (fs : Fields) (p q : Option Value → A)
      → p none ≡ q none
      → ((s : Value) → weight s < n → p (some s) ≡ q (some s))
      → weight_fields fs < n
      → p (get_field k fs) ≡ q (get_field k fs)
  at_key k fs p q none_same some_same h = by_field (get_field k fs) (behind_lighter k fs h)
    where
      by_field : (o : Option Value) → ((s : Value) → o ≡ some s → weight s < n) → p o ≡ q o
      by_field none lighter = none_same
      by_field (some s) lighter = some_same s (lighter s refl)

  pub check_all_of_same :
      (v s : Value)
      → weight s < n
      → check_all_of c f v (as_array (some s)) ≡ check_all_of c g v (as_array (some s))
  unfolding weight
  check_all_of_same v (array ss) h = check_all_same v ss (omega (arith, h))
  check_all_of_same v null h = refl
  check_all_of_same v (flag b) h = refl
  check_all_of_same v (float x) h = refl
  check_all_of_same v (int i) h = refl
  check_all_of_same v (str t) h = refl
  check_all_of_same v (object fs) h = refl

  pub check_any_of_same :
      (v s : Value)
      → weight s < n
      → check_any_of c f v (as_array (some s)) ≡ check_any_of c g v (as_array (some s))
  unfolding weight
  check_any_of_same v (array nil) h = refl
  check_any_of_same v (array (item s ss)) h =
      check_any_same v (item s ss) (unfold weight in omega (arith, h))
  check_any_of_same v null h = refl
  check_any_of_same v (flag b) h = refl
  check_any_of_same v (float x) h = refl
  check_any_of_same v (int i) h = refl
  check_any_of_same v (str t) h = refl
  check_any_of_same v (object fs) h = refl

  pub check_one_of_same :
      (v s : Value)
      → weight s < n
      → check_one_of c f v (as_array (some s)) ≡ check_one_of c g v (as_array (some s))
  unfolding weight
  check_one_of_same v (array nil) h = refl
  check_one_of_same v (array (item s ss)) h =
      check_count_same v 0 (item s ss) (unfold weight in omega (arith, h))
  check_one_of_same v null h = refl
  check_one_of_same v (flag b) h = refl
  check_one_of_same v (float x) h = refl
  check_one_of_same v (int i) h = refl
  check_one_of_same v (str t) h = refl
  check_one_of_same v (object fs) h = refl

  pub array_ok_same :
      (v : Value) (schema : Fields)
      → weight_fields schema < n
      → array_ok c f v schema ≡ array_ok c g v schema
  array_ok_same (array vs) schema h = cc (
      at_key "items" schema (check_items c f (elements vs)) (check_items c g (elements vs)) refl
        (λ s lighter. check_each_same (elements vs) s lighter) h)
  array_ok_same null schema h = refl
  array_ok_same (flag b) schema h = refl
  array_ok_same (float x) schema h = refl
  array_ok_same (int i) schema h = refl
  array_ok_same (str t) schema h = refl
  array_ok_same (object fs) schema h = refl

  check_additional_same :
      (v : Value) (o : Option Value)
      → ((s : Value) → o ≡ some s → weight s < n)
      → check_additional c f v o ≡ check_additional c g v o
  check_additional_same v none lighter = refl
  check_additional_same v (some (object s)) lighter = same v (object s) (lighter (object s) refl)
  check_additional_same v (some null) lighter = refl
  check_additional_same v (some (flag b)) lighter = refl
  check_additional_same v (some (float x)) lighter = refl
  check_additional_same v (some (int i)) lighter = refl
  check_additional_same v (some (str t)) lighter = refl
  check_additional_same v (some (array vs)) lighter = refl

  check_property_same :
      (v : Value) (o additional : Option Value)
      → ((s : Value) → o ≡ some s → weight s < n)
      → ((s : Value) → additional ≡ some s → weight s < n)
      → check_property c f v o additional ≡ check_property c g v o additional
  check_property_same v none additional lighter a = check_additional_same v additional a
  check_property_same v (some s) additional lighter a = same v s (lighter s refl)

  pub check_properties_same :
      (obj props : Fields) (additional : Option Value)
      → weight_fields props < n
      → ((s : Value) → additional ≡ some s → weight s < n)
      → check_properties c f obj props additional ≡ check_properties c g obj props additional
  check_properties_same no_fields props additional h a = refl
  check_properties_same (field name v rest) props additional h a = cc (
    check_property_same v (get_field name props) additional (behind_lighter name props h) a,
    check_properties_same rest props additional h a,
  )
