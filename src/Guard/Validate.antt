-- ===== src/Guard/Validate.antt =====
-- `validateSchemaValue` of internal/provider/toolguard/toolguard.go and the functions that call it. The
-- recursion goes down the schema, so fuel stands for the schema's depth. `spent` is what takes the place of
-- a verdict where the fuel is used up, which no verdict of the code is.
pub mod Fuel
pub mod Enough
use realy_code.Common.{
  ℕ, zero, suc, String, Bool, true, false, not, ◌&&◌, ◌||◌, Option, none, some, List, [], ◌∷◌,
  str_eq, length, ◌==◌, if◌then◌else◌,
}
use realy_code.Json.{
  Float64, Value, Values, Fields, null, flag, float, int, str, array, object, no_fields, field,
  get_field, has_field, size, elements, as_object, as_array,
}
use realy_code.Guard.Schema.{
  Verdict, valid, invalid, panics, ◌then_check◌, test, Checks, json_equal, number_keyword, bound,
  validate_type, validate_string_constraints, validate_number_constraints,
}

-- `check` is `validateSchemaValue`
module _ (c : Checks) (check : Value → Value → Verdict) where
  abbrev any_equal : Value → List Value → Bool
  any_equal v [] = false
  any_equal v (x ∷ xs) = json_equal c v x || any_equal v xs

  -- `schema[key].([]any)`, where it is not empty
  abbrev check_enum : Value → Option (List Value) → Verdict
  check_enum v (some (x ∷ xs)) = test (any_equal v (x ∷ xs))
  check_enum v _ = valid

  abbrev check_const : Value → Option Value → Verdict
  check_const v none = valid
  check_const v (some x) = test (json_equal c v x)

  abbrev pub check_all : Value → List Value → Verdict
  check_all v [] = valid
  check_all v (s ∷ ss) = check v s then_check check_all v ss

  abbrev check_all_of : Value → Option (List Value) → Verdict
  check_all_of v none = valid
  check_all_of v (some ss) = check_all v ss

  abbrev pub check_any : Value → List Value → Verdict
  check_any v [] = invalid
  check_any v (s ∷ ss) =
      let later = check_any v ss in
      elim (check v s) [ valid ↦ valid | invalid ↦ later | panics ↦ panics ]

  abbrev check_any_of : Value → Option (List Value) → Verdict
  check_any_of v (some (s ∷ ss)) = check_any v (s ∷ ss)
  check_any_of v _ = valid

  -- the loop over `oneOf`: `matches` so far
  abbrev pub check_count : Value → ℕ → List Value → Verdict
  check_count v n [] = test (n == 1)
  check_count v n (s ∷ ss) =
      let more = check_count v (suc n) ss in
      let same = check_count v n ss in
      elim (check v s) [ valid ↦ more | invalid ↦ same | panics ↦ panics ]

  abbrev check_one_of : Value → Option (List Value) → Verdict
  check_one_of v (some (s ∷ ss)) = check_count v 0 (s ∷ ss)
  check_one_of v _ = valid

  abbrev opposite : Verdict → Verdict
  opposite valid = invalid
  opposite invalid = valid
  opposite panics = panics

  abbrev check_not : Value → Option Value → Verdict
  check_not v none = valid
  check_not v (some s) = opposite (check v s)

  abbrev check_type : Value → Option Value → Verdict
  check_type v none = valid
  check_type v (some t) = test (validate_type c v t)

  abbrev pub check_each : List Value → Value → Verdict
  check_each [] s = valid
  check_each (x ∷ xs) s = check x s then_check check_each xs s

  abbrev check_items : List Value → Option Value → Verdict
  check_items xs none = valid
  check_items xs (some s) = check_each xs s

  abbrev array_ok : Value → Fields → Verdict
  array_ok (array vs) schema =
      let xs = elements vs in
      test
        (bound c (number_keyword c schema "minItems") (λ m. not (c.less (c.of_nat (length xs)) m)))
      then_check test (
          bound c (number_keyword c schema "maxItems") (λ m. not (c.less m (c.of_nat (length xs)))))
      then_check check_items xs (get_field "items" schema)
  array_ok _ schema = invalid

  unfoldable pub validate_array_constraints : Value → Fields → Verdict
  validate_array_constraints v schema =
      if not (has_field "items" schema)
        && not (has_field "minItems" schema)
        && not (has_field "maxItems" schema)
      then valid
      else array_ok v schema

  -- the loop over `required`, where an item that is no string panics
  abbrev pub check_required : Fields → List Value → Verdict
  check_required obj [] = valid
  check_required obj (str name ∷ items) =
      let later = check_required obj items in if has_field name obj then later else invalid
  check_required obj (_ ∷ items) = panics

  abbrev check_required_of : Fields → Option (List Value) → Verdict
  check_required_of obj none = valid
  check_required_of obj (some items) = check_required obj items

  -- a property without a schema of its own, by `additionalProperties`
  abbrev check_additional : Value → Option Value → Verdict
  check_additional v none = valid
  check_additional v (some (flag b)) = test b
  check_additional v (some (object s)) = check v (object s)
  check_additional v (some _) = invalid

  abbrev check_property : Value → Option Value → Option Value → Verdict
  check_property v (some s) additional = check v s
  check_property v none additional = check_additional v additional

  -- the loop over the properties of `obj`
  abbrev pub check_properties : Fields → Fields → Option Value → Verdict
  check_properties no_fields props additional = valid
  check_properties (field name v rest) props additional =
      check_property v (get_field name props) additional
      then_check check_properties rest props additional

  abbrev check_properties_of : Fields → Option Value → Option Value → Verdict
  check_properties_of obj none additional = check_properties obj no_fields additional
  check_properties_of obj (some (object props)) additional = check_properties obj props additional
  check_properties_of obj (some _) additional = invalid

  unfoldable pub validate_object : Fields → Fields → Verdict
  validate_object obj schema =
      test (
        bound c (number_keyword c schema "minProperties")
          (λ m. not (c.less (c.of_nat (size obj)) m)))
      then_check test (
          bound c (number_keyword c schema "maxProperties")
            (λ m. not (c.less m (c.of_nat (size obj)))))
      then_check check_required_of obj (as_array (get_field "required" schema))
      then_check check_properties_of obj (get_field "properties" schema)
          (get_field "additionalProperties" schema)

  abbrev object_ok : Value → Fields → Verdict
  unfolding validate_object
  object_ok (object obj) schema = validate_object obj schema
  object_ok _ schema = invalid

  unfoldable pub validate_object_constraints : Value → Fields → Verdict
  unfolding object_ok
  validate_object_constraints v schema =
      if not (has_field "properties" schema)
        && not (has_field "required" schema)
        && not (has_field "additionalProperties" schema)
        && not (has_field "minProperties" schema)
        && not (has_field "maxProperties" schema)
      then valid
      else object_ok v schema

  unfoldable pub validate_value : Value → Fields → Verdict
  unfolding validate_object_constraints validate_array_constraints validate_string_constraints
      validate_number_constraints
  validate_value v schema =
      check_enum v (as_array (get_field "enum" schema))
      then_check check_const v (get_field "const" schema)
      then_check check_all_of v (as_array (get_field "allOf" schema))
      then_check check_any_of v (as_array (get_field "anyOf" schema))
      then_check check_one_of v (as_array (get_field "oneOf" schema))
      then_check check_not v (get_field "not" schema)
      then_check check_type v (get_field "type" schema)
      then_check test (validate_string_constraints c v schema)
      then_check test (validate_number_constraints c v schema)
      then_check validate_array_constraints v schema
      then_check validate_object_constraints v schema

module _ (c : Checks) (spent : Verdict) where
  unfoldable pub validate_schema_value : ℕ → Value → Value → Verdict
  unfolding validate_value
  validate_schema_value zero v s = spent
  validate_schema_value (suc n) v s = elim s [
    | flag b ↦ test b
    | object fs ↦ validate_value c (validate_schema_value n) v fs
    | _ ↦ invalid
  ]
