-- ===== src/Guard/Validate/Enough.antt =====
-- `validateSchemaValue` ends: fuel above the weight of the schema is never used up.
use realy_code.Common.{ℕ, zero, suc, ◌<◌, some, ◌≡◌, refl, ap, arith}
use realy_code.Json.{
  Value, Fields, null, flag, float, int, str, array, object, no_fields, get_field, as_array,
}
use realy_code.Guard.Schema.{Verdict, Checks}
use realy_code.Guard.Validate.{
  check_all_of, check_any_of, check_one_of, check_not, opposite, validate_array_constraints,
  check_properties_of, object_ok, validate_object_constraints, validate_value,
  validate_schema_value,
}
use realy_code.Guard.Validate.Fuel.{
  weight, weight_fields, Agree, behind_lighter, at_key, check_all_of_same, check_any_of_same,
  check_one_of_same, array_ok_same, check_properties_same,
}

module _ (c : Checks) (f g : Value → Value → Verdict) (n : ℕ) (same : Agree f g n) where
  check_properties_of_same :
      (obj schema : Fields) (props : Value)
      → weight_fields schema < n
      → weight props < n
      → check_properties_of c f obj (some props) (get_field "additionalProperties" schema)
        ≡ check_properties_of c g obj (some props) (get_field "additionalProperties" schema)
  unfolding weight
  check_properties_of_same obj schema (object props) h w =
      check_properties_same c f g n same obj props (get_field "additionalProperties" schema)
        (unfold weight in omega (arith, w))
        (behind_lighter c f g n same "additionalProperties" schema h)
  check_properties_of_same obj schema null h w = refl
  check_properties_of_same obj schema (flag b) h w = refl
  check_properties_of_same obj schema (float x) h w = refl
  check_properties_of_same obj schema (int i) h w = refl
  check_properties_of_same obj schema (str t) h w = refl
  check_properties_of_same obj schema (array vs) h w = refl

  object_ok_same :
      (v : Value) (schema : Fields)
      → weight_fields schema < n
      → object_ok c f v schema ≡ object_ok c g v schema
  unfolding object_ok
  object_ok_same (object obj) schema h = cc (
      at_key c f g n same "properties" schema
        (λ o. check_properties_of c f obj o (get_field "additionalProperties" schema))
        (λ o. check_properties_of c g obj o (get_field "additionalProperties" schema))
        (check_properties_same c f g n same obj no_fields (get_field "additionalProperties" schema)
          (unfold weight in omega (arith, h))
          (behind_lighter c f g n same "additionalProperties" schema h))
        (λ s w. check_properties_of_same obj schema s h w) h)
  object_ok_same null schema h = refl
  object_ok_same (flag b) schema h = refl
  object_ok_same (float x) schema h = refl
  object_ok_same (int i) schema h = refl
  object_ok_same (str t) schema h = refl
  object_ok_same (array vs) schema h = refl

  validate_object_constraints_same :
      (v : Value) (schema : Fields)
      → weight_fields schema < n
      → validate_object_constraints c f v schema ≡ validate_object_constraints c g v schema
  unfolding validate_object_constraints
  validate_object_constraints_same v schema h = cc (object_ok_same v schema h)

  validate_array_constraints_same :
      (v : Value) (schema : Fields)
      → weight_fields schema < n
      → validate_array_constraints c f v schema ≡ validate_array_constraints c g v schema
  unfolding validate_array_constraints
  validate_array_constraints_same v schema h = cc (array_ok_same c f g n same v schema h)

  validate_value_same :
      (v : Value) (schema : Fields)
      → weight_fields schema < n
      → validate_value c f v schema ≡ validate_value c g v schema
  unfolding validate_value
  validate_value_same v schema h = cc (
    at_key c f g n same "allOf" schema (λ o. check_all_of c f v (as_array o))
        (λ o. check_all_of c g v (as_array o)) refl (λ s w. check_all_of_same c f g n same v s w) h,
    at_key c f g n same "anyOf" schema (λ o. check_any_of c f v (as_array o))
        (λ o. check_any_of c g v (as_array o)) refl (λ s w. check_any_of_same c f g n same v s w) h,
    at_key c f g n same "oneOf" schema (λ o. check_one_of c f v (as_array o))
        (λ o. check_one_of c g v (as_array o)) refl (λ s w. check_one_of_same c f g n same v s w) h,
    at_key c f g n same "not" schema (check_not c f v) (check_not c g v) refl
        (λ s w. ap (opposite c f) (same v s w)) h,
    validate_array_constraints_same v schema h,
    validate_object_constraints_same v schema h,
  )

-- Fuel above the weight of a schema, the number of its values and lists and objects, is enough: whatever
-- stands for the verdict where fuel is used up, and however much more fuel there is, the verdict is the same.
-- So the recursion down the schema ends, for every value and schema, before the fuel does.
pub enough_fuel :
    (c : Checks) (spent spent' : Verdict) (n m : ℕ) (v s : Value)
    → weight s < n
    → weight s < m
    → validate_schema_value c spent n v s ≡ validate_schema_value c spent' m v s
unfolding validate_schema_value weight
enough_fuel c spent spent' zero m v s h k = absurd (omega (arith, h))
enough_fuel c spent spent' (suc n) zero v s h k = absurd (omega (arith, k))
enough_fuel c spent spent' (suc n) (suc m) v (object fs) h k =
    validate_value_same c (validate_schema_value c spent n) (validate_schema_value c spent' m)
      (suc (weight_fields fs))
      (λ w t lighter.
        enough_fuel c spent spent' n m w t (omega (arith, h, lighter)) (omega (arith, k, lighter)))
      v fs (omega arith)
enough_fuel c spent spent' (suc n) (suc m) v null h k = refl
enough_fuel c spent spent' (suc n) (suc m) v (flag b) h k = refl
enough_fuel c spent spent' (suc n) (suc m) v (float x) h k = refl
enough_fuel c spent spent' (suc n) (suc m) v (int i) h k = refl
enough_fuel c spent spent' (suc n) (suc m) v (str t) h k = refl
enough_fuel c spent spent' (suc n) (suc m) v (array vs) h k = refl
