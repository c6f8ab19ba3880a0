-- ===== src/Guard/Repair/Exact.antt =====
-- What the repairs of toolguard.go leave of the arguments.
use realy_code.Common.{
  String, Bool, true, not, ◌&&◌, Option, none, some, List, ◌≡◌, refl, sym, ap, ◌∙◌, arith,
  str_eq_iff, ◌==◌, if◌then◌else◌, if_cases,
}
use realy_code.Json.{
  Value, Fields, no_fields, field, get_field, has_field, size, as_object, as_array,
}
use realy_code.Guard.Args.Restoring.{IsMap}
use realy_code.Guard.Repair.{
  Unicode, Renaming, Repaired, names, is_blank, strip_blank, required_of, strip_empty_optional_args,
  keep_known, repair_renamed, repair_by, repair_object_args,
}

-- a blank value goes, unless its name is required
abbrev pub unless_blank : Bool → Option Value → Option Value
unless_blank is_required none = none
unless_blank is_required (some v) = if not is_required && is_blank v then none else some v

strip_blank-get :
    (k : String) (required : List String) (obj : Fields)
    → IsMap obj
    → get_field k (strip_blank required obj) ≡ unless_blank (names k required) (get_field k obj)
strip_blank-get k required no_fields m = refl
strip_blank-get k required (field name v rest) (m, ms) =
    ground (arith, strip_blank-get k required rest ms, str_eq_iff name k)

-- `stripEmptyOptionalArgs` deletes exactly the properties that are "" or null and that the schema does not
-- require.
pub strip_exact :
    (k : String) (obj schema : Fields)
    → IsMap obj
    → get_field k (strip_empty_optional_args obj (some schema))
      ≡ unless_blank
          (names k (required_of (as_array (get_field "required" schema))))
          (get_field k obj)
unfolding strip_empty_optional_args
strip_exact k obj schema m =
    strip_blank-get k (required_of (as_array (get_field "required" schema))) obj m

strip_blank-has :
    (k : String) (required : List String) (obj : Fields)
    → has_field k (strip_blank required obj) ≡ true
    → has_field k obj ≡ true
strip_blank-has k required no_fields h = h
strip_blank-has k required (field name v rest) h = ground (arith, strip_blank-has k required rest)

some_inj : {a b : Fields} → some a ≡ some b → a ≡ b
some_inj e = cc

module _ (u : Unicode) where
  keep_known-has :
      (k : String) (obj props : Fields)
      → has_field k (keep_known u obj props) ≡ true
      → has_field k props ≡ true
  keep_known-has k no_fields props h = absurd (cc)
  keep_known-has k (field name v rest) props h =
      ground (arith, keep_known-has k rest props, str_eq_iff name k)

  repair_renamed-known :
      (k : String) (r : Renaming) (props schema : Fields)
      → (repair_renamed u r props (some schema)).changed ≡ true
      → has_field k (repair_renamed u r props (some schema)).obj ≡ true
      → has_field k props ≡ true
  unfolding strip_empty_optional_args
  repair_renamed-known k r props schema =
      if_cases
        (λ (q : Repaired). q.changed ≡ true → has_field k q.obj ≡ true → has_field k props ≡ true)
        r.renamed
        (λ _ changed held. keep_known-has k r.obj props (
          strip_blank-has k (required_of (as_array (get_field "required" schema)))
            (keep_known u r.obj props) held))
        (λ _ changed held. absurd (cc))

  repair_by-known :
      (k : String) (obj schema : Fields) (props : Option Fields) (q : Fields)
      → props ≡ some q
      → (repair_by u obj (some schema) props).changed ≡ true
      → has_field k (repair_by u obj (some schema) props).obj ≡ true
      → has_field k q ≡ true
  repair_by-known k obj schema none q e = absurd (cc)
  repair_by-known k obj schema (some props) q e =
      if_cases
        (λ (r : Repaired). r.changed ≡ true → has_field k r.obj ≡ true → has_field k q ≡ true)
        (size props == 0) (λ _ changed held. absurd (cc))
        (λ _ changed held.
          sym (ap (has_field k) (some_inj e)) ∙ repair_renamed-known k _ props schema changed held)

  -- A repair that changes the arguments leaves only properties of the schema.
  pub repaired_known :
      (k : String) (obj schema props : Fields)
      → as_object (get_field "properties" schema) ≡ some props
      → (repair_object_args u obj (some schema)).changed ≡ true
      → has_field k (repair_object_args u obj (some schema)).obj ≡ true
      → has_field k props ≡ true
  unfolding repair_object_args
  repaired_known k obj schema props e changed held =
      repair_by-known k obj schema (as_object (get_field "properties" schema)) props e changed held
