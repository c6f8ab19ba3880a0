-- ===== src/Examples/Guards.antt =====
-- Tool calls against a small schema.
use Prim.Native.String.{len, ◌++◌}
use text.Mathlib.TextPositions.{len-append}
use realy_code.Common.{
  ℕ, zero, suc, String, pos, true, false, none, some, [], ◌∷◌, ◌≡◌, refl, ap, arith, str_eq,
}
use realy_code.Transcript.ServerTools.{Tool}
use realy_code.Json.{
  Fields, null, str, array, object, nil, item, no_fields, field, get_field, has_field,
}
use realy_code.Guard.Args.{Codec, alias_for, restore_fields, restore_complete_args}
use realy_code.Guard.Args.Fresh.{IsFree, alias_for-IsFree}
use realy_code.Guard.Args.Restoring.{renaming, sent_as, restored_or, restored_under_own_names}
use realy_code.Guard.Schema.{valid, invalid, Checks, validate_type}
use realy_code.Guard.Validate.{validate_schema_value}
use realy_code.Guard.Validate.Enough.{enough_fuel}
use realy_code.Guard.Validate.Fuel.{weight}
use realy_code.Guard.Repair.{Unicode, normalize_key, strip_empty_optional_args, repair_object_args}
use realy_code.Guard.Repair.Exact.{unless_blank, strip_exact, repaired_known}
use realy_code.Guard.Registry.{Registry, accepted, find_tool_named, validate, valid_against_schema}
use realy_code.Guard.Registry.Accepted.{IsChecked, own_args, validate_accepts}

-- {"type": "object", "properties": {"path": {"type": "string"}}, "required": ["path"]}
abbrev path_props : Fields
path_props = field "path" (object (field "type" (str "string") no_fields)) no_fields

abbrev path_schema : Fields
path_schema = field "type" (str "object") (
    field "properties" (object path_props)
      (field "required" (array (item (str "path") nil)) no_fields))

-- {"file_path": "a.go", "limit": ""}
abbrev call_args : Fields
call_args = field "file_path" (str "a.go") (field "limit" (str "") no_fields)

pub unary : ℕ → String
unary zero = ""
unary (suc n) = "1" ++ unary n

len-unary : (n : ℕ) → len (unary n) ≡ n
unfolding unary
len-unary zero = refl
len-unary (suc n) = omega (arith, len-append "1" (unary n), len-unary n)

unary_once : (a b : ℕ) → unary a ≡ unary b → a ≡ b
unary_once a b e = omega (arith, len-unary a, len-unary b, ap len e)

-- it reads the schema, and any other text as the arguments
abbrev pub codec : Codec
codec = record {
  marshal = λ v. some "{}";
  unmarshal =
      λ s. some (object (elim (str_eq s "schema") [ true ↦ path_schema | false ↦ call_args ]));
  decimal = unary;
}

abbrev checks : Checks
checks = record {
  less = λ a b. false;
  of_nat = λ n. record { whole = pos n; digits = "" };
  is_integer = λ f. true;
  is_multiple = λ a b. true;
  runes = len;
  matches = λ p s. none;
  codec = codec;
}

abbrev ascii : Unicode
ascii = record { lower = λ s. s; is_letter_or_digit = λ c. true }

abbrev pub registry : Registry
registry = record {
  tools =
      (
        "Read",
        record {
          typ = "";
          name = "Read";
          description = "";
          input_schema = "schema";
          strict = none;
        },
      )
      ∷ [];
  aliases = [];
  policy = record {
    unknown_tools = "drop";
    invalid_known_tools = "warn";
    malformed_arguments = "repair";
  };
}

call_accepted : validate checks ascii (some registry) "Read" "args" ≡ accepted "{}"
unfolding validate restore_complete_args strip_empty_optional_args valid_against_schema
    validate_schema_value repair_object_args normalize_key weight validate_type
call_accepted = refl

validate_accepts_example :
    (tool : Tool) × (find_tool_named "Read" registry.tools ≡ some tool)
    × IsChecked checks ascii tool.input_schema (own_args checks ascii registry "Read" "args") "{}"
validate_accepts_example = validate_accepts checks ascii registry "Read" "args" "{}" call_accepted

enough_fuel_example :
    validate_schema_value checks valid 9 (object call_args) (object path_schema)
    ≡ validate_schema_value checks invalid 12 (object call_args) (object path_schema)
unfolding weight
enough_fuel_example =
    enough_fuel checks valid invalid 9 12 (object call_args) (object path_schema) (omega arith)
      (omega arith)

alias_for-IsFree_example :
    IsFree
      (field "type" null (field "_fcc_arg_type" null no_fields))
      (alias_for codec (field "type" null (field "_fcc_arg_type" null no_fields)))
alias_for-IsFree_example =
    alias_for-IsFree codec (field "type" null (field "_fcc_arg_type" null no_fields)) unary_once

abbrev sent : Fields
sent = field "_fcc_arg_type" (str "x") (field "path" (str "a.go") no_fields)

restored_under_own_names_example :
    get_field "type" (restore_fields (renaming "_fcc_arg_type") sent no_fields)
    ≡ restored_or (renaming "_fcc_arg_type") (get_field (sent_as "_fcc_arg_type" "type") sent) none
restored_under_own_names_example =
    restored_under_own_names "_fcc_arg_type" "type" sent refl refl refl (refl, (refl, tt))

strip_exact_example :
    get_field "limit" (strip_empty_optional_args call_args (some path_schema))
    ≡ unless_blank false (some (str ""))
strip_exact_example = strip_exact "limit" call_args path_schema (refl, (refl, tt))

repaired_known_example : has_field "path" path_props ≡ true
unfolding repair_object_args normalize_key strip_empty_optional_args
repaired_known_example = repaired_known ascii "path" call_args path_schema path_props refl refl refl
