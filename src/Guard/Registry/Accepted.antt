-- ===== src/Guard/Registry/Accepted.antt =====
-- What a tool call satisfies that `Validate` accepts.
use realy_code.Common.{
  String, true, Option, none, some, ◌≡◌, ◌⊎◌, inl, inr, refl, arith, str_eq, if◌then◌else◌,
  if_cases,
}
use realy_code.Transcript.ServerTools.{Tool}
use realy_code.Json.{Value, Fields, null, flag, float, int, str, array, object}
use realy_code.Guard.Args.{restore_complete_args}
use realy_code.Guard.Schema.{Verdict, valid, invalid, panics, Checks}
use realy_code.Guard.Repair.{Unicode, strip_empty_optional_args, repair_object_args}
use realy_code.Guard.Registry.{
  Registry, Checked, accepted, refused, find_tool_named, aliases_of, schema_map,
  valid_against_schema, written_or, accept, if_valid, try_repair, check_object, check_value,
  check_tool, validate,
}

module _ (c : Checks) (u : Unicode) where
  -- `out` is what is written of an object that the schema allows, if there is one
  abbrev pub IsChecked : String → String → String → Type 0
  IsChecked raw restored out =
      (obj : Fields) × (out ≡ written_or c u restored (c.codec.marshal (object obj)))
      × ((str_eq raw "" ≡ true) ⊎ (valid_against_schema c u obj raw ≡ valid))

  abbrev Sound : String → String → Checked → Type 0
  Sound raw restored r = (out : String) → r ≡ accepted out → IsChecked raw restored out

  if_valid-Sound :
      (raw restored : String) (obj : Fields) (v : Verdict) (other : Checked)
      → valid_against_schema c u obj raw ≡ v
      → Sound raw restored other
      → Sound raw restored (if_valid c u v (accept c u restored obj) other)
  if_valid-Sound raw restored obj valid other e h out q = (obj, ground arith, inr e)
  if_valid-Sound raw restored obj invalid other e h out q = h out q
  if_valid-Sound raw restored obj panics other e h out q = absurd (cc)

  refused-Sound : (raw restored : String) → Sound raw restored refused
  refused-Sound raw restored out q = absurd (cc)

  try_repair-Sound :
      (r : Registry) (raw restored : String) (obj : Fields)
      → Sound raw restored (try_repair c u r restored raw obj)
  try_repair-Sound r raw restored obj =
      let repaired = repair_object_args u obj (schema_map (c.codec.unmarshal raw)) in
      if_cases (Sound raw restored) (str_eq r.policy.malformed_arguments "repair")
        (λ _.
          if_cases (Sound raw restored) repaired.changed
            (λ _.
              if_valid-Sound raw restored repaired.obj _ refused refl (refused-Sound raw restored))
            (λ _. refused-Sound raw restored))
        (λ _. refused-Sound raw restored)

  check_object-Sound :
      (r : Registry) (raw restored : String) (obj : Fields)
      → Sound raw restored (check_object c u r raw restored obj)
  check_object-Sound r raw restored obj =
      let stripped = strip_empty_optional_args obj (schema_map (c.codec.unmarshal raw)) in
      if_cases (Sound raw restored) (str_eq raw "") (λ bare out q. (obj, ground arith, inl bare))
        (λ _.
          if_valid-Sound raw restored stripped _ (try_repair c u r restored raw stripped) refl
            (try_repair-Sound r raw restored stripped))

  check_value-Sound :
      (r : Registry) (raw restored : String) (o : Option Value)
      → Sound raw restored (check_value c u r raw restored o)
  check_value-Sound r raw restored none = refused-Sound raw restored
  check_value-Sound r raw restored (some (object obj)) = check_object-Sound r raw restored obj
  check_value-Sound r raw restored (some null) = refused-Sound raw restored
  check_value-Sound r raw restored (some (flag b)) = refused-Sound raw restored
  check_value-Sound r raw restored (some (float f)) = refused-Sound raw restored
  check_value-Sound r raw restored (some (int i)) = refused-Sound raw restored
  check_value-Sound r raw restored (some (str s)) = refused-Sound raw restored
  check_value-Sound r raw restored (some (array vs)) = refused-Sound raw restored

  -- the arguments under their own names, which `Validate` reads
  abbrev pub own_args : Registry → String → String → String
  own_args r name args =
      restore_complete_args c.codec (if str_eq args "" then "{}" else args)
        (aliases_of name r.aliases)

  check_tool-Sound :
      (r : Registry) (name args out : String) (o : Option Tool)
      → check_tool c u r name args o ≡ accepted out
      → (tool : Tool) × (o ≡ some tool) × IsChecked tool.input_schema (own_args r name args) out
  check_tool-Sound r name args out none q = absurd (cc)
  check_tool-Sound r name args out (some tool) q =
      (tool, refl, check_value-Sound r tool.input_schema (own_args r name args) _ out q)

  -- Where `Validate` accepts a call, the tool is one of the registry, and the arguments that it returns
  -- are those of an object that the tool's schema allows, whether it was repaired or not; a tool
  -- without a schema allows any object.
  pub validate_accepts :
      (r : Registry) (name args out : String)
      → validate c u (some r) name args ≡ accepted out
      → (tool : Tool) × (find_tool_named name r.tools ≡ some tool)
        × IsChecked tool.input_schema (own_args r name args) out
  unfolding validate
  validate_accepts r name args out q =
      check_tool-Sound r name args out (find_tool_named name r.tools) q
