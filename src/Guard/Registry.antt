-- ===== src/Guard/Registry.antt =====
-- `Registry` of internal/provider/toolguard/toolguard.go: the tools of a request, and the check of a call of
-- one of them.
pub mod Accepted
use realy_code.Common.{
  ℕ, suc, String, Bool, true, false, not, ◌&&◌, Option, none, some, List, [], ◌∷◌, str_eq,
  if◌then◌else◌,
}
use realy_code.Config.{ToolValidationConfig}
use realy_code.Transcript.Message.{Slice, elems}
use realy_code.Transcript.ServerTools.{Tool, tools_for_upstream}
use realy_code.Json.{Value, Fields, null, object, no_fields}
use realy_code.Guard.Args.{Codec, Aliases, restore_complete_args}
use realy_code.Guard.Schema.{Verdict, valid, invalid, panics, Checks}
use realy_code.Guard.Validate.{validate_schema_value}
use realy_code.Guard.Validate.Fuel.{weight}
use realy_code.Guard.Repair.{Unicode, strip_empty_optional_args, Repaired, repair_object_args}

pub record Registry : Type 0 where
  pub tools : List (String × Tool)
  pub aliases : List (String × Aliases)
  pub policy : ToolValidationConfig

abbrev pub add_tools : List Tool → List (String × Tool) → List (String × Tool)
add_tools [] known = known
add_tools (t ∷ ts) known =
    add_tools ts (if not (str_eq t.name "") then (t.name, t) ∷ known else known)

-- `NewRegistry`, with a policy; a tool that comes later hides one of the same name
unfoldable pub new_registry :
    Slice Tool → Bool → List (String × Aliases) → ToolValidationConfig → Registry
new_registry tools passthrough aliases policy = record {
  tools = add_tools (elems (tools_for_upstream tools passthrough)) [];
  aliases = aliases;
  policy = policy;
}

abbrev pub find_tool_named : String → List (String × Tool) → Option Tool
find_tool_named k [] = none
find_tool_named k ((j, t) ∷ ts) =
    let later = find_tool_named k ts in if str_eq j k then some t else later

abbrev pub aliases_of : String → List (String × Aliases) → Aliases
aliases_of k [] = []
aliases_of k ((j, a) ∷ rest) = let later = aliases_of k rest in if str_eq j k then a else later

unfoldable pub has : Registry → String → Bool
has r name = elim (find_tool_named name r.tools) [ none ↦ false | some _ ↦ true ]

-- `args, true`, or `"", false`
pub data Checked : Type 0 where
  accepted : String → Checked
  refused crashed : Checked

-- a map from JSON: null gives nil, which reads as an empty map
abbrev pub schema_map : Option Value → Option Fields
schema_map (some (object fs)) = some fs
schema_map (some null) = some no_fields
schema_map _ = none

module _ (c : Checks) (u : Unicode) where
  abbrev pub verdict_by : Fields → Option Value → Verdict
  verdict_by obj none = invalid
  verdict_by obj (some s) = validate_schema_value c panics (suc (weight s)) (object obj) s

  -- `validAgainstSchema`; the fuel is enough by Validate/Enough
  unfoldable pub valid_against_schema : Fields → String → Verdict
  valid_against_schema obj raw = verdict_by obj (c.codec.unmarshal raw)

  abbrev pub written_or : String → Option String → String
  written_or restored none = restored
  written_or restored (some out) = out

  -- `json.Marshal(obj)`, else the text as it was restored
  abbrev pub accept : String → Fields → Checked
  accept restored obj = accepted (written_or restored (c.codec.marshal (object obj)))

  abbrev pub if_valid : Verdict → Checked → Checked → Checked
  if_valid valid yes_then no_then = yes_then
  if_valid invalid yes_then no_then = no_then
  if_valid panics yes_then no_then = crashed

  abbrev pub after_repair : String → String → Repaired → Checked
  after_repair restored raw r =
      if r.changed
      then if_valid (valid_against_schema r.obj raw) (accept restored r.obj) refused
      else refused

  abbrev pub try_repair : Registry → String → String → Fields → Checked
  try_repair r restored raw obj =
      if str_eq r.policy.malformed_arguments "repair"
      then after_repair restored raw (repair_object_args u obj (schema_map (c.codec.unmarshal raw)))
      else refused

  abbrev pub check_object : Registry → String → String → Fields → Checked
  check_object r raw restored obj =
      let stripped = strip_empty_optional_args obj (schema_map (c.codec.unmarshal raw)) in
      if str_eq raw ""
      then accept restored obj
      else if_valid (valid_against_schema stripped raw) (accept restored stripped)
          (try_repair r restored raw stripped)

  abbrev pub check_value : Registry → String → String → Option Value → Checked
  check_value r raw restored (some (object obj)) = check_object r raw restored obj
  check_value r raw restored _ = refused

  abbrev pub check_tool : Registry → String → String → Option Tool → Checked
  check_tool r name args none = refused
  check_tool r name args (some tool) =
      let restored =
        restore_complete_args c.codec (if str_eq args "" then "{}" else args)
          (aliases_of name r.aliases) in
      check_value r tool.input_schema restored (c.codec.unmarshal restored)

  -- `Validate`; `none` is a nil registry
  unfoldable pub validate : Option Registry → String → String → Checked
  unfolding valid_against_schema
  validate none name args = refused
  validate (some r) name args = check_tool r name args (find_tool_named name r.tools)
