-- ===== src/Guard/Args.antt =====
-- internal/provider/toolargs/toolargs.go: a property called "type" goes upstream under another name, its
-- alias, and the arguments that come back get their own name again.
pub mod Fresh
pub mod Restoring
use realy_code.Common.{
  ℕ, zero, suc, ◌+◌, String, Bool, true, false, not, Option, none, some, List, [], ◌∷◌, ◌++◌, map,
  str_eq, length, concat, if◌then◌else◌,
}
use realy_code.Json.{
  Value, Values, Fields, null, flag, float, int, str, array, object, nil, item, no_fields, field,
  get_field, set_field, delete_field, has_field, size, as_object, look,
}

-- `encoding/json`, and `fmt.Sprintf("%d")`
pub record Codec : Type 0 where
  pub marshal : Value → Option String
  pub unmarshal : String → Option Value
  pub decimal : ℕ → String

abbrev pub Aliases : Type 0
Aliases = List (String × String)

abbrev pub find_alias : String → Aliases → Option String
find_alias k [] = none
find_alias k ((j, name) ∷ rest) =
    let later = find_alias k rest in if str_eq j k then some name else later

module _ (j : Codec) where
  abbrev pub candidate : ℕ → String
  candidate i = concat ("_fcc_arg_type_" ∷ j.decimal i ∷ [])

  -- `for i := 2; ; i++`, on fuel
  unfoldable pub search_alias : ℕ → ℕ → Fields → Option String
  search_alias zero i props = none
  search_alias (suc n) i props =
      let later = search_alias n (suc i) props in
      if has_field (candidate i) props then later else some (candidate i)

  -- the alias; one round more than there are properties is fuel enough
  unfoldable pub alias_for : Fields → Option String
  unfolding search_alias
  alias_for props =
      if has_field "_fcc_arg_type" props
      then search_alias (suc (size props)) 2 props
      else some "_fcc_arg_type"

-- `required[i] = alias` wherever `item == name`
abbrev pub rename_items : String → String → Values → Values
rename_items name alias nil = nil
rename_items name alias (item (str s) vs) =
    item (str (if str_eq s name then alias else s)) (rename_items name alias vs)
rename_items name alias (item v vs) = item v (rename_items name alias vs)

abbrev pub rename_required : String → Option Value → Fields → Fields
rename_required alias (some (array vs)) schema =
    set_field "required" (array (rename_items "type" alias vs)) schema
rename_required alias _ schema = schema

-- the schema with its property "type" under the alias
abbrev pub renamed_schema : Fields → Fields → Value → String → Fields
renamed_schema schema props value alias =
    rename_required alias (get_field "required" schema)
      (set_field "properties" (object (delete_field "type" (set_field alias value props))) schema)

pub record Sanitized : Type 0 where
  pub raw : String
  pub aliases : Aliases

module _ (j : Codec) (raw : String) where
  abbrev pub unchanged : Sanitized
  unchanged = record { raw = raw; aliases = [] }

  abbrev pub marshalled : String → Option String → Sanitized
  marshalled alias none = unchanged
  marshalled alias (some out) = record { raw = out; aliases = (alias, "type") ∷ [] }

  abbrev pub with_alias : Fields → Fields → Option Value → Option String → Sanitized
  with_alias schema props none alias = unchanged
  with_alias schema props (some value) none = unchanged
  with_alias schema props (some value) (some alias) =
      marshalled alias (j.marshal (object (renamed_schema schema props value alias)))

  abbrev pub sanitize_props : Fields → Option Fields → Sanitized
  sanitize_props schema none = unchanged
  sanitize_props schema (some props) =
      with_alias schema props (get_field "type" props) (alias_for j props)

  abbrev pub sanitize_schema : Option Fields → Sanitized
  sanitize_schema none = unchanged
  sanitize_schema (some schema) = sanitize_props schema (as_object (get_field "properties" schema))

  -- `SanitizeParameters`
  unfoldable pub sanitize_parameters : Sanitized
  unfolding alias_for
  sanitize_parameters =
      if str_eq raw "" then unchanged else sanitize_schema (as_object (j.unmarshal raw))

abbrev pub original : String → Option String → String
original key none = key
original key (some name) = name

-- `restoreAliasValue`; the map is filled in the order of the keys
mutual
  pub restore_alias_value : Aliases → Value → Value
  restore_alias_value aliases (array vs) = array (restore_values aliases vs)
  restore_alias_value aliases (object fs) = object (restore_fields aliases fs no_fields)
  restore_alias_value aliases null = null
  restore_alias_value aliases (flag b) = flag b
  restore_alias_value aliases (float f) = float f
  restore_alias_value aliases (int i) = int i
  restore_alias_value aliases (str s) = str s

  pub restore_values : Aliases → Values → Values
  restore_values aliases nil = nil
  restore_values aliases (item v vs) =
      item (restore_alias_value aliases v) (restore_values aliases vs)

  pub restore_fields : Aliases → Fields → Fields → Fields
  restore_fields aliases no_fields out = out
  restore_fields aliases (field key v rest) out =
      restore_fields aliases rest
        (set_field (original key (find_alias key aliases)) (restore_alias_value aliases v) out)

pub record Restored : Type 0 where
  pub args : String
  pub ok : Bool
  -- `buffers[index]`
  pub buffer : String

abbrev pub written : String → Option String → Restored
written args none = record { args = args; ok = true; buffer = "" }
written args (some out) = record { args = out; ok = true; buffer = "" }

module _ (j : Codec) where
  abbrev pub parsed_args : String → String → Aliases → Option Value → Restored
  parsed_args args buffered aliases none = record { args = ""; ok = false; buffer = buffered }
  parsed_args args buffered aliases (some v) =
      written args (j.marshal (restore_alias_value aliases v))

  -- `RestoreArgs`; `aliases` are those of the tool, and `buffer` is what is kept for the index
  unfoldable pub restore_args : String → Aliases → String → Restored
  unfolding restore_alias_value
  restore_args args [] buffer = record { args = args; ok = true; buffer = buffer }
  restore_args args (a ∷ more) buffer =
      let buffered = concat (buffer ∷ args ∷ []) in
      parsed_args args buffered (a ∷ more) (j.unmarshal buffered)

  abbrev pub restored_or : String → Restored → String
  restored_or args r = if not r.ok then args else if str_eq r.args "" then args else r.args

  unfoldable pub restore_complete_args : String → Aliases → String
  unfolding restore_args
  restore_complete_args args aliases = restored_or args (restore_args args aliases "")
