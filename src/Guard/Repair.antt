-- ===== src/Guard/Repair.antt =====
-- The repairs of internal/provider/toolguard/toolguard.go on the arguments of a tool call. A map is changed
-- in place; the loops over it visit its keys in their order here, which is any order in Go.
pub mod Exact
use Prim.Native.Char.{Char}
use text.Mathlib.Text.{find?}
use realy_code.Common.{
  String, Bool, true, false, not, ◌&&◌, ◌||◌, Option, none, some, List, [], ◌∷◌, str_eq, ◌==◌,
  if◌then◌else◌,
}
use realy_code.Json.{
  Value, Fields, null, str, object, no_fields, field, get_field, set_field, delete_field, has_field,
  size, as_object, as_array,
}

-- the string items of `required`
abbrev required_names : List Value → List String
required_names [] = []
required_names (str s ∷ vs) = s ∷ required_names vs
required_names (_ ∷ vs) = required_names vs

abbrev pub required_of : Option (List Value) → List String
required_of none = []
required_of (some vs) = required_names vs

abbrev pub names : String → List String → Bool
names k [] = false
names k (j ∷ js) = str_eq j k || names k js

abbrev pub is_blank : Value → Bool
is_blank (str s) = str_eq s ""
is_blank null = true
is_blank _ = false

-- the loop of `stripEmptyOptionalArgs`
abbrev pub strip_blank : List String → Fields → Fields
strip_blank required no_fields = no_fields
strip_blank required (field name v rest) =
    let kept = strip_blank required rest in
    if not (names name required) && is_blank v then kept else field name v kept

abbrev pub strip_by : Fields → Option Fields → Fields
strip_by obj none = obj
strip_by obj (some schema) = strip_blank (required_of (as_array (get_field "required" schema))) obj

-- `stripEmptyOptionalArgs`; `schema` is the schema, if it is an object
unfoldable pub strip_empty_optional_args : Fields → Option Fields → Fields
strip_empty_optional_args obj schema = strip_by obj schema

abbrev contains : String → String → Bool
contains s t = elim (find? s t) [ none ↦ false | some _ ↦ true ]

-- `strings.ToLower`, and what `unicode` says of a letter or a digit
pub record Unicode : Type 0 where
  pub lower : String → String
  pub is_letter_or_digit : Char → Bool

abbrev keep_letters : (Char → Bool) → String → String
keep_letters p String.[] = String.[]
keep_letters p (String.◌∷◌ c s) =
    let rest = keep_letters p s in if p c then String.◌∷◌ c rest else rest

pub record Renaming : Type 0 where
  pub obj : Fields
  pub renamed : Bool

pub record Repaired : Type 0 where
  pub obj : Fields
  pub changed : Bool

unfoldable pub normalize_key : Unicode → String → String
normalize_key u s = keep_letters u.is_letter_or_digit (u.lower s)

module _ (u : Unicode) where
  abbrev like : String → String → Bool
  like want got = str_eq got want || contains want got || contains got want

  -- the keys of `obj` that are no properties and like `prop`
  abbrev pub matching_keys : String → Fields → Fields → List String
  matching_keys prop no_fields props = []
  matching_keys prop (field key v rest) props =
      let more = matching_keys prop rest props in
      if has_field key props
      then more
      else if like (normalize_key u prop) (normalize_key u key)
      then key ∷ more
      else more

  abbrev the_only : List String → Option String
  the_only (k ∷ []) = some k
  the_only _ = none

  unfoldable pub repair_key_candidate : String → Fields → Fields → Option String
  repair_key_candidate prop obj props = the_only (matching_keys prop obj props)

  abbrev pub moved : String → String → Option Value → Fields → Fields
  moved prop key none obj = obj
  moved prop key (some v) obj = delete_field key (set_field prop v obj)

  abbrev pub rename_to : Renaming → String → Option String → Renaming
  rename_to r prop none = r
  rename_to r prop (some key) = record {
    obj = moved prop key (get_field key r.obj) r.obj;
    renamed = true;
  }

  -- the loop over the properties that `obj` lacks
  unfoldable pub rename_keys : Renaming → Fields → Fields → Renaming
  unfolding repair_key_candidate
  rename_keys r no_fields props = r
  rename_keys r (field prop s rest) props =
      let go_on = rename_keys r rest props in
      let renamed =
        rename_keys (rename_to r prop (repair_key_candidate prop r.obj props)) rest props in
      if has_field prop r.obj then go_on else renamed

  -- the keys that are properties
  abbrev pub keep_known : Fields → Fields → Fields
  keep_known no_fields props = no_fields
  keep_known (field key v rest) props =
      let kept = keep_known rest props in if has_field key props then field key v kept else kept

  abbrev pub repair_renamed : Renaming → Fields → Option Fields → Repaired
  repair_renamed r props schema =
      if r.renamed
      then record {
        obj = strip_empty_optional_args (keep_known r.obj props) schema;
        changed = true;
      }
      else record { obj = r.obj; changed = false }

  abbrev pub repair_by : Fields → Option Fields → Option Fields → Repaired
  repair_by obj schema none = record { obj = obj; changed = false }
  repair_by obj schema (some props) =
      if (size props) == 0
      then record { obj = obj; changed = false }
      else repair_renamed (rename_keys (record { obj = obj; renamed = false }) props props) props
          schema

  -- `repairObjectArgs`
  unfoldable pub repair_object_args : Fields → Option Fields → Repaired
  unfolding rename_keys strip_empty_optional_args
  repair_object_args obj none = record { obj = obj; changed = false }
  repair_object_args obj (some schema) =
      repair_by obj (some schema) (as_object (get_field "properties" schema))
