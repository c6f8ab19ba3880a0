-- ===== src/Guard/Args/Restoring.antt =====
-- The arguments that come back get the property "type" again.
use realy_code.Common.{
  String, Bool, true, false, Option, none, some, [], ◌∷◌, ◌≡◌, refl, sym, ap, ◌∙◌, arith, str_eq,
  str_eq_iff, if◌then◌else◌,
}
use realy_code.Json.{Value, Fields, no_fields, field, get_field, set_field, get_field-set_field_any}
use realy_code.Guard.Args.{Aliases, find_alias, original, restore_alias_value, restore_fields}

-- no key stands twice
abbrev pub IsMap : Fields → Type 0
IsMap no_fields = Unit
IsMap (field k v rest) = (get_field k rest ≡ none) × IsMap rest

abbrev pub renaming : String → Aliases
renaming alias = (alias, "type") ∷ []

-- the key under which the upstream sends a property
abbrev pub sent_as : String → String → String
sent_as alias k = if str_eq k "type" then alias else k

abbrev pub restored_or : Aliases → Option Value → Option Value → Option Value
restored_or aliases none o = o
restored_or aliases (some v) o = some (restore_alias_value aliases v)

type_before :
    (i : String) (v : Value) (rest : Fields)
    → get_field "type" (field i v rest) ≡ none
    → str_eq i "type" ≡ false
type_before i v rest h = ground arith

-- a key gets the name `k` exactly if it is what `k` was sent as
name_sent :
    (alias k i : String)
    → str_eq alias "type" ≡ false
    → str_eq k alias ≡ false
    → str_eq i "type" ≡ false
    → str_eq (original i (find_alias i (renaming alias))) k ≡ str_eq i (sent_as alias k)
name_sent alias k i a b c = ground (
  arith,
  str_eq_iff alias i,
  str_eq_iff i alias,
  str_eq_iff k alias,
  str_eq_iff i k,
  str_eq_iff "type" k,
  str_eq_iff k "type",
  str_eq_iff i "type",
)

one_turn :
    (aliases : Aliases) (v : Value) (t u : Bool) (later before : Option Value)
    → t ≡ u
    → (u ≡ true → later ≡ none)
    → restored_or aliases later (if t then some (restore_alias_value aliases v) else before)
      ≡ restored_or aliases (if u then some v else later) before
one_turn aliases v true true later before e none_later = rw (none_later refl)
one_turn aliases v false false later before e none_later = refl
one_turn aliases v true false later before e none_later = absurd (cc)
one_turn aliases v false true later before e none_later = absurd (cc)

type_behind :
    (i : String) (v : Value) (rest : Fields)
    → get_field "type" (field i v rest) ≡ none
    → get_field "type" rest ≡ none
type_behind i v rest h = ground arith

get-restore_fields :
    (alias k : String) (fs out : Fields)
    → str_eq alias "type" ≡ false
    → str_eq k alias ≡ false
    → get_field "type" fs ≡ none
    → IsMap fs
    → get_field k (restore_fields (renaming alias) fs out)
      ≡ restored_or (renaming alias) (get_field (sent_as alias k) fs) (get_field k out)
unfolding restore_alias_value
get-restore_fields alias k no_fields out a b plain m = refl
get-restore_fields alias k (field i v rest) out a b plain (m, ms) =
    let name = original i (find_alias i (renaming alias)) in
    let value = restore_alias_value (renaming alias) v in
    get-restore_fields alias k rest (set_field name value out) a b (type_behind i v rest plain) ms
    ∙ ap (restored_or (renaming alias) (get_field (sent_as alias k) rest))
        (get_field-set_field_any name k value out)
    ∙ one_turn (renaming alias) v (str_eq name k) (str_eq i (sent_as alias k))
        (get_field (sent_as alias k) rest) (get_field k out)
        (name_sent alias k i a b (type_before i v rest plain))
        (λ same. ap (λ q. get_field q rest) (sym ((str_eq_iff i (sent_as alias k)).0 same)) ∙ m)

-- In the arguments that come back for a schema with the alias, no key twice and none of them "type", the
-- restored object has under each key but the alias what came back under the name that was sent for
-- it, restored in the same way: "type" under the alias, any other key under itself.
pub restored_under_own_names :
    (alias k : String) (fs : Fields)
    → str_eq alias "type" ≡ false
    → str_eq k alias ≡ false
    → get_field "type" fs ≡ none
    → IsMap fs
    → get_field k (restore_fields (renaming alias) fs no_fields)
      ≡ restored_or (renaming alias) (get_field (sent_as alias k) fs) none
restored_under_own_names alias k fs a b plain m =
    get-restore_fields alias k fs no_fields a b plain m
