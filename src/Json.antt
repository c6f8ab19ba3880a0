-- ===== src/Json.antt =====
-- Go's `any` as `json.Unmarshal` fills it, and `map[string]any`, as internal/provider/anthropic and
-- internal/provider/toolguard read and change them. A map is its keys and values in the order in which
-- Go visits them, which is any order.
use realy_code.Common.{
  ℕ, suc, true, false, List, [], ◌∷◌, String, ℤ, Bool, Option, none, some, ◌≡◌, arith, str_eq,
  str_eq_iff, if◌then◌else◌,
}

-- a float64, by what `int(v)` makes of it and by the number as it is written
pub record Float64 : Type 0 where
  pub whole : ℤ
  pub digits : String

mutual
  pub data Value : Type 0 where
    null : Value
    flag : Bool → Value
    float : Float64 → Value
    int : ℤ → Value
    str : String → Value
    array : Values → Value
    object : Fields → Value

  pub data Values : Type 0 where
    nil : Values
    item : Value → Values → Values

  -- a map: its keys and values
  pub data Fields : Type 0 where
    no_fields : Fields
    field : String → Value → Fields → Fields

abbrev pub get_field : String → Fields → Option Value
get_field k no_fields = none
get_field k (field j v rest) = let later = get_field k rest in if str_eq j k then some v else later

abbrev pub set_field : String → Value → Fields → Fields
set_field k v no_fields = field k v no_fields
set_field k v (field j w rest) =
    let later = set_field k v rest in if str_eq j k then field j v rest else field j w later

-- `value.(string)`, with "" where it fails
abbrev pub as_string : Option Value → String
as_string (some (str s)) = s
as_string _ = ""

-- `value.(map[string]any)`, with nil where it fails
abbrev pub as_object : Option Value → Option Fields
as_object (some (object fs)) = some fs
as_object _ = none

-- `m[key]` on a map that may be nil
abbrev pub look : String → Option Fields → Option Value
look k none = none
look k (some fs) = get_field k fs

-- `payloadIndex`, and `eventIndex`
abbrev pub index_value : Option Value → Option ℤ
index_value (some (float f)) = some f.whole
index_value (some (int i)) = some i
index_value _ = none

abbrev pub payload_index : Fields → Option ℤ
payload_index fs = index_value (get_field "index" fs)

pub get_field-set_field :
    (k : String) (v : Value) (fs : Fields) → get_field k (set_field k v fs) ≡ some v
get_field-set_field k v no_fields = ground (arith, str_eq_iff k k)
get_field-set_field k v (field j w rest) =
    ground (arith, str_eq_iff j k, str_eq_iff k k, get_field-set_field k v rest)

abbrev pub has_field : String → Fields → Bool
has_field k fs = elim (get_field k fs) [ none ↦ false | some _ ↦ true ]

-- `delete(m, k)`
abbrev pub delete_field : String → Fields → Fields
delete_field k no_fields = no_fields
delete_field k (field j v rest) =
    let later = delete_field k rest in if str_eq j k then later else field j v later

-- `len(m)`
abbrev pub size : Fields → ℕ
size no_fields = 0
size (field k v rest) = suc (size rest)

abbrev pub elements : Values → List Value
elements nil = []
elements (item v vs) = v ∷ elements vs

-- `value.([]any)`
abbrev pub as_array : Option Value → Option (List Value)
as_array (some (array vs)) = some (elements vs)
as_array _ = none

pub get_field-delete_field :
    (k j : String) (fs : Fields)
    → get_field j (delete_field k fs) ≡ (if str_eq k j then none else get_field j fs)
get_field-delete_field k j no_fields = ground arith
get_field-delete_field k j (field i v rest) =
    ground (arith, get_field-delete_field k j rest, str_eq_iff i k, str_eq_iff i j, str_eq_iff k j)

pub get_field-set_field_any :
    (k j : String) (v : Value) (fs : Fields)
    → get_field j (set_field k v fs) ≡ (if str_eq k j then some v else get_field j fs)
get_field-set_field_any k j v no_fields = ground arith
get_field-set_field_any k j v (field i w rest) =
    ground
      (arith, get_field-set_field_any k j v rest, str_eq_iff i k, str_eq_iff i j, str_eq_iff k j)
