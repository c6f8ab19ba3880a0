-- ===== src/Guard/Schema.antt =====
-- The checks of internal/provider/toolguard/toolguard.go: a value against a JSON schema, both as
-- `json.Unmarshal` gives them. Arithmetic on float64, counting runes, regular expressions and
-- `json.Marshal` are parameters. `item.(string)` panics on an item that is no string, so a check has
-- three outcomes.
use realy_code.Common.{
  ℕ, String, Bool, true, false, not, ◌&&◌, ◌||◌, Option, none, some, List, [], ◌∷◌, str_eq,
  if◌then◌else◌,
}
use realy_code.Guard.Args.{Codec}
use realy_code.Json.{
  Float64, Value, Fields, null, flag, float, str, array, object, get_field, has_field, elements,
}

pub data Verdict : Type 0 where
  valid invalid panics : Verdict

-- a check and, if it is passed, the next
infixr 5 ◌then_check◌
abbrev pub ◌then_check◌ : Verdict → Verdict → Verdict
valid then_check v = v
invalid then_check v = invalid
panics then_check v = panics

abbrev pub test : Bool → Verdict
test true = valid
test false = invalid

pub record Checks : Type 0 where
  pub less : Float64 → Float64 → Bool
  pub of_nat : ℕ → Float64
  -- `math.Trunc(f) == f`
  pub is_integer : Float64 → Bool
  -- `n / m` is an integer up to 1e-9
  pub is_multiple : Float64 → Float64 → Bool
  pub runes : String → ℕ
  -- `regexp.MatchString`; `none` for an error
  pub matches : String → String → Option Bool
  pub codec : Codec

module _ (c : Checks) where
  abbrev same_text : Option String → Option String → Bool
  same_text (some a) (some b) = str_eq a b
  same_text _ _ = false

  -- `jsonEqual`
  abbrev pub json_equal : Value → Value → Bool
  json_equal a b = same_text (c.codec.marshal a) (c.codec.marshal b)

  abbrev number_of : Option Value → Option Float64
  number_of (some (float f)) = some f
  number_of _ = none

  -- `numberKeyword`
  abbrev pub number_keyword : Fields → String → Option Float64
  number_keyword schema key = number_of (get_field key schema)

  -- a bound that is there must hold
  abbrev pub bound : Option Float64 → (Float64 → Bool) → Bool
  bound none p = true
  bound (some m) p = p m

  abbrev less_eq : Float64 → Float64 → Bool
  less_eq a b = not (c.less b a)

  abbrev is_object : Value → Bool
  is_object (object _) = true
  is_object _ = false

  abbrev is_array : Value → Bool
  is_array (array _) = true
  is_array _ = false

  abbrev is_text : Value → Bool
  is_text (str _) = true
  is_text _ = false

  abbrev is_flag : Value → Bool
  is_flag (flag _) = true
  is_flag _ = false

  abbrev is_number : Value → Bool
  is_number (float _) = true
  is_number _ = false

  abbrev is_whole : Value → Bool
  is_whole (float f) = c.is_integer f
  is_whole _ = false

  abbrev is_null : Value → Bool
  is_null null = true
  is_null _ = false

  unfoldable pub validate_single_type : Value → String → Bool
  validate_single_type v typ =
      if str_eq typ "object"
      then is_object v
      else if str_eq typ "array"
      then is_array v
      else if str_eq typ "string"
      then is_text v
      else if str_eq typ "boolean"
      then is_flag v
      else if str_eq typ "number"
      then is_number v
      else if str_eq typ "integer"
      then is_whole v
      else if str_eq typ "null"
      then is_null v
      else false

  abbrev any_type : Value → List Value → Bool
  any_type v [] = false
  any_type v (str s ∷ ts) = validate_single_type v s || any_type v ts
  any_type v (_ ∷ ts) = any_type v ts

  unfoldable pub validate_type : Value → Value → Bool
  unfolding validate_single_type
  validate_type v (str s) = validate_single_type v s
  validate_type v (array ts) = any_type v (elements ts)
  validate_type v _ = false

  abbrev pattern_ok : Option Value → String → Bool
  pattern_ok (some (str p)) s = elim (c.matches p s) [ some true ↦ true | _ ↦ false ]
  pattern_ok _ s = true

  abbrev string_ok : Value → Fields → Bool
  string_ok (str s) schema =
      bound (number_keyword schema "minLength") (λ m. not (c.less (c.of_nat (c.runes s)) m))
      && bound (number_keyword schema "maxLength") (λ m. not (c.less m (c.of_nat (c.runes s))))
      && pattern_ok (get_field "pattern" schema) s
  string_ok _ schema = false

  unfoldable pub validate_string_constraints : Value → Fields → Bool
  validate_string_constraints v schema =
      if not (has_field "minLength" schema)
        && not (has_field "maxLength" schema)
        && not (has_field "pattern" schema)
      then true
      else string_ok v schema

  abbrev is_set : Option Value → Bool
  is_set (some (flag b)) = b
  is_set _ = false

  abbrev number_ok : Value → Fields → Bool
  number_ok (float n) schema =
      bound (number_keyword schema "minimum") (λ m. not (c.less n m))
      && bound (number_keyword schema "maximum") (λ m. not (c.less m n))
      && bound (number_keyword schema "exclusiveMinimum") (λ m. not (less_eq n m))
      && bound (number_keyword schema "exclusiveMaximum") (λ m. not (less_eq m n))
      && (not (is_set (get_field "exclusiveMinimum" schema))
          || bound (number_keyword schema "minimum") (λ m. not (less_eq n m)))
      && (not (is_set (get_field "exclusiveMaximum" schema))
          || bound (number_keyword schema "maximum") (λ m. not (less_eq m n)))
      && bound (number_keyword schema "multipleOf")
          (λ m. not (less_eq m (c.of_nat 0)) && c.is_multiple n m)
  number_ok _ schema = false

  unfoldable pub validate_number_constraints : Value → Fields → Bool
  validate_number_constraints v schema =
      if not (has_field "minimum" schema)
        && not (has_field "maximum" schema)
        && not (has_field "exclusiveMinimum" schema)
        && not (has_field "exclusiveMaximum" schema)
        && not (has_field "multipleOf" schema)
      then true
      else number_ok v schema
