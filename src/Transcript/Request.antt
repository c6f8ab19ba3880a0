-- ===== src/Transcript/Request.antt =====
-- `Request` of internal/anthropic/types.go, and what the adapters read from it: the system text, the reasoning
-- effort, the session, the fields that only Anthropic knows, and the images of its blocks.
use Prim.Native.String.{compare, len}
use Prim.Native.Nat.{Ordering}
use text.Mathlib.Text.{starts_with, find?}
use realy_code.Common.{
  ℕ, String, ℤ, pos, negsuc, Bool, true, false, not, ◌&&◌, ◌||◌, Option, none, some, List, [], ◌∷◌,
  map, str_eq, ltb, leb, any_of, keep_if, concat, join, if◌then◌else◌,
}
use realy_code.Json.{Value, Float64, null, str, float, int}
use realy_code.Transcript.Message.{Raw, Slice, ImageSource, Block, Message}
use realy_code.Transcript.Blocks.{Json}
use realy_code.Transcript.ServerTools.{Tool}
use realy_code.Transcript.Compact.{Texts}

pub record OutputConfig : Type 0 where
  pub effort : Option Value
  pub extra_fields : List (String × Raw)

pub record Request : Type 0 where
  pub model : String
  pub max_tokens : ℤ
  pub system : Raw
  pub messages : List Message
  pub tools : Slice Tool
  pub tool_choice : Raw
  pub temperature : Option Float64
  pub top_p : Option Float64
  pub stop_sequences : List String
  pub output_config : Option OutputConfig
  pub metadata : Raw
  pub betas : List String
  pub effort : Raw
  pub extra_fields : List (String × Raw)

-- `value, error`
pub data Result (A : Type 0) : Type 0 where
  ok : A → Result A
  err : String → Result A

-- what `encoding/json`, `%q`, `strings.TrimSpace` and the comparison of a float64 do
pub record Reading : Type 1 where
  pub json : Json
  pub texts : Texts
  pub read_value : Raw → Option Value
  pub error_of : Raw → String
  pub quote : String → String
  pub trim_space : String → String
  pub is_at_most : Float64 → ℕ → Bool
  -- `user_id` of the metadata, and `session_id` and `device_id` of a user id
  pub read_user_id : Raw → Option String
  pub read_ids : String → Option (String × String)

abbrev pub raw_in : String → List (String × Raw) → Raw
raw_in k [] = ""
raw_in k ((j, raw) ∷ rest) = let later = raw_in k rest in if str_eq j k then raw else later

-- `RawField`, with "" for nil
unfoldable pub raw_field : Option OutputConfig → String → Raw
raw_field none name = ""
raw_field (some o) name = raw_in name o.extra_fields

abbrev contains : String → String → Bool
contains s t = elim (find? s t) [ none ↦ false | some _ ↦ true ]

unfoldable pub has_tool_search_beta : Request → Bool
has_tool_search_beta r =
    any_of (λ beta. contains beta "tool-search" || contains beta "advanced-tool-use") r.betas

abbrev before : String → String → Bool
before s t = elim (compare s t) [ Ordering.gt ↦ false | _ ↦ true ]

abbrev insert_text : String → List String → List String
insert_text s [] = s ∷ []
insert_text s (t ∷ ts) =
    let later = insert_text s ts in if before s t then s ∷ t ∷ ts else t ∷ later

-- `sort.Strings`
abbrev sort_texts : List String → List String
sort_texts [] = []
sort_texts (s ∷ ss) = insert_text s (sort_texts ss)

unfoldable pub unsupported_openai_fields : Request → List String
unsupported_openai_fields r = sort_texts (map (λ entry. entry.0) r.extra_fields)

unfoldable pub is_supported_image_media_type : String → Bool
is_supported_image_media_type typ =
    str_eq typ "image/png"
    || str_eq typ "image/jpeg"
    || str_eq typ "image/gif"
    || str_eq typ "image/webp"

abbrev int_at_most : ℤ → ℕ → Bool
int_at_most (pos a) n = leb a n
int_at_most (negsuc a) n = true

module _ (r : Reading) where
  abbrev source_url : Option ImageSource → Result String
  source_url none = err "image source is required"
  source_url (some s) =
      if not (str_eq s.typ "base64")
      then err (concat ("unsupported image source type " ∷ r.quote s.typ ∷ []))
      else if not (is_supported_image_media_type s.media_type)
      then err (concat ("unsupported image media_type " ∷ r.quote s.media_type ∷ []))
      else if str_eq (r.trim_space s.payload) ""
      then err "image data is required"
      else ok (concat ("data:" ∷ s.media_type ∷ ";base64," ∷ s.payload ∷ []))

  unfoldable pub image_data_url : Block → Result String
  unfolding is_supported_image_media_type
  image_data_url b =
      if not (str_eq b.typ "image")
      then err (concat ("image block type " ∷ r.quote b.typ ∷ []))
      else source_url b.source

  unfoldable pub is_volatile_system_block : String → Bool
  is_volatile_system_block text =
      let trimmed = if ltb 256 (len text) then r.texts.slice text 0 256 else text in
      starts_with (r.texts.lower trimmed) "x-anthropic-billing-header:"

  abbrev pub or_error : String → Raw → Option String → Result String
  or_error prefix raw none = err (concat (prefix ∷ r.error_of raw ∷ []))
  or_error prefix raw (some s) = ok s

  abbrev stable_texts : List Block → List String
  stable_texts bs =
      map (λ b. b.text)
        (keep_if (λ b. str_eq b.typ "text" && not (is_volatile_system_block b.text)) bs)

  abbrev joined_blocks : Option (List Block) → Option String
  joined_blocks none = none
  joined_blocks (some bs) = some (join "\n\n" (stable_texts bs))

  unfoldable pub system_text : Raw → Result String
  unfolding is_volatile_system_block
  system_text raw =
      if str_eq raw ""
      then ok ""
      else if starts_with raw "\""
      then or_error "" raw (r.json.parse_text raw)
      else or_error "system: " raw (joined_blocks (r.json.parse_blocks raw))

  abbrev effort_word : String → Option String
  effort_word v =
      if str_eq v "low" || str_eq v "medium" || str_eq v "high"
      then some v
      else if str_eq v "max" || str_eq v "xhigh"
      then some "xhigh"
      else if str_eq v "none" || str_eq v "minimal"
      then some v
      else none

  abbrev effort_number : (ℕ → Bool) → Option String
  effort_number at_most =
      if at_most 50
      then some "low"
      else if at_most 85
      then some "medium"
      else if at_most 100
      then some "high"
      else some "xhigh"

  abbrev effort_of : Option Value → Option String
  effort_of (some (str s)) = effort_word (r.texts.lower s)
  effort_of (some (float f)) = effort_number (r.is_at_most f)
  effort_of (some (int i)) = effort_number (int_at_most i)
  effort_of _ = none

  abbrev own_effort : Raw → Option Value
  own_effort raw = if not (str_eq raw "") then r.read_value raw else none

  abbrev config_effort : Option OutputConfig → Option Value
  config_effort none = none
  config_effort (some o) = o.effort

  abbrev first_value : Option Value → Option Value → Option Value
  first_value none later = later
  first_value (some null) later = later
  first_value (some v) later = some v

  -- `none` for `"", false`
  unfoldable pub reasoning_effort : Request → Option String
  reasoning_effort q = effort_of (first_value (config_effort q.output_config) (own_effort q.effort))

  abbrev id_of : String → Option (String × String) → String
  id_of user none = user
  id_of user (some (session, device)) =
      if not (str_eq session "") then session else if not (str_eq device "") then device else user

  abbrev id_of_user : Option String → String
  id_of_user none = ""
  id_of_user (some user) = if str_eq user "" then "" else id_of user (r.read_ids user)

  unfoldable pub session_id : Request → String
  session_id q = if str_eq q.metadata "" then "" else id_of_user (r.read_user_id q.metadata)
