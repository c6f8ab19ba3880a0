-- ===== src/Chat/Request.antt =====
-- `buildRequestWithOptions` of internal/provider/chat/chat.go: the body of the request to the upstream.
pub mod Known
use realy_code.Common.{
  String, ℤ, pos, negsuc, Bool, true, false, not, Option, none, some, List, [], ◌∷◌, ◌++◌, map,
  str_eq, concat, join, if◌then◌else◌,
}
use realy_code.Json.{
  Value, Float64, Fields, flag, str, object, no_fields, field, get_field, as_string,
}
use realy_code.Transcript.Message.{Raw, Slice, elems}
use realy_code.Transcript.ServerTools.{Tool, tools_for_upstream}
use realy_code.Transcript.Request.{
  OutputConfig, Request, Result, ok, err, Reading, raw_field, unsupported_openai_fields,
  reasoning_effort,
}
use realy_code.Guard.Args.{Codec, Aliases, Sanitized, sanitize_parameters}
use realy_code.Chat.Messages.{OpenaiMessage, convert_messages}
use realy_code.Chat.Stream.{is_positive}

-- `openaiTool` with its `openaiToolDecl`
pub record OpenaiTool : Type 0 where
  pub typ : String
  pub name : String
  pub description : String
  pub parameters : Raw
  pub strict : Option Bool

-- what `tool_choice` is set to: a word, or the function of a name
pub data ToolChoice : Type 0 where
  word : String → ToolChoice
  function_named : String → ToolChoice

-- the body, with `none` and the empty list for a key that is not set
pub record Body : Type 0 where
  pub model : String
  pub messages : List OpenaiMessage
  pub stream : Bool
  pub max_tokens : Option ℤ
  pub temperature : Option Float64
  pub top_p : Option Float64
  pub stop : List String
  pub reasoning_effort : Option String
  pub tool_choice : ToolChoice
  pub parallel_tool_calls : Bool
  pub response_format : Option Fields
  pub tools : List OpenaiTool

pub record Built : Type 0 where
  pub body : Body
  pub aliases : List (String × Aliases)

-- `type` and `name` of the raw choice, if it is read
abbrev pub choice_by : Option (String × String) → ToolChoice
choice_by none = word "auto"
choice_by (some (typ, name)) =
    if str_eq typ "any"
    then word "required"
    else if str_eq typ "none"
    then word "none"
    else if str_eq typ "tool"
    then (if not (str_eq name "") then function_named name else word "auto")
    else word "auto"

module _ (read_choice : Raw → Option (String × String)) where
  unfoldable pub chat_tool_choice : Raw → ToolChoice
  chat_tool_choice raw = if str_eq raw "" then word "auto" else choice_by (read_choice raw)

abbrev pub named_or : String → String
named_or name = if str_eq name "" then "relaycode_output_schema" else name

-- `f["strict"].(bool)`, and true where it is none
abbrev pub strict_or : Option Value → Bool
strict_or (some (flag b)) = b
strict_or _ = true

abbrev pub schema_format : Fields → Option Value → Result (Option Fields)
schema_format f none = err "output_config.format.schema is required for json_schema"
schema_format f (some schema) = ok (
    some (
      field "type" (str "json_schema") (
        field "json_schema"
          (object (
            field "name" (str (named_or (as_string (get_field "name" f)))) (
              field "schema" schema
                (field "strict" (flag (strict_or (get_field "strict" f))) no_fields))))
          no_fields)))

module _ (r : Reading) where
  abbrev pub format_by : Fields → String → Result (Option Fields)
  format_by f typ =
      if str_eq typ ""
      then err "output_config.format.type is required"
      else if str_eq typ "json_schema"
      then schema_format f (get_field "schema" f)
      else if str_eq typ "text"
      then ok (some (field "type" (str typ) no_fields))
      else if str_eq typ "json_object"
      then ok (some (field "type" (str typ) no_fields))
      else err (
          concat ("unsupported output_config.format.type " ∷ r.quote typ ∷ " for openai_chat" ∷ []))

  -- `read_fields` reads a map; null gives an empty one
  abbrev pub format_from : Raw → Option Fields → Result (Option Fields)
  format_from raw none = err (concat ("output_config.format: " ∷ r.error_of raw ∷ []))
  format_from raw (some f) = format_by f (as_string (get_field "type" f))

  module _ (read_fields : Raw → Option Fields) where
    abbrev pub format_of : Raw → Result (Option Fields)
    format_of raw = if str_eq raw "" then ok none else format_from raw (read_fields raw)

    unfoldable pub chat_response_format : Request → Result (Option Fields)
    unfolding raw_field
    chat_response_format q = format_of (raw_field q.output_config "format")

    module _ (read_choice : Raw → Option (String × String)) (codec : Codec) where
      abbrev pub openai_tool : Tool → OpenaiTool
      openai_tool t = record {
        typ = "function";
        name = t.name;
        description = t.description;
        parameters = (sanitize_parameters codec t.input_schema).raw;
        strict = t.strict;
      }

      abbrev pub note_aliases : String → Aliases → List (String × Aliases) → List (String × Aliases)
      note_aliases name [] known = known
      note_aliases name (a ∷ more) known = (name, a ∷ more) ∷ known

      -- `aliases[t.Name] = toolAliases`; what comes later hides what came before
      abbrev pub aliases_from : List Tool → List (String × Aliases) → List (String × Aliases)
      aliases_from [] known = known
      aliases_from (t ∷ ts) known =
          aliases_from ts
            (note_aliases t.name (sanitize_parameters codec t.input_schema).aliases known)

      abbrev pub build_with : Request → String → Bool → List OpenaiMessage → Option Fields → Built
      build_with q model passthrough messages format =
          let upstream = elems (tools_for_upstream q.tools passthrough) in
          record {
            body = record {
              model = model;
              messages = messages;
              stream = true;
              max_tokens = if is_positive q.max_tokens then some q.max_tokens else none;
              temperature = q.temperature;
              top_p = q.top_p;
              stop = q.stop_sequences;
              reasoning_effort = reasoning_effort r q;
              tool_choice = chat_tool_choice read_choice q.tool_choice;
              parallel_tool_calls = false;
              response_format = format;
              tools = map openai_tool upstream;
            };
            aliases = aliases_from upstream [];
          }

      abbrev pub with_format :
          Request → String → Bool → List OpenaiMessage → Result (Option Fields) → Result Built
      with_format q model passthrough messages (err why) = err why
      with_format q model passthrough messages (ok format) =
          ok (build_with q model passthrough messages format)

      abbrev pub with_messages :
          Request → String → Bool → Result (List OpenaiMessage) → Result Built
      with_messages q model passthrough (err why) = err why
      with_messages q model passthrough (ok messages) =
          with_format q model passthrough messages (chat_response_format q)

      abbrev pub if_supported : Request → String → Bool → Bool → List String → Result Built
      if_supported q model passthrough compact (f ∷ fs) = err (
          concat ("openai_chat does not support Anthropic-only fields: " ∷ join ", " (f ∷ fs) ∷ []))
      if_supported q model passthrough compact [] =
          with_messages q model passthrough (convert_messages r q passthrough compact)

      unfoldable pub build_request_with_options : Request → String → Bool → Bool → Result Built
      unfolding chat_response_format chat_tool_choice sanitize_parameters tools_for_upstream
          reasoning_effort
      build_request_with_options q model passthrough compact =
          if_supported q model passthrough compact (unsupported_openai_fields q)
