-- ===== src/Chat/Request/Known.antt =====
-- The tools that go upstream are those whose calls the registry accepts.
use realy_code.Common.{
  String, Bool, true, false, not, ◌&&◌, ◌||◌, none, some, Option, List, [], ◌∷◌, map, ◌≡◌, refl,
  sym, ◌∙◌, ap, arith, str_eq, str_eq_iff, any_of,
}
use realy_code.Json.{Fields}
use realy_code.Config.{ToolValidationConfig}
use realy_code.Transcript.Message.{Raw, elems}
use realy_code.Transcript.ServerTools.{Tool, tools_for_upstream}
use realy_code.Transcript.Request.{Request, Result, ok, err, Reading, unsupported_openai_fields}
use realy_code.Guard.Args.{Codec}
use realy_code.Guard.Registry.{new_registry, add_tools, find_tool_named, has}
use realy_code.Chat.Messages.{OpenaiMessage, convert_messages}
use realy_code.Chat.Request.{
  OpenaiTool, Built, openai_tool, with_format, with_messages, if_supported, chat_response_format,
  build_request_with_options,
}

abbrev is_known : String → List (String × Tool) → Bool
is_known name known = elim (find_tool_named name known) [ none ↦ false | some _ ↦ true ]

is_known-add_tools :
    (name : String) (ts : List Tool) (known : List (String × Tool))
    → is_known name (add_tools ts known)
      ≡ ((not (str_eq name "") && any_of (λ t. str_eq t.name name) ts) || is_known name known)
is_known-add_tools name [] known = ground arith
is_known-add_tools name (t ∷ ts) known = ground (
  arith,
  is_known-add_tools name ts ((t.name, t) ∷ known),
  is_known-add_tools name ts known,
  str_eq_iff t.name name,
  str_eq_iff t.name "",
  str_eq_iff name "",
)

module _ (r : Reading) (read_fields : Raw → Option Fields)
    (read_choice : Raw → Option (String × String)) (codec : Codec) where
  any_of-openai_tool :
      (name : String) (ts : List Tool)
      → any_of (λ t. str_eq t.name name) (map (openai_tool r read_fields read_choice codec) ts)
        ≡ any_of (λ t. str_eq t.name name) ts
  any_of-openai_tool name [] = refl
  any_of-openai_tool name (t ∷ ts) = ap (λ b. str_eq t.name name || b) (any_of-openai_tool name ts)

  abbrev sent_tools : Request → Bool → List OpenaiTool
  sent_tools q passthrough =
      map (openai_tool r read_fields read_choice codec)
        (elems (tools_for_upstream q.tools passthrough))

  ok_inj : {b c : Built} → ok b ≡ ok c → b ≡ c
  ok_inj e = cc

  module _ (q : Request) (model : String) (passthrough : Bool) (b : Built) where
    format_tools :
        (messages : List OpenaiMessage) (f : Result (Option Fields))
        → with_format r read_fields read_choice codec q model passthrough messages f ≡ ok b
        → b.body.tools ≡ sent_tools q passthrough
    format_tools messages (err why) e = absurd (cc)
    format_tools messages (ok f) e = ap (λ c. c.body.tools) (sym (ok_inj e))

    messages_tools :
        (m : Result (List OpenaiMessage))
        → with_messages r read_fields read_choice codec q model passthrough m ≡ ok b
        → b.body.tools ≡ sent_tools q passthrough
    messages_tools (err why) e = absurd (cc)
    messages_tools (ok messages) e = format_tools messages (chat_response_format r read_fields q) e

    supported_tools :
        (compact : Bool) (fs : List String)
        → if_supported r read_fields read_choice codec q model passthrough compact fs ≡ ok b
        → b.body.tools ≡ sent_tools q passthrough
    supported_tools compact [] e = messages_tools (convert_messages r q passthrough compact) e
    supported_tools compact (f ∷ fs) e = absurd (cc)

  -- Where a request is built, the registry made for it knows exactly the names, other than the empty
  -- one, of the tools that the request holds.
  pub registry_knows_sent_tools :
      (q : Request) (model : String) (passthrough compact : Bool) (b : Built)
      (policy : ToolValidationConfig) (name : String)
      → build_request_with_options r read_fields read_choice codec q model passthrough compact
        ≡ ok b
      → has (new_registry q.tools passthrough b.aliases policy) name
        ≡ (not (str_eq name "") && any_of (λ t. str_eq t.name name) b.body.tools)
  unfolding build_request_with_options has new_registry
  registry_knows_sent_tools q model passthrough compact b policy name e =
      is_known-add_tools name (elems (tools_for_upstream q.tools passthrough)) []
      ∙ without_more (
          not (str_eq name "")
          && any_of (λ t. str_eq t.name name) (elems (tools_for_upstream q.tools passthrough)))
      ∙ ap (λ t. not (str_eq name "") && t)
          (sym (any_of-openai_tool name (elems (tools_for_upstream q.tools passthrough)))
            ∙ ap (any_of (λ t. str_eq t.name name)) (
                sym
                  (supported_tools q model passthrough b compact (unsupported_openai_fields q) e)))
    where
      without_more : (t : Bool) → (t || false) ≡ t
      without_more true = refl
      without_more false = refl
