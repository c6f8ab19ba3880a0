-- ===== src/Chat/Messages.antt =====
-- `convertMessages` of internal/provider/chat/chat.go: the messages of a request as OpenAI's.
pub mod Answered
pub mod Called
pub mod Matched
use realy_code.Common.{
  String, Bool, true, false, not, ◌&&◌, ◌||◌, Option, none, some, List, [], ◌∷◌, ◌++◌, map, str_eq,
  concat, join, if◌then◌else◌,
}
use realy_code.Transcript.Message.{Slice, elems, Block, Message, as_blocks, blocks_of}
use realy_code.Transcript.Repair.{normalize_messages_for_upstream}
use realy_code.Transcript.ServerTools.{blocks_for_upstream}
use realy_code.Transcript.Compact.{tool_result_text_for_upstream}
use realy_code.Transcript.Request.{
  Request, Result, ok, err, Reading, image_data_url, system_text, has_tool_search_beta, or_error,
}

-- `openaiContentPart`, with `none` for an absent image
pub record ContentPart : Type 0 where
  pub typ : String
  pub text : String
  pub image_url : Option String

-- the two kinds of content that the code builds
pub data OpenaiContent : Type 0 where
  plain : String → OpenaiContent
  parts : List ContentPart → OpenaiContent

pub record ToolRef : Type 0 where
  pub id : String
  pub typ : String
  pub name : String
  pub arguments : String

pub record OpenaiMessage : Type 0 where
  pub role : String
  pub content : OpenaiContent
  pub tool_call_id : String
  pub tool_calls : List ToolRef

abbrev pub plain_message : String → String → OpenaiMessage
plain_message role text = record {
  role = role;
  content = plain text;
  tool_call_id = "";
  tool_calls = [];
}

abbrev pub tool_message : String → String → OpenaiMessage
tool_message id text = record (plain_message "tool" text) { tool_call_id = id }

-- the variables of `convertUserBlocks`
pub record Pending : Type 0 where
  pub out : List OpenaiMessage
  pub text_parts : List String
  pub content_parts : List ContentPart
  pub using_parts : Bool

abbrev pub text_part : String → ContentPart
text_part text = record { typ = "text"; text = text; image_url = none }

abbrev pub append_text : String → Pending → Pending
append_text text p =
    if str_eq text ""
    then p
    else if p.using_parts
    then record p { content_parts = p.content_parts ++ text_part text ∷ [] }
    else record p { text_parts = p.text_parts ++ text ∷ [] }

abbrev pub ensure_parts : Pending → Pending
ensure_parts p = if p.using_parts then p else record p {
  using_parts = true;
  content_parts = p.content_parts ++ map text_part p.text_parts;
  text_parts = [];
}

abbrev pub parts_message : List ContentPart → List OpenaiMessage
parts_message [] = []
parts_message (c ∷ cs) = record (plain_message "user" "") { content = parts (c ∷ cs) } ∷ []

abbrev pub text_message : List String → List OpenaiMessage
text_message [] = []
text_message (s ∷ ss) = plain_message "user" (join "\n" (s ∷ ss)) ∷ []

abbrev pub flush : Pending → Pending
flush p =
    if p.using_parts
    then record p {
      out = p.out ++ parts_message p.content_parts;
      content_parts = [];
      using_parts = false;
    }
    else record p { out = p.out ++ text_message p.text_parts; text_parts = [] }

abbrev pub with_image : Pending → Result String → Result Pending
with_image p (err why) = err (concat ("image user block: " ∷ why ∷ []))
with_image p (ok url) =
    let q = ensure_parts p in
    ok (record q {
      content_parts =
          q.content_parts ++ record { typ = "image_url"; text = ""; image_url = some url } ∷ [];
    })

abbrev pub with_result : String → Pending → Result String → Result Pending
with_result id p (err why) = err why
with_result id p (ok text) = ok (record p { out = p.out ++ tool_message id text ∷ [] })

abbrev pub is_result_type : String → Bool
is_result_type typ =
    str_eq typ "tool_result"
    || str_eq typ "web_search_tool_result"
    || str_eq typ "web_fetch_tool_result"
    || str_eq typ "code_execution_tool_result"
    || str_eq typ "computer_use_tool_result"
    || str_eq typ "mcp_tool_result"

abbrev pub is_use_type : String → Bool
is_use_type typ = str_eq typ "tool_use" || str_eq typ "server_tool_use" || str_eq typ "mcp_tool_use"

-- the variables of `convertAssistantBlocks`
pub record Spoken : Type 0 where
  pub pre_text : List String
  pub post_text : List String
  pub calls : List ToolRef
  pub seen_tool : Bool

abbrev pub tool_ref : Block → ToolRef
tool_ref b = record {
  id = b.id;
  typ = "function";
  name = b.name;
  arguments = if str_eq b.input "" then "{}" else b.input;
}

abbrev pub on_assistant_block : Block → Spoken → Spoken
on_assistant_block b s =
    if str_eq b.typ "text"
    then (if s.seen_tool
        then record s { post_text = s.post_text ++ b.text ∷ [] }
        else record s { pre_text = s.pre_text ++ b.text ∷ [] })
    else if is_use_type b.typ
    then (if str_eq b.id "" || str_eq b.name ""
        then s
        else record s { seen_tool = true; calls = s.calls ++ tool_ref b ∷ [] })
    else s

abbrev pub on_assistant_blocks : List Block → Spoken → Spoken
on_assistant_blocks [] s = s
on_assistant_blocks (b ∷ bs) s = on_assistant_blocks bs (on_assistant_block b s)

abbrev pub blank_if_nothing : String → List ToolRef → String
blank_if_nothing text [] = if str_eq text "" then " " else text
blank_if_nothing text (c ∷ cs) = text

module _ (r : Reading) where
  abbrev pub answer_text : Block → Bool → Result String
  answer_text b compact =
      or_error r "" b.content (tool_result_text_for_upstream r.texts r.json b.content compact)

  -- the body of the loop of `convertUserBlocks`
  abbrev pub on_user_block : Bool → Block → Result Pending → Result Pending
  on_user_block compact b (err why) = err why
  on_user_block compact b (ok p) =
      if str_eq b.typ "text"
      then ok (append_text b.text p)
      else if str_eq b.typ "image"
      then with_image p (image_data_url r b)
      else if is_result_type b.typ
      then (if str_eq b.tool_use_id ""
          then ok p
          else with_result b.tool_use_id (flush p) (answer_text b compact))
      else ok p

  abbrev pub on_user_blocks : Bool → List Block → Result Pending → Result Pending
  on_user_blocks compact [] p = p
  on_user_blocks compact (b ∷ bs) p = on_user_blocks compact bs (on_user_block compact b p)

  abbrev pub flushed : Result Pending → Result (List OpenaiMessage)
  flushed (err why) = err why
  flushed (ok p) = ok (flush p).out

  unfoldable pub convert_user_blocks : List Block → Bool → Result (List OpenaiMessage)
  unfolding image_data_url tool_result_text_for_upstream
  convert_user_blocks bs compact = flushed (
      on_user_blocks compact bs
        (ok (record { out = []; text_parts = []; content_parts = []; using_parts = false })))

  abbrev pub said : Spoken → List OpenaiMessage
  said s =
      let text = join "\n\n" s.post_text in
      let first : OpenaiMessage =
        record (plain_message "assistant" (blank_if_nothing (join "\n\n" s.pre_text) s.calls)) {
          tool_calls = s.calls;
        } in
      if str_eq (r.trim_space text) ""
      then first ∷ []
      else first ∷ plain_message "assistant" text ∷ []

  unfoldable pub convert_assistant_blocks : List Block → List OpenaiMessage
  convert_assistant_blocks bs = said (
      on_assistant_blocks bs
        (record { pre_text = []; post_text = []; calls = []; seen_tool = false }))

  unfoldable pub convert_message : Bool → Bool → Message → Result (List OpenaiMessage)
  unfolding convert_user_blocks convert_assistant_blocks blocks_for_upstream
  convert_message passthrough compact m =
      let blocks = elems (blocks_for_upstream r.json (as_blocks m.content) passthrough) in
      if str_eq m.role "user"
      then convert_user_blocks blocks compact
      else if str_eq m.role "assistant"
      then ok (convert_assistant_blocks blocks)
      else err (concat ("unsupported role " ∷ r.quote m.role ∷ []))

  -- `out = append(out, msgs...)`, or the first error
  abbrev pub in_turn :
      Result (List OpenaiMessage) → Result (List OpenaiMessage) → Result (List OpenaiMessage)
  in_turn (err why) later = err why
  in_turn (ok ms) (err why) = err why
  in_turn (ok ms) (ok ns) = ok (ms ++ ns)

  unfoldable pub convert_each : Bool → Bool → List Message → Result (List OpenaiMessage)
  unfolding convert_message
  convert_each passthrough compact [] = ok []
  convert_each passthrough compact (m ∷ ms) =
      in_turn (convert_message passthrough compact m) (convert_each passthrough compact ms)

  abbrev pub system_message : Result String → Result (List OpenaiMessage)
  system_message (err why) = err why
  system_message (ok text) = ok (if str_eq text "" then [] else plain_message "system" text ∷ [])

  unfoldable pub convert_messages : Request → Bool → Bool → Result (List OpenaiMessage)
  unfolding convert_each normalize_messages_for_upstream system_text has_tool_search_beta
  convert_messages q passthrough compact = in_turn (system_message (system_text r q.system)) (
      convert_each passthrough compact
        (normalize_messages_for_upstream r.json passthrough (has_tool_search_beta q) q.messages))
