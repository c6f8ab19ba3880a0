-- ===== src/Chat/Messages/Matched.antt =====
-- A call of the assistant and its result are still a pair after the conversion.
use realy_code.Common.{
  ◌+◌, String, Bool, true, false, not, ◌&&◌, ◌||◌, none, some, List, [], ◌∷◌, ◌++◌, map, ◌≡◌, ◌≢◌,
  refl, sym, ◌∙◌, ap, arith, str_eq, str_eq_iff, inl, inr, Bool-cases, all_of, bit, if_true,
  if_false,
}
use realy_code.Transcript.Message.{Slice, elems, Block, Message, as_blocks, blocks_of}
use realy_code.Transcript.Blocks.{
  Json, member, is_server_tool_block, degraded, degrade_server_tool_blocks,
}
use realy_code.Transcript.Repair.{is_user, is_assistant}
use realy_code.Transcript.Pairing.{count, result_ids, use_ids, Answers}
use realy_code.Transcript.ServerTools.{blocks_for_upstream}
use realy_code.Transcript.Request.{ok, Reading}
use realy_code.Chat.Messages.{
  OpenaiMessage, is_result_type, is_use_type, convert_user_blocks, convert_assistant_blocks,
  convert_message,
}
use realy_code.Chat.Messages.Answered.{
  tool_ids, call_ids, answered_ids, called_ids, step_ids, answered_ids-step,
  convert_user_blocks_answers,
}
use realy_code.Chat.Messages.Called.{use_step, called_ids-step, convert_assistant_blocks_calls}

-- how often one block counts for an id, before and after the server tools are degraded
abbrev is_result_of : String → Block → Bool
is_result_of k b = str_eq b.typ "tool_result" && str_eq b.tool_use_id k

abbrev is_use_of : String → Block → Bool
is_use_of k b = str_eq b.typ "tool_use" && str_eq b.id k

-- a tool use that has a name
abbrev pub is_named : Block → Bool
is_named b = not (str_eq b.typ "tool_use") || not (str_eq b.name "")

-- No server tool's block is a use or a result of the client's tools.
server_block-typ :
    (b : Block) (typ : String)
    → is_server_tool_block b ≡ true
    → is_server_tool_block (record b { typ = typ }) ≡ false
    → str_eq b.typ typ ≡ false
unfolding is_server_tool_block
server_block-typ b typ s e = elim (Bool-cases (str_eq b.typ typ)) [
  | inl same ↦ absurd (cc ((str_eq_iff b.typ typ).0 same))
  | inr other ↦ other
]

server_no_result : (b : Block) → is_server_tool_block b ≡ true → str_eq b.typ "tool_result" ≡ false
unfolding is_server_tool_block
server_no_result b s = server_block-typ b "tool_result" s refl

server_no_use : (b : Block) → is_server_tool_block b ≡ true → str_eq b.typ "tool_use" ≡ false
unfolding is_server_tool_block
server_no_use b s = server_block-typ b "tool_use" s refl

count-append : (k : String) (xs ys : List String) → count k (xs ++ ys) ≡ count k xs + count k ys
count-append k [] ys = omega arith
count-append k (x ∷ xs) ys = omega (arith, count-append k xs ys)

member-append :
    (k : String) (xs ys : List String) → member k (xs ++ ys) ≡ (member k xs || member k ys)
member-append k [] ys = refl
member-append k (x ∷ xs) ys = ground (arith, member-append k xs ys)

count-result_ids :
    (k : String) (b : Block) (bs : List Block)
    → count k (result_ids (b ∷ bs)) ≡ bit (is_result_of k b) + count k (result_ids bs)
count-result_ids k b bs = ground arith

member-use_ids :
    (k : String) (b : Block) (bs : List Block)
    → member k (use_ids (b ∷ bs)) ≡ (is_use_of k b || member k (use_ids bs))
member-use_ids k b bs = ground arith

module _ (json : Json) (k : String) (some_id : k ≢ "") where
  named_id : (s : String) → str_eq s k ≡ true → str_eq s "" ≡ false
  named_id s e = elim (Bool-cases (str_eq s "")) [
    | inl empty ↦ absurd (some_id (sym ((str_eq_iff s k).0 e) ∙ (str_eq_iff s "").0 empty))
    | inr other ↦ other
  ]

  degraded-server : (b : Block) → is_server_tool_block b ≡ true → (degraded json b).typ ≡ "text"
  unfolding degraded
  degraded-server b s = rw s

  degraded-client : (b : Block) → is_server_tool_block b ≡ false → degraded json b ≡ b
  unfolding degraded
  degraded-client b s = rw s

  client_result :
      (b : Block)
      → is_server_tool_block b ≡ false
      → is_result_type b.typ ≡ str_eq b.typ "tool_result"
  unfolding is_server_tool_block
  client_result b s = ground arith

  client_use :
      (b : Block) → is_server_tool_block b ≡ false → is_use_type b.typ ≡ str_eq b.typ "tool_use"
  unfolding is_server_tool_block
  client_use b s = ground arith

  own_result :
      (b : Block) → is_server_tool_block b ≡ false → count k (step_ids b) ≡ bit (is_result_of k b)
  own_result b s = ground (
    arith,
    client_result b s,
    str_eq_iff b.tool_use_id k,
    str_eq_iff b.tool_use_id "",
    str_eq_iff k "",
    some_id,
  )

  own_use :
      (b : Block)
      → is_server_tool_block b ≡ false
      → is_named b ≡ true
      → member k (use_step b) ≡ is_use_of k b
  own_use b s n =
      ground
        (arith, client_use b s, str_eq_iff b.id k, str_eq_iff b.id "", str_eq_iff k "", some_id)

  degraded_result : (b : Block) → count k (step_ids (degraded json b)) ≡ bit (is_result_of k b)
  degraded_result b = elim (Bool-cases (is_server_tool_block b)) [
    | inl s ↦
        let plain : is_result_type (degraded json b).typ ≡ false =
          ap is_result_type (degraded-server b s) in
        ground (arith, server_no_result b s)
    | inr s ↦ ap (λ c. count k (step_ids c)) (degraded-client b s) ∙ own_result b s
  ]

  degraded_use :
      (b : Block) → is_named b ≡ true → member k (use_step (degraded json b)) ≡ is_use_of k b
  degraded_use b n = elim (Bool-cases (is_server_tool_block b)) [
    | inl s ↦
        let plain : is_use_type (degraded json b).typ ≡ false =
          ap is_use_type (degraded-server b s) in
        ground (arith, server_no_use b s)
    | inr s ↦ ap (λ c. member k (use_step c)) (degraded-client b s) ∙ own_use b s n
  ]

  answered_after :
      (bs : List Block) → count k (answered_ids (map (degraded json) bs)) ≡ count k (result_ids bs)
  answered_after [] = refl
  answered_after (b ∷ bs) =
      ap (count k) (answered_ids-step (degraded json b) (map (degraded json) bs))
      ∙ count-append k (step_ids (degraded json b)) (answered_ids (map (degraded json) bs))
      ∙ omega (arith, degraded_result b, answered_after bs, count-result_ids k b bs)

  called_after :
      (bs : List Block)
      → all_of is_named bs ≡ true
      → member k (called_ids (map (degraded json) bs)) ≡ member k (use_ids bs)
  called_after [] n = refl
  called_after (b ∷ bs) n =
      let here : is_named b ≡ true = ground arith in
      let later : all_of is_named bs ≡ true = ground arith in
      ap (member k) (called_ids-step (degraded json b) (map (degraded json) bs))
      ∙ member-append k (use_step (degraded json b)) (called_ids (map (degraded json) bs))
      ∙ ap (λ t. t || member k (called_ids (map (degraded json) bs))) (degraded_use b here)
      ∙ ap (λ t. is_use_of k b || t) (called_after bs later)
      ∙ sym (member-use_ids k b bs)

elems-degrade :
    (json : Json) (bs : Slice Block)
    → elems (blocks_for_upstream json bs false) ≡ map (degraded json) (elems bs)
unfolding blocks_for_upstream degrade_server_tool_blocks
elems-degrade json none = refl
elems-degrade json (some bs) = refl

ok_inj : {xs ys : List OpenaiMessage} → ok xs ≡ ok ys → xs ≡ ys
ok_inj e = cc

module _ (r : Reading) (compact : Bool) where
  upstream_blocks : Message → List Block
  upstream_blocks m = elems (blocks_for_upstream r.json (as_blocks m.content) false)

  converted_user :
      (m : Message)
      → is_user m ≡ true
      → convert_message r false compact m ≡ convert_user_blocks r (upstream_blocks m) compact
  unfolding convert_message upstream_blocks
  converted_user m u = if_true _ u

  converted_assistant :
      (m : Message)
      → is_assistant m ≡ true
      → convert_message r false compact m ≡ ok (convert_assistant_blocks r (upstream_blocks m))
  unfolding convert_message upstream_blocks
  converted_assistant m a = if_false _ not_user ∙ if_true _ a
    where
      not_user : is_user m ≡ false
      not_user = ap (λ role. str_eq role "user") ((str_eq_iff m.role "assistant").0 a)

  -- Without the pass-through of server tools: where a message of the user answers the tool uses of a
  -- message of the assistant, all of which have a name, the converted messages hold for each id that is
  -- not empty one tool message if it is the id of a tool call, and else none.
  pub converted_calls_answered :
      (m m' : Message) (ms ms' : List OpenaiMessage) (k : String)
      → is_assistant m ≡ true
      → is_user m' ≡ true
      → Answers (use_ids (blocks_of m)) (blocks_of m')
      → all_of is_named (blocks_of m) ≡ true
      → convert_message r false compact m ≡ ok ms
      → convert_message r false compact m' ≡ ok ms'
      → k ≢ ""
      → count k (tool_ids ms') ≡ bit (member k (call_ids ms))
  unfolding upstream_blocks
  converted_calls_answered m m' ms ms' k a u paired named e e' some_id =
      ap (count k) (
        convert_user_blocks_answers r compact (upstream_blocks m') ms'
          (sym (converted_user m' u) ∙ e')
        ∙ ap answered_ids (elems-degrade r.json (as_blocks m'.content)))
      ∙ answered_after r.json k some_id (blocks_of m')
      ∙ paired k
      ∙ ap bit (
          sym (called_after r.json k some_id (blocks_of m) named)
          ∙ ap (λ bs. member k (called_ids bs)) (sym (elems-degrade r.json (as_blocks m.content)))
          ∙ ap (member k) (sym (convert_assistant_blocks_calls r (upstream_blocks m)))
          ∙ ap (λ xs. member k (call_ids xs)) (ok_inj (sym (converted_assistant m a) ∙ e)))
