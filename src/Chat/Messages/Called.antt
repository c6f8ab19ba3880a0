-- ===== src/Chat/Messages/Called.antt =====
-- The tool calls of a converted message of the assistant.
use realy_code.Common.{
  String, true, false, not, ◌&&◌, ◌||◌, List, [], ◌∷◌, ◌++◌, ◌≡◌, sym, ◌∙◌, ap, arith, str_eq,
  str_eq_iff, if_cases, if_true, if_false, join, if◌then◌else◌,
}
use realy_code.Transcript.Message.{Block}
use realy_code.Transcript.Request.{Reading}
use realy_code.Chat.Messages.{
  OpenaiMessage, is_use_type, Spoken, on_assistant_block, on_assistant_blocks,
  convert_assistant_blocks, said,
}
use realy_code.Chat.Messages.Answered.{
  ref_ids, call_ids, called_ids, append-[], append_assoc, ref_ids-append,
}

abbrev pub use_step : Block → List String
use_step b = if is_use_type b.typ && not (str_eq b.id "" || str_eq b.name "") then b.id ∷ [] else []

pub called_ids-step :
    (b : Block) (bs : List Block) → called_ids (b ∷ bs) ≡ use_step b ++ called_ids bs
called_ids-step b bs = ground arith

assistant_block_calls :
    (b : Block) (s : Spoken)
    → ref_ids (on_assistant_block b s).calls ≡ ref_ids s.calls ++ use_step b
assistant_block_calls b s =
    if_cases (λ (x : Spoken). ref_ids x.calls ≡ ref_ids s.calls ++ use_step b) (str_eq b.typ "text")
      (λ e.
        if_cases (λ (x : Spoken). ref_ids x.calls ≡ ref_ids s.calls ++ use_step b) s.seen_tool
          (λ _. none_added (plain e)) (λ _. none_added (plain e)))
      (λ _.
        if_cases (λ (x : Spoken). ref_ids x.calls ≡ ref_ids s.calls ++ use_step b)
          (is_use_type b.typ)
          (λ u.
            if_cases (λ (x : Spoken). ref_ids x.calls ≡ ref_ids s.calls ++ use_step b)
              (str_eq b.id "" || str_eq b.name "")
              (λ e. none_added (if_false (b.id ∷ []) (ground arith)))
              (λ e.
                ref_ids-append s.calls _
                ∙ ap (λ ids. ref_ids s.calls ++ ids) (sym (if_true [] (ground arith)))))
          (λ u. none_added (if_false (b.id ∷ []) (ground arith))))
  where
    none_added : use_step b ≡ [] → ref_ids s.calls ≡ ref_ids s.calls ++ use_step b
    none_added e = sym (ap (λ ids. ref_ids s.calls ++ ids) e ∙ append-[] (ref_ids s.calls))

    plain : str_eq b.typ "text" ≡ true → use_step b ≡ []
    plain e = if_false (b.id ∷ []) (
        ap (λ typ. is_use_type typ && not (str_eq b.id "" || str_eq b.name ""))
          ((str_eq_iff b.typ "text").0 e))

assistant_blocks_calls :
    (bs : List Block) (s : Spoken)
    → ref_ids (on_assistant_blocks bs s).calls ≡ ref_ids s.calls ++ called_ids bs
assistant_blocks_calls [] s = sym (append-[] (ref_ids s.calls))
assistant_blocks_calls (b ∷ bs) s =
    assistant_blocks_calls bs (on_assistant_block b s)
    ∙ ap (λ ids. ids ++ called_ids bs) (assistant_block_calls b s)
    ∙ append_assoc (ref_ids s.calls) (use_step b) (called_ids bs)
    ∙ ap (λ ids. ref_ids s.calls ++ ids) (sym (called_ids-step b bs))

module _ (r : Reading) where
  call_ids-said : (s : Spoken) → call_ids (said r s) ≡ ref_ids s.calls
  call_ids-said s =
      if_cases (λ (ms : List OpenaiMessage). call_ids ms ≡ ref_ids s.calls)
        (str_eq (r.trim_space (join "\n\n" s.post_text)) "") (λ _. append-[] (ref_ids s.calls))
        (λ _. append-[] (ref_ids s.calls))

  -- The tool calls of a converted message of the assistant are exactly its tool uses that have an id
  -- and a name, in their order.
  pub convert_assistant_blocks_calls :
      (bs : List Block) → call_ids (convert_assistant_blocks r bs) ≡ called_ids bs
  unfolding convert_assistant_blocks
  convert_assistant_blocks_calls bs =
      call_ids-said (
        on_assistant_blocks bs
          (record { pre_text = []; post_text = []; calls = []; seen_tool = false }))
      ∙ assistant_blocks_calls bs
          (record { pre_text = []; post_text = []; calls = []; seen_tool = false })
