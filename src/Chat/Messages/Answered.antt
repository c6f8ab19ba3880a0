-- ===== src/Chat/Messages/Answered.antt =====
-- The tool calls and their results after the conversion.
use realy_code.Common.{
  String, Bool, true, false, not, ◌&&◌, ◌||◌, List, [], ◌∷◌, ◌++◌, ◌≡◌, refl, sym, ◌∙◌, ap, arith,
  str_eq, str_eq_iff, if_cases, if_false, if◌then◌else◌,
}
use mathlib.Core.Path.{subst}
use realy_code.Transcript.Message.{Block}
use realy_code.Transcript.Request.{Result, ok, err, Reading, image_data_url}
use realy_code.Chat.Messages.{
  OpenaiMessage, ToolRef, ContentPart, Pending, flush, append_text, ensure_parts, with_image,
  with_result, parts_message, text_message, tool_message, is_result_type, is_use_type, answer_text,
  on_user_block, on_user_blocks, convert_user_blocks, flushed,
}

-- the ids that the messages of the role "tool" answer
abbrev pub tool_ids : List OpenaiMessage → List String
tool_ids [] = []
tool_ids (m ∷ ms) =
    let rest = tool_ids ms in if str_eq m.role "tool" then m.tool_call_id ∷ rest else rest

-- the ids of the tool calls
abbrev pub ref_ids : List ToolRef → List String
ref_ids [] = []
ref_ids (t ∷ ts) = t.id ∷ ref_ids ts

abbrev pub call_ids : List OpenaiMessage → List String
call_ids [] = []
call_ids (m ∷ ms) = ref_ids m.tool_calls ++ call_ids ms

-- the results among the blocks that name a tool use
abbrev pub answered_ids : List Block → List String
answered_ids [] = []
answered_ids (b ∷ bs) =
    let rest = answered_ids bs in
    if is_result_type b.typ && not (str_eq b.tool_use_id "") then b.tool_use_id ∷ rest else rest

-- the tool uses among the blocks that have an id and a name
abbrev pub called_ids : List Block → List String
called_ids [] = []
called_ids (b ∷ bs) =
    let rest = called_ids bs in
    if is_use_type b.typ && not (str_eq b.id "" || str_eq b.name "") then b.id ∷ rest else rest

pub append-[] : {A : Type 0} (xs : List A) → xs ++ [] ≡ xs
append-[] [] = refl
append-[] (x ∷ xs) = ap (λ ys. x ∷ ys) (append-[] xs)

pub append_assoc : {A : Type 0} (xs ys zs : List A) → (xs ++ ys) ++ zs ≡ xs ++ (ys ++ zs)
append_assoc [] ys zs = refl
append_assoc (x ∷ xs) ys zs = ap (λ us. x ∷ us) (append_assoc xs ys zs)

tool_ids-append : (ms ns : List OpenaiMessage) → tool_ids (ms ++ ns) ≡ tool_ids ms ++ tool_ids ns
tool_ids-append [] ns = refl
tool_ids-append (m ∷ ms) ns = ground (arith, tool_ids-append ms ns)

pub ref_ids-append : (ts us : List ToolRef) → ref_ids (ts ++ us) ≡ ref_ids ts ++ ref_ids us
ref_ids-append [] us = refl
ref_ids-append (t ∷ ts) us = ap (λ ids. t.id ∷ ids) (ref_ids-append ts us)

parts_message-plain : (cs : List ContentPart) → tool_ids (parts_message cs) ≡ []
parts_message-plain [] = refl
parts_message-plain (c ∷ cs) = refl

text_message-plain : (ss : List String) → tool_ids (text_message ss) ≡ []
text_message-plain [] = refl
text_message-plain (s ∷ ss) = refl

tool_ids-flush : (p : Pending) → tool_ids (flush p).out ≡ tool_ids p.out
tool_ids-flush p =
    if_cases (λ (q : Pending). tool_ids q.out ≡ tool_ids p.out) p.using_parts
      (λ _.
        tool_ids-append p.out (parts_message p.content_parts)
        ∙ ap (λ ids. tool_ids p.out ++ ids) (parts_message-plain p.content_parts)
        ∙ append-[] (tool_ids p.out))
      (λ _.
        tool_ids-append p.out (text_message p.text_parts)
        ∙ ap (λ ids. tool_ids p.out ++ ids) (text_message-plain p.text_parts)
        ∙ append-[] (tool_ids p.out))

out-append_text : (s : String) (p : Pending) → (append_text s p).out ≡ p.out
out-append_text s p = ground arith

out-ensure_parts : (p : Pending) → (ensure_parts p).out ≡ p.out
out-ensure_parts p = ground arith

-- what one block adds
abbrev pub step_ids : Block → List String
step_ids b =
    if is_result_type b.typ && not (str_eq b.tool_use_id "") then b.tool_use_id ∷ [] else []

pub answered_ids-step :
    (b : Block) (bs : List Block) → answered_ids (b ∷ bs) ≡ step_ids b ++ answered_ids bs
answered_ids-step b bs = ground arith

-- Blocks of another type add nothing.
step_ids-typ :
    (b : Block) (typ : String)
    → str_eq b.typ typ ≡ true
    → is_result_type typ ≡ false
    → step_ids b ≡ []
step_ids-typ b typ e plain = if_false (b.tool_use_id ∷ []) (
    ap (λ t. t && not (str_eq b.tool_use_id ""))
      (ap is_result_type ((str_eq_iff b.typ typ).0 e) ∙ plain))

abbrev Holds : List String → Result Pending → Type 0
Holds ids (err why) = Unit
Holds ids (ok p) = tool_ids p.out ≡ ids

with_image-Holds : (p : Pending) (u : Result String) → Holds (tool_ids p.out ++ []) (with_image p u)
with_image-Holds p (err why) = tt
with_image-Holds p (ok url) = ap tool_ids (out-ensure_parts p) ∙ sym (append-[] (tool_ids p.out))

with_result-Holds :
    (id : String) (p : Pending) (u : Result String)
    → Holds (tool_ids p.out ++ id ∷ []) (with_result id (flush p) u)
with_result-Holds id p (err why) = tt
with_result-Holds id p (ok text) =
    tool_ids-append (flush p).out (tool_message id text ∷ [])
    ∙ ap (λ ids. ids ++ id ∷ []) (tool_ids-flush p)

module _ (r : Reading) (compact : Bool) where
  result_block-Holds :
      (b : Block) (p : Pending)
      → is_result_type b.typ ≡ true
      → Holds (tool_ids p.out ++ step_ids b) (
          if str_eq b.tool_use_id ""
          then ok p
          else with_result b.tool_use_id (flush p) (answer_text r b compact))
  result_block-Holds b p h =
      if_cases (λ (x : Result Pending). Holds (tool_ids p.out ++ step_ids b) x)
        (str_eq b.tool_use_id "")
        (λ e.
          let nothing : step_ids b ≡ [] = ground arith in
          sym (ap (λ ids. tool_ids p.out ++ ids) nothing ∙ append-[] (tool_ids p.out)))
        (λ e.
          let one : step_ids b ≡ b.tool_use_id ∷ [] = ground arith in
          subst
            (λ ids.
              Holds (tool_ids p.out ++ ids)
                (with_result b.tool_use_id (flush p) (answer_text r b compact)))
            (sym one) (with_result-Holds b.tool_use_id p (answer_text r b compact)))

  unchanged_ids :
      (b : Block) (p : Pending) → step_ids b ≡ [] → tool_ids p.out ≡ tool_ids p.out ++ step_ids b
  unchanged_ids b p e = sym (ap (λ ids. tool_ids p.out ++ ids) e ∙ append-[] (tool_ids p.out))

  user_block-Holds :
      (b : Block) (p : Pending)
      → Holds (tool_ids p.out ++ step_ids b) (on_user_block r compact b (ok p))
  user_block-Holds b p =
      if_cases (λ (x : Result Pending). Holds (tool_ids p.out ++ step_ids b) x)
        (str_eq b.typ "text")
        (λ e.
          ap tool_ids (out-append_text b.text p) ∙ unchanged_ids b p (step_ids-typ b "text" e refl))
        (λ _.
          if_cases (λ (x : Result Pending). Holds (tool_ids p.out ++ step_ids b) x)
            (str_eq b.typ "image")
            (λ e.
              subst (λ ids. Holds (tool_ids p.out ++ ids) (with_image p (image_data_url r b)))
                (sym (step_ids-typ b "image" e refl)) (with_image-Holds p (image_data_url r b)))
            (λ _.
              if_cases (λ (x : Result Pending). Holds (tool_ids p.out ++ step_ids b) x)
                (is_result_type b.typ) (result_block-Holds b p)
                (λ e. let nothing : step_ids b ≡ [] = ground arith in unchanged_ids b p nothing)))

  on_user_block-Holds :
      (b : Block) (p : Result Pending) (ids : List String)
      → Holds ids p
      → Holds (ids ++ step_ids b) (on_user_block r compact b p)
  on_user_block-Holds b (err why) ids h = tt
  on_user_block-Holds b (ok p) ids h =
      subst (λ js. Holds (js ++ step_ids b) (on_user_block r compact b (ok p))) h
        (user_block-Holds b p)

  on_user_blocks-Holds :
      (bs : List Block) (p : Result Pending) (ids : List String)
      → Holds ids p
      → Holds (ids ++ answered_ids bs) (on_user_blocks r compact bs p)
  on_user_blocks-Holds [] p ids h = subst (λ js. Holds js p) (sym (append-[] ids)) h
  on_user_blocks-Holds (b ∷ bs) p ids h =
      subst (λ js. Holds js (on_user_blocks r compact bs (on_user_block r compact b p)))
        (append_assoc ids (step_ids b) (answered_ids bs)
          ∙ ap (λ js. ids ++ js) (sym (answered_ids-step b bs)))
        (on_user_blocks-Holds bs (on_user_block r compact b p) (ids ++ step_ids b)
          (on_user_block-Holds b p ids h))

  flushed-answers :
      (p : Result Pending) (ids : List String) (ms : List OpenaiMessage)
      → Holds ids p
      → flushed r p ≡ ok ms
      → tool_ids ms ≡ ids
  flushed-answers (err why) ids ms h e = absurd (cc)
  flushed-answers (ok p) ids ms h e = ap tool_ids (sym (ok_inj e)) ∙ tool_ids-flush p ∙ h
    where
      ok_inj : {xs ys : List OpenaiMessage} → ok xs ≡ ok ys → xs ≡ ys
      ok_inj q = cc

  -- Where the blocks of a user's message are converted, the messages of the role "tool" answer exactly
  -- the tool uses that the results among the blocks name, in their order.
  pub convert_user_blocks_answers :
      (bs : List Block) (ms : List OpenaiMessage)
      → convert_user_blocks r bs compact ≡ ok ms
      → tool_ids ms ≡ answered_ids bs
  unfolding convert_user_blocks
  convert_user_blocks_answers bs ms e =
      flushed-answers
        (on_user_blocks r compact bs
          (ok (record { out = []; text_parts = []; content_parts = []; using_parts = false })))
        (answered_ids bs) ms
        (on_user_blocks-Holds bs
          (ok (record { out = []; text_parts = []; content_parts = []; using_parts = false })) []
          refl)
        e
