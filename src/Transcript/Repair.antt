-- ===== src/Transcript/Repair.antt =====
-- `NormalizeMessagesForUpstream` and `NormalizePreviousResponseTail` of
-- internal/anthropic/types.go. A loop that appends to `out` is a function that returns what it
-- appends; `fresh` says that `out` is still empty.
use realy_code.Common.{
  String, Bool, true, false, not, ◌&&◌, ◌||◌, Option, none, some, List, [], ◌∷◌, ◌++◌, map, str_eq,
  keep_if, if◌then◌else◌,
}
use realy_code.Transcript.Message.{
  Slice, elems, Block, text_block, Message, of_blocks, as_blocks, blocks_of,
}
use realy_code.Transcript.Blocks.{
  Json, is_thinking_block, all_thinking_blocks, has_tool_results, member, strip_tool_results,
  tool_result_ids, synthetic_tool_result, prepare_blocks,
}

abbrev pub is_user : Message → Bool
is_user m = str_eq m.role "user"

abbrev pub is_assistant : Message → Bool
is_assistant m = str_eq m.role "assistant"

unfoldable pub filter_orphaned_thinking_only_messages : List Message → List Message
unfolding all_thinking_blocks
filter_orphaned_thinking_only_messages =
    keep_if (λ m. not (is_assistant m) || not (all_thinking_blocks (blocks_of m)))

abbrev put_before : Block → List Block → List Block
put_before b [] = if is_thinking_block b then [] else b ∷ []
put_before b (c ∷ cs) = b ∷ c ∷ cs

-- `blocks[:idx+1]`: the blocks up to the last that is not thinking
unfoldable pub drop_trailing_thinking : List Block → List Block
unfolding is_thinking_block
drop_trailing_thinking [] = []
drop_trailing_thinking (b ∷ bs) = put_before b (drop_trailing_thinking bs)

abbrev ends_with_thinking : List Block → Bool
ends_with_thinking [] = false
ends_with_thinking (b ∷ []) = is_thinking_block b
ends_with_thinking (b ∷ c ∷ cs) = ends_with_thinking (c ∷ cs)

-- what the code puts where nothing would be left
abbrev pub or_note : String → List Block → List Block
or_note note [] = text_block note ∷ []
or_note note (b ∷ bs) = b ∷ bs

trim_last : Message → Message
unfolding drop_trailing_thinking
trim_last m =
    if is_assistant m && ends_with_thinking (blocks_of m)
    then record m {
      content =
          of_blocks (some (or_note "[No message content]" (drop_trailing_thinking (blocks_of m))));
    }
    else m

unfoldable pub filter_trailing_thinking_from_last_assistant : List Message → List Message
unfolding trim_last
filter_trailing_thinking_from_last_assistant [] = []
filter_trailing_thinking_from_last_assistant (m ∷ []) = trim_last m ∷ []
filter_trailing_thinking_from_last_assistant (m ∷ n ∷ ms) =
    m ∷ filter_trailing_thinking_from_last_assistant (n ∷ ms)

-- the tool uses that the loop keeps: the blocks, the ids, and all ids seen so far
pub record Uses : Type 0 where
  pub kept : List Block
  pub ids : List String
  pub seen : List String

unfoldable pub keep_uses : List String → List Block → Uses
keep_uses seen [] = record { kept = []; ids = []; seen = seen }
keep_uses seen (b ∷ bs) =
    let rest = keep_uses seen bs in
    let used = keep_uses (b.id ∷ seen) bs in
    if str_eq b.typ "tool_use"
    then (if str_eq b.id "" || str_eq b.name "" || member b.id seen
        then rest
        else record used { kept = b ∷ used.kept; ids = b.id ∷ used.ids })
    else record rest { kept = b ∷ rest.kept }

abbrev pub with_blocks : Message → List Block → Message
with_blocks m bs = record m { content = of_blocks (some bs) }

-- the synthetic results for the uses without a result, then the blocks of the next message
unfoldable pub patched : List String → List Block → List Block
patched ids next =
    map synthetic_tool_result (keep_if (λ id. not (member id (tool_result_ids next))) ids)
    ++ strip_tool_results next (some ids)

abbrev pub synthetic_message : List String → Message
synthetic_message ids = record {
  role = "user";
  content = of_blocks (some (map synthetic_tool_result ids));
}

module _ (json : Json) (preserve_server_tools preserve_tool_search : Bool) where
  abbrev pub prepared : Message → Slice Block
  prepared m = prepare_blocks json preserve_server_tools preserve_tool_search (as_blocks m.content)

  orphan_note : Bool → String
  orphan_note fresh =
      if fresh
      then "[Orphaned tool result removed due to conversation resume]"
      else "[No message content]"

  -- the blocks of a message that is not the assistant's
  unfoldable pub other_blocks : Bool → Message → Slice Block
  unfolding orphan_note
  other_blocks fresh m =
      let blocks = prepared m in
      if is_user m && has_tool_results (elems blocks)
      then some (or_note (orphan_note fresh) (strip_tool_results (elems blocks) none))
      else blocks

  abbrev is_empty : List Block → Bool
  is_empty [] = true
  is_empty (_ ∷ _) = false

  unfoldable pub keep_other : Bool → Message → Option Message
  unfolding other_blocks
  keep_other fresh m =
      let blocks = other_blocks fresh m in
      if not (is_empty (elems blocks)) || not (is_user m)
      then some (record m { content = of_blocks blocks })
      else none

  -- What follows an assistant's message with the uses `ids`: `go_on` continues at the next message,
  -- `skip` behind it (`i++`).
  unfoldable pub answer_uses :
      List String → Option Message → List Message → List Message → List Message
  unfolding patched
  answer_uses [] next go_on skip = go_on
  answer_uses (k ∷ ks) none go_on skip = synthetic_message (k ∷ ks) ∷ go_on
  answer_uses (k ∷ ks) (some next) go_on skip =
      if is_user next
      then with_blocks next
          (or_note "[No message content]" (patched (k ∷ ks) (elems (prepared next))))
        ∷ skip
      else synthetic_message (k ∷ ks) ∷ go_on

  abbrev pub after_other :
      Option Message → Bool → List String → (Bool → List String → List Message) → List Message
  after_other none fresh seen go_on = go_on fresh seen
  after_other (some m) fresh seen go_on = m ∷ go_on false seen

  -- one turn of the loop
  unfoldable pub pair_step :
      Bool
      → List String
      → Message
      → Option Message
      → (Bool → List String → List Message)
      → (List String → List Message)
      → List Message
  unfolding keep_other keep_uses answer_uses
  pair_step fresh seen m next go_on skip =
      if is_assistant m
      then (let uses = keep_uses seen (elems (prepared m)) in
          with_blocks m (or_note "[Tool use interrupted]" uses.kept)
          ∷ answer_uses uses.ids next (go_on false uses.seen) (skip uses.seen))
      else after_other (keep_other fresh m) fresh seen go_on

  unfoldable pub pair_from : Bool → List String → List Message → List Message
  unfolding pair_step
  pair_from fresh seen [] = []
  pair_from fresh seen (m ∷ []) = pair_step fresh seen m none (λ f s. []) (λ s. [])
  pair_from fresh seen (m ∷ n ∷ ms) =
      pair_step fresh seen m (some n) (λ f s. pair_from f s (n ∷ ms)) (λ s. pair_from false s ms)

  unfoldable pub ensure_tool_result_pairing : List Message → List Message
  unfolding pair_from
  ensure_tool_result_pairing ms = pair_from true [] ms

  unfoldable pub normalize_messages_for_upstream : List Message → List Message
  unfolding ensure_tool_result_pairing filter_trailing_thinking_from_last_assistant
      filter_orphaned_thinking_only_messages
  normalize_messages_for_upstream ms =
      ensure_tool_result_pairing
        (filter_trailing_thinking_from_last_assistant (filter_orphaned_thinking_only_messages ms))

  tail_messages : List Message → List Message
  tail_messages [] = []
  tail_messages (m ∷ ms) =
      let rest = tail_messages ms in
      if is_empty (elems (prepared m)) && is_user m
      then rest
      else record m { content = of_blocks (prepared m) } ∷ rest

  unfoldable pub normalize_previous_response_tail : List Message → List Message
  unfolding tail_messages filter_trailing_thinking_from_last_assistant
      filter_orphaned_thinking_only_messages
  normalize_previous_response_tail ms =
      tail_messages
        (filter_trailing_thinking_from_last_assistant (filter_orphaned_thinking_only_messages ms))
