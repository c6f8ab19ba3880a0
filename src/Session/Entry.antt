-- ===== src/Session/Entry.antt =====
-- `Entry`, `Lookup` and the pure helpers of internal/session/session.go. Times are numbers of
-- nanoseconds. What the code computes with SHA-256 and `encoding/json` is a parameter.
use realy_code.Common.{
  ℕ, String, ℤ, Bool, false, not, ◌&&◌, ◌||◌, Option, none, some, List, [], ◌∷◌, str_eq, all_of,
  length, leb, ◌==◌, if◌then◌else◌,
}
use realy_code.Transcript.Message.{Block, Message, of_blocks, as_blocks, blocks_of}
use realy_code.Transcript.Repair.{is_user}

pub record Entry : Type 0 where
  pub key : String
  pub parent_key : String
  pub provider : String
  pub upstream_model : String
  pub session_id : String
  pub tools_hash : String
  pub instructions_hash : String
  pub message_count : ℕ
  pub last_message : Message
  pub response_id : String
  pub call_kinds : List (String × String)
  pub last_used : ℕ
  pub output_tokens : ℤ
  pub input_tokens : ℤ

pub record Lookup : Type 0 where
  -- the key and the entry of `Chain`, `none` for nil
  pub chain : Option (String × Entry)
  pub tail : List Message
  pub full_replay_reason : String
  pub new_key : String
  pub new_parent_key : String
  pub new_last_message : Message
  pub session_id : String
  pub tools_hash : String
  pub instructions_hash : String

-- What a request is matched by: provider, model, conversation, tools and instructions.
pub record Scope : Type 0 where
  pub provider : String
  pub upstream_model : String
  pub session_id : String
  pub tools_hash : String
  pub instructions_hash : String

-- the two tests that both searches make of an entry
unfoldable pub in_scope : Scope → Entry → Bool
in_scope s e =
    str_eq e.provider s.provider
    && str_eq e.upstream_model s.upstream_model
    && str_eq e.session_id s.session_id
    && str_eq e.tools_hash s.tools_hash
    && str_eq e.instructions_hash s.instructions_hash

unfoldable pub chainable_tail : List Message → Bool
chainable_tail [] = false
chainable_tail (m ∷ ms) = all_of is_user (m ∷ ms)

-- The blocks of `current` behind those of `previous`, if these come first. `same_block` compares the
-- canonical JSON of two blocks.
module _ (same_block : Block → Block → Bool) where
  unfoldable pub blocks_behind : List Block → List Block → Option (List Block)
  blocks_behind [] rest = some rest
  blocks_behind (p ∷ ps) [] = none
  blocks_behind (p ∷ ps) (c ∷ cs) =
      let rest = blocks_behind ps cs in if not (same_block p c) then none else rest

  unfoldable pub appended_user_tail : Message → Message → Option Message
  unfolding blocks_behind as_blocks
  appended_user_tail previous current =
      if not (is_user previous) || not (is_user current)
      then none
      else (let prev = blocks_of previous in
          let cur = blocks_of current in
          if (length prev == 0) || leb (length cur) (length prev)
          then none
          else elim (blocks_behind prev cur) [
            | none ↦ none
            | some rest ↦ some (record { role = "user"; content = of_blocks (some rest) })
          ])
