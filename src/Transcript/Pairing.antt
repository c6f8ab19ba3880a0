-- ===== src/Transcript/Pairing.antt =====
-- What a paired transcript is, apart from the code that makes one, and the counts of ids that the
-- functions on blocks give.
pub mod Counts
pub mod Loop
use realy_code.Common.{
  ℕ, ◌+◌, String, Bool, true, false, ◌≡◌, List, [], ◌∷◌, bit, str_eq, if◌then◌else◌,
}
use realy_code.Transcript.Message.{Block, Message, blocks_of}
use realy_code.Transcript.Blocks.{member}
use realy_code.Transcript.Repair.{is_user, is_assistant}

abbrev pub count : String → List String → ℕ
count k [] = 0
count k (j ∷ js) = bit (str_eq j k) + count k js

-- the ids of the blocks of one type: of all tool results, of all tool uses
abbrev pub result_ids : List Block → List String
result_ids [] = []
result_ids (b ∷ bs) =
    let rest = result_ids bs in if str_eq b.typ "tool_result" then b.tool_use_id ∷ rest else rest

abbrev pub use_ids : List Block → List String
use_ids [] = []
use_ids (b ∷ bs) = let rest = use_ids bs in if str_eq b.typ "tool_use" then b.id ∷ rest else rest

-- The blocks hold one result for each id that is owed, and no other result.
abbrev pub Answers : List String → List Block → Type 0
Answers owed bs = (k : String) → count k (result_ids bs) ≡ bit (member k owed)

-- Each message of the assistant is followed by a message of the user that answers its tool uses; a
-- message of the user answers no other. `owed` are the uses of the message before.
pub data Paired : List String → List Message → Type 0 where
  done : Paired [] []
  user :
      {owed : List String} {m : Message} {ms : List Message}
      → is_user m ≡ true
      → Answers owed (blocks_of m)
      → Paired [] ms
      → Paired owed (m ∷ ms)
  assistant :
      {m : Message} {ms : List Message}
      → is_assistant m ≡ true
      → Paired (use_ids (blocks_of m)) ms
      → Paired [] (m ∷ ms)
  other :
      {m : Message} {ms : List Message}
      → is_user m ≡ false
      → is_assistant m ≡ false
      → Paired [] ms
      → Paired [] (m ∷ ms)

-- the tool uses of all messages of the assistant
abbrev pub transcript_uses : List Message → String → ℕ
transcript_uses [] k = 0
transcript_uses (m ∷ ms) k =
    (if is_assistant m then count k (use_ids (blocks_of m)) else 0) + transcript_uses ms k
