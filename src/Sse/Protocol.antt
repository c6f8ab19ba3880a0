-- ===== src/Sse/Protocol.antt =====
-- The protocol that a client of the stream relies on, apart from the code that writes it.
use realy_code.Common.{ℕ, zero, suc, ◌+◌, ◌-◌, ℤ, ◌==ℤ◌, Option, none, some, List, [], ◌∷◌, bit}
use realy_code.Sse.Event.{Event, block_start, block_delta, block_stop}
use realy_code.Sse.Writer.{Frame, raw, event}

-- how many blocks are open under an index
abbrev pub OpenBlocks : Type 0
OpenBlocks = ℤ → ℕ

abbrev pub start_at : OpenBlocks → ℤ → ℕ → Option OpenBlocks
start_at o i zero = some (λ j. o j + bit (i ==ℤ j))
start_at o i (suc _) = none

abbrev pub stop_at : OpenBlocks → ℤ → ℕ → Option OpenBlocks
stop_at o i zero = none
stop_at o i (suc _) = some (λ j. o j - bit (i ==ℤ j))

abbrev pub delta_at : OpenBlocks → ℕ → Option OpenBlocks
delta_at o zero = none
delta_at o (suc _) = some o

-- A block starts under an index that no open block has; deltas and stops name an open block.
abbrev pub after : {J : Type 0} → OpenBlocks → Event J → Option OpenBlocks
after o (block_start i _) = start_at o i (o i)
after o (block_delta i _) = delta_at o (o i)
after o (block_stop i) = stop_at o i (o i)
after o _ = some o

-- The open blocks after the frames sent, the newest first; `none` if an event breaks the protocol.
abbrev pub accept : {J : Type 0} → List (Frame J) → Option OpenBlocks
accept [] = some (λ _. 0)
accept (raw _ ∷ sent) = accept sent
accept (event e ∷ sent) = elim (accept sent) [ none ↦ none | some o ↦ after o e ]
