-- ===== src/Native/Policy/Opening.antt =====
-- Which blocks the policy of policy.go has open.
use realy_code.Common.{ℕ, String, ℤ, Bool, true, false, Option, some, List, ◌≡◌, none}
use realy_code.Json.{Fields, get_field, look, as_string, as_object}
use realy_code.Native.Blocks.{UpstreamBlock, NativePolicy, Codec, Answer, clone_map, find_block}

-- No block but that of `current` is open.
abbrev pub OnlyOpen : ℤ → List (ℤ × UpstreamBlock) → Type 0
OnlyOpen current bs =
    (k : ℤ) (b : UpstreamBlock) → find_block k bs ≡ some b → b.is_open ≡ true → k ≡ current

-- what `allocate` enters
abbrev pub new_block : Codec → ℕ → String → Option Fields → UpstreamBlock
new_block j n kind block = record {
  kind = kind;
  down_index = n;
  is_open = true;
  start = clone_map j block;
}

-- The block of `i` is the new one, and no other block is open.
abbrev Opens : Codec → NativePolicy → Fields → ℤ → Answer → Type 0
Opens j p payload i a =
    let block = as_object (get_field "content_block" payload) in
    (find_block i a.policy.by_upstream
      ≡ some (new_block j p.next_index (as_string (look "type" block)) block))
    × OnlyOpen i a.policy.by_upstream

-- whether the block of an upstream's number is open
abbrev open_in : Option UpstreamBlock → Bool
open_in none = false
open_in (some b) = b.is_open

abbrev pub is_open_at : ℤ → List (ℤ × UpstreamBlock) → Bool
is_open_at k bs = open_in (find_block k bs)
