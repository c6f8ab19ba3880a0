-- ===== src/Sse/Builder/Invariant.antt =====
-- The invariant of the builder: its open blocks are those of the stream, and no index is shared.
-- One lemma for each step that sends an event about a block.
use realy_code.Common.{
  ℕ, ◌+◌, ◌≤◌, ◌<◌, String, ℤ, pos, ◌==ℤ◌, ==ℤ_iff, true, false, ◌&&◌, some, ◌≡◌, refl, arith, bit,
  inl, inr, Bool-cases,
}
use realy_code.Sse.Event.{Delta, Event, block_delta, text_block, thinking_block, tool_block}
use realy_code.Sse.Protocol.{after}
use realy_code.Sse.Writer.{Connection, Writer}
use realy_code.Sse.Agreement.{
  Agrees, Agrees-ext, Agrees-start, Agrees-stop, Agrees-delta, Agrees-other,
}
use realy_code.Sse.Builder.{
  ToolState, Builder, find_tool, set_tool, send, close_text, close_thinking, open_text,
  open_thinking, begin_tool, stop_found,
}
use realy_code.Sse.Builder.Tools.{
  tools_at, open_at, Unique, find_tool-id, tools_at-set_tool, open_at-set_tool, Unique-set_tool,
  open_at-le-tools_at, found_counts,
}

-- the blocks with index `i` that are open, and those that are open or belong to a tool
module _ {J : Type 0} where
  abbrev pub open_count : Builder J → ℤ → ℕ
  open_count b i =
      bit (b.text_open && (b.text_index ==ℤ i))
      + bit (b.thinking_open && (b.thinking_index ==ℤ i))
      + open_at b.tools i

  abbrev pub slot_count : Builder J → ℤ → ℕ
  slot_count b i =
      bit (b.text_open && (b.text_index ==ℤ i))
      + bit (b.thinking_open && (b.thinking_index ==ℤ i))
      + tools_at b.tools i

pub record Inv {J : Type 0} (b : Builder J) : Type 0 where
  pub agrees : Agrees b.w (open_count b)
  pub once : (i : ℤ) → slot_count b i ≤ 1
  pub fresh : (n : ℕ) → b.next_index ≤ n → slot_count b (pos n) ≡ 0
  pub unique : Unique b.tools

pub ==ℤ_refl : (i : ℤ) → (i ==ℤ i) ≡ true
==ℤ_refl i = (==ℤ_iff i i).1 refl

module _ {J : Type 0} (conn : Connection J) {b : Builder J} (v : Inv b) where
  pub close_text-Inv : Inv (close_text conn b)
  unfolding close_text send
  close_text-Inv = elim (Bool-cases b.text_open) [
    | inl o ↦ simp o (record {
      agrees =
          Agrees-ext _
            (Agrees-stop conn b.text_index v.agrees (ground (arith, ==ℤ_refl b.text_index)))
            (λ i. ground arith);
      once = λ i. ground (arith, v.once i);
      fresh = λ n h. ground (arith, v.fresh n h);
      unique = v.unique;
    })
    | inr o ↦ simp o v
  ]

  pub close_thinking-Inv : Inv (close_thinking conn b)
  unfolding close_thinking send
  close_thinking-Inv = elim (Bool-cases b.thinking_open) [
    | inl o ↦ simp o (record {
      agrees =
          Agrees-ext _
            (Agrees-stop conn b.thinking_index v.agrees (ground (arith, ==ℤ_refl b.thinking_index)))
            (λ i. ground arith);
      once = λ i. ground (arith, v.once i);
      fresh = λ n h. ground (arith, v.fresh n h);
      unique = v.unique;
    })
    | inr o ↦ simp o v
  ]

  -- no block of any kind is open under the next index
  pub next_free : open_count b (pos b.next_index) ≡ 0
  next_free = ground (arith, v.fresh b.next_index, open_at-le-tools_at b.tools (pos b.next_index))

  pub open_text-Inv : b.text_open ≡ false → Inv (open_text conn b)
  unfolding open_text send
  open_text-Inv o = record {
    agrees =
        Agrees-ext _ (Agrees-start conn (pos b.next_index) text_block v.agrees next_free)
          (λ i. ground arith);
    once = λ i. ground (arith, v.once i, v.fresh b.next_index, ==ℤ_iff (pos b.next_index) i);
    fresh = λ n h. ground (arith, v.fresh n);
    unique = v.unique;
  }

  pub open_thinking-Inv : b.thinking_open ≡ false → Inv (open_thinking conn b)
  unfolding open_thinking send
  open_thinking-Inv o = record {
    agrees =
        Agrees-ext _ (Agrees-start conn (pos b.next_index) thinking_block v.agrees next_free)
          (λ i. ground arith);
    once = λ i. ground (arith, v.once i, v.fresh b.next_index, ==ℤ_iff (pos b.next_index) i);
    fresh = λ n h. ground (arith, v.fresh n);
    unique = v.unique;
  }

  pub delta-Inv : (i : ℤ) (d : Delta) → 0 < open_count b i → Inv (send conn b (block_delta i d))
  unfolding send
  delta-Inv i d h = record {
    agrees = Agrees-delta conn i d v.agrees h;
    once = v.once;
    fresh = v.fresh;
    unique = v.unique;
  }

  pub other-Inv : (e : Event J) → ((o : ℤ → ℕ) → after o e ≡ some o) → Inv (send conn b e)
  unfolding send
  other-Inv e same = record {
    agrees = Agrees-other conn e same v.agrees;
    once = v.once;
    fresh = v.fresh;
    unique = v.unique;
  }

  -- The tool `t` that `call_id` names is replaced by one under the same id and index.
  module _ (call_id : String) (t : ToolState) (found : find_tool call_id b.tools ≡ some t) where
    same_slots :
        (t' : ToolState)
        → t'.block_index ≡ t.block_index
        → (i : ℤ) → slot_count (record b { tools = set_tool call_id t' b.tools }) i ≡ slot_count b i
    same_slots t' e i = ground (arith, tools_at-set_tool call_id t t' b.tools i found)

    pub set_tool-Inv :
        (t' : ToolState) (w : Writer J)
        → t'.block_index ≡ t.block_index
        → t'.id ≡ call_id
        → Agrees w (open_count (record b { tools = set_tool call_id t' b.tools }))
        → Inv (record b { w = w; tools = set_tool call_id t' b.tools })
    set_tool-Inv t' w e k a = record {
      agrees = a;
      once = λ i. omega (arith, v.once i, same_slots t' e i);
      fresh = λ n h. omega (arith, v.fresh n h, same_slots t' e (pos n));
      unique = Unique-set_tool call_id t t' b.tools found k v.unique;
    }

    pub found_id : t.id ≡ call_id
    found_id = find_tool-id call_id b.tools found

    -- an open tool is open in the stream, and a closed one is not
    pub open_tool : open_count b t.block_index ≡ bit t.started
    open_tool = ground (
      arith,
      found_counts call_id b.tools t t.block_index found,
      v.once t.block_index,
      ==ℤ_refl t.block_index,
    )

    pub begin_tool-Inv : (typ : String) (input : J) → Inv (begin_tool conn b t call_id typ input)
    unfolding begin_tool send
    begin_tool-Inv typ input = elim (Bool-cases t.started) [
      | inl s ↦ simp s v
      | inr s ↦ simp s (
          set_tool-Inv (record t { started = true }) _ refl found_id
            (Agrees-ext _
              (Agrees-start conn t.block_index (tool_block typ t.id t.name input) v.agrees
                (ground (arith, open_tool)))
              (λ i.
                ground (
                  arith,
                  open_at-set_tool call_id t (record t { started = true }) b.tools i found,
                ))))
    ]

    pub stop_found-Inv : Inv (stop_found conn b (some t) call_id)
    unfolding stop_found send
    stop_found-Inv = elim (Bool-cases t.started) [
      | inl s ↦ simp s (
          set_tool-Inv (record t { started = false }) _ refl found_id
            (Agrees-ext _ (Agrees-stop conn t.block_index v.agrees (ground (arith, open_tool)))
              (λ i. ground (
                arith,
                open_at-set_tool call_id t (record t { started = false }) b.tools i found,
              ))))
      | inr s ↦ simp s v
    ]
