-- ===== src/Sse/Builder/Endings.antt =====
-- How a message ends: `Finish` and `FinishWithError`.
use realy_code.Common.{
  ℕ, ◌+◌, String, ℤ, pos, ◌+ℤ◌, ◌==ℤ◌, Bool, true, false, not, ◌&&◌, ◌||◌, none, some, List, [],
  ◌∷◌, map, ◌≡◌, refl, ◌∙◌, arith, bit, str_eq, str_eq_iff, inl, inr, Bool-cases, Option-cases,
  if_false, ap,
}
use realy_code.Sse.Writer.{Connection}
use realy_code.Sse.Builder.{
  ToolState, Builder, find_tool, set_tool, send, close_text, close_thinking, ensure_text, open_text,
  estimate_output_tokens, emit_text, stop_found, stop_tool, close_each, close_all_tools, finish,
  finish_with_error,
}
use realy_code.Sse.Builder.Tools.{open_at, Unique, find_tool-id, Unique-set_tool}
use realy_code.Sse.Builder.Invariant.{open_count, Inv}
use realy_code.Sse.Builder.Run.{emit_text-Inv, message-Inv, ending-Inv}

-- whether a tool with this id is still to be visited
abbrev visits : List String → String → Bool
visits [] id = false
visits (k ∷ ks) id = str_eq k id || visits ks id

-- the open tools that are not visited
abbrev left_open : List String → List ToolState → ℤ → ℕ
left_open ks [] i = 0
left_open ks (t ∷ ts) i =
    bit (t.started && not (visits ks t.id) && (t.block_index ==ℤ i)) + left_open ks ts i

left_open-none : (ts : List ToolState) (i : ℤ) → left_open [] ts i ≡ open_at ts i
left_open-none [] i = refl
left_open-none (t ∷ ts) i = ground (arith, left_open-none ts i)

-- a tool that is not found, or found shut, need not be visited
left_open-missing :
    (k : String) (ks : List String) (ts : List ToolState) (i : ℤ)
    → find_tool k ts ≡ none
    → left_open ks ts i ≡ left_open (k ∷ ks) ts i
unfolding find_tool
left_open-missing k ks [] i h = refl
left_open-missing k ks (t ∷ ts) i h =
    ground (arith, left_open-missing k ks ts i, str_eq_iff t.id k, str_eq_iff k t.id)

left_open-set_tool :
    (k : String) (ks : List String) (t t' : ToolState) (ts : List ToolState) (i : ℤ)
    → find_tool k ts ≡ some t
    → t'.started ≡ false
    → Unique ts
    → left_open ks (set_tool k t' ts) i ≡ left_open (k ∷ ks) ts i
unfolding find_tool set_tool
left_open-set_tool k ks t t' [] i h s u = absurd (cc)
left_open-set_tool k ks t t' (x ∷ ts) i h s u = ground (
  arith,
  left_open-set_tool k ks t t' ts i,
  left_open-missing x.id ks ts i,
  str_eq_iff x.id k,
  str_eq_iff k x.id,
)

left_open-shut :
    (k : String) (ks : List String) (t : ToolState) (ts : List ToolState) (i : ℤ)
    → find_tool k ts ≡ some t
    → t.started ≡ false
    → Unique ts
    → left_open ks ts i ≡ left_open (k ∷ ks) ts i
unfolding find_tool
left_open-shut k ks t [] i h s u = absurd (cc)
left_open-shut k ks t (x ∷ ts) i h s u = ground (
  arith,
  left_open-shut k ks t ts i,
  left_open-missing x.id ks ts i,
  str_eq_iff x.id k,
  str_eq_iff k x.id,
)

left_open-all : (ts : List ToolState) (i : ℤ) → left_open (map (λ t. t.id) ts) ts i ≡ 0
left_open-all ts i = visited ts (map (λ t. t.id) ts) (λ id h. h)
  where
    visited :
        (us : List ToolState) (ks : List String)
        → ((id : String) → visits (map (λ t. t.id) us) id ≡ true → visits ks id ≡ true)
        → left_open ks us i ≡ 0
    visited [] ks h = refl
    visited (u ∷ us) ks h =
        ground (arith, h u.id, str_eq_iff u.id u.id, visited us ks (λ id m. h id (ground arith)))

module _ {J : Type 0} (conn : Connection J) where
  stop_tool-left_open :
      (b : Builder J) (k : String) (ks : List String) (i : ℤ)
      → Unique b.tools
      → left_open ks (stop_tool conn b k).tools i ≡ left_open (k ∷ ks) b.tools i
  unfolding stop_tool stop_found send
  stop_tool-left_open b k ks i u = elim (Option-cases (find_tool k b.tools)) [
    | inl missing ↦ simp missing (left_open-missing k ks b.tools i missing)
    | inr (t, found) ↦ elim (Bool-cases t.started) [
      | inl s ↦ simp (found, s) (left_open-set_tool k ks t _ b.tools i found refl u)
      | inr s ↦ simp (found, s) (left_open-shut k ks t b.tools i found s u)
    ]
  ]

  -- what a stop of a tool leaves alone
  stop_tool_keeps :
      (b : Builder J) (k : String)
      → Unique b.tools
      → Unique (stop_tool conn b k).tools
        × ((stop_tool conn b k).text_open ≡ b.text_open)
        × ((stop_tool conn b k).thinking_open ≡ b.thinking_open)
        × ((stop_tool conn b k).finished ≡ b.finished)
  unfolding stop_tool stop_found send
  stop_tool_keeps b k u = elim (Option-cases (find_tool k b.tools)) [
    | inl missing ↦ simp missing (u, refl, refl, refl)
    | inr (t, found) ↦ elim (Bool-cases t.started) [
      | inl s ↦
          simp (found, s)
            (
              Unique-set_tool k t (record t { started = false }) b.tools found
                  (find_tool-id k b.tools found) u,
              refl,
              refl,
              refl,
            )
      | inr s ↦ simp (found, s) (u, refl, refl, refl)
    ]
  ]

  close_each-open_at :
      (ks : List String) (b : Builder J) (i : ℤ)
      → Unique b.tools
      → (open_at (close_each conn b ks).tools i ≡ left_open ks b.tools i)
        × ((close_each conn b ks).text_open ≡ b.text_open)
        × ((close_each conn b ks).thinking_open ≡ b.thinking_open)
        × ((close_each conn b ks).finished ≡ b.finished)
  unfolding close_each
  close_each-open_at [] b i u = ground (arith, left_open-none b.tools i)
  close_each-open_at (k ∷ ks) b i u =
      let kept = stop_tool_keeps b k u in
      let rest = close_each-open_at ks (stop_tool conn b k) i kept.0 in
      (rest.0 ∙ stop_tool-left_open b k ks i u, rest.1 ∙ kept.1, rest.2 ∙ kept.2, rest.3 ∙ kept.3)

  close_both :
      (b : Builder J)
      → ((close_thinking conn (close_text conn b)).text_open ≡ false)
        × ((close_thinking conn (close_text conn b)).thinking_open ≡ false)
        × ((close_thinking conn (close_text conn b)).tools ≡ b.tools)
        × ((close_thinking conn (close_text conn b)).finished ≡ b.finished)
  unfolding close_text close_thinking send
  close_both b = ground arith

  -- after text, thinking and tools are closed no block is open
  closed :
      (b : Builder J) (i : ℤ)
      → Unique b.tools
      → (open_count (close_all_tools conn (close_thinking conn (close_text conn b))) i ≡ 0)
        × ((close_all_tools conn (close_thinking conn (close_text conn b))).finished ≡ b.finished)
  unfolding close_all_tools
  closed b i u =
      let c = close_thinking conn (close_text conn b) in
      let (no_text, no_thinking, same, flag) = close_both b in
      let (tools, text, thinking, finished) =
        close_each-open_at (map (λ t. t.id) c.tools) c i (rw same u) in
      (
        ground (arith, tools, text, thinking, no_text, no_thinking, left_open-all c.tools i),
        finished ∙ flag,
      )

  finish_result :
      (b : Builder J) (i : ℤ)
      → Inv b
      → b.finished ≡ false
      → (open_count (finish conn b) i ≡ 0) × ((finish conn b).finished ≡ true)
  unfolding finish send
  finish_result b i v f = simp f (closed (record b { finished = true }) i v.unique)

  finish_finished : (b : Builder J) → b.finished ≡ true → finish conn b ≡ b
  unfolding finish
  finish_finished b f = simp f

  finish_with_error_finished :
      (b : Builder J) (msg : String) → b.finished ≡ true → finish_with_error conn b msg ≡ b
  unfolding finish_with_error
  finish_with_error_finished b msg f = simp f

  -- `Finish` on a message that is not finished: no block stays open, the message counts as
  -- finished, and a later `Finish` or `FinishWithError` does nothing.
  pub finish_closes :
      (b : Builder J) (msg : String) (i : ℤ)
      → Inv b
      → b.finished ≡ false
      → (open_count (finish conn b) i ≡ 0)
        × ((finish conn b).finished ≡ true)
        × (finish conn (finish conn b) ≡ finish conn b)
        × (finish_with_error conn (finish conn b) msg ≡ finish conn b)
  finish_closes b msg i v f = (
    (finish_result b i v f).0,
    (finish_result b i v f).1,
    finish_finished (finish conn b) (finish_result b i v f).1,
    finish_with_error_finished (finish conn b) msg (finish_result b i v f).1,
  )

  finished-emit_text : (b : Builder J) (msg : String) → (emit_text conn b msg).finished ≡ b.finished
  unfolding emit_text ensure_text open_text close_thinking send
  finished-emit_text b msg = ground arith

  -- the message that `FinishWithError` finishes, once the error is told as text
  abbrev told : Builder J → String → Builder J
  told b msg =
      let e = emit_text conn (record b { error_message = msg }) msg in
      record e {
        output_tokens = e.output_tokens +ℤ pos (estimate_output_tokens msg);
        stop_reason = "end_turn";
      }

  told-Inv : (b : Builder J) (msg : String) → Inv b → Inv (told b msg)
  told-Inv b msg v = ending-Inv conn _ _ (emit_text-Inv conn msg (message-Inv conn msg v))

  finish_with_error_started :
      (b : Builder J) (msg : String)
      → b.finished ≡ false
      → b.started ≡ true
      → finish_with_error conn b msg ≡ finish conn (told b msg)
  unfolding finish_with_error
  finish_with_error_started b msg f s = if_false _ f ∙ if_false _ (ap not s)

  -- `FinishWithError` on a message that was started and is not finished: the message counts as
  -- finished and no block stays open, whatever the state of the blocks before.
  pub finish_with_error_closes :
      (b : Builder J) (msg : String) (i : ℤ)
      → Inv b
      → b.finished ≡ false
      → b.started ≡ true
      → (open_count (finish_with_error conn b msg) i ≡ 0)
        × ((finish_with_error conn b msg).finished ≡ true)
  finish_with_error_closes b msg i v f s = rw (finish_with_error_started b msg f s) (
      finish_result (told b msg) i (told-Inv b msg v)
        (finished-emit_text (record b { error_message = msg }) msg ∙ f))
