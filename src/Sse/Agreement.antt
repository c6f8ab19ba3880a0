-- ===== src/Sse/Agreement.antt =====
-- What a writer has sent follows the protocol, and, unless it has failed, leaves open the blocks
-- that `n` counts.
use realy_code.Common.{
  ◌⊎◌, inl, inr, String, Option-cases, ℕ, suc, ◌+◌, ◌-◌, ◌<◌, ℤ, ◌==ℤ◌, none, some, ◌∷◌, ◌≡◌, ◌∙◌,
  ap, arith, bit,
}
use realy_code.Sse.Event.{Block, Delta, Event, block_start, block_delta, block_stop}
use realy_code.Sse.Protocol.{OpenBlocks, start_at, stop_at, delta_at, after, accept}
use realy_code.Sse.Writer.{event, Connection, Writer, write_event}

pub record Agrees {J : Type 0} (w : Writer J) (n : ℤ → ℕ) : Type 0 where
  pub open_blocks : OpenBlocks
  pub accepted : accept w.sent ≡ some open_blocks
  pub counted : w.err ≡ none → (i : ℤ) → open_blocks i ≡ n i

module _ {J : Type 0} where
  pub Agrees-ext :
      {w : Writer J} {n : ℤ → ℕ} (n' : ℤ → ℕ) → Agrees w n → ((i : ℤ) → n i ≡ n' i) → Agrees w n'
  Agrees-ext n' a h = record {
    open_blocks = a.open_blocks;
    accepted = a.accepted;
    counted = λ e i. a.counted e i ∙ h i;
  }

-- `e` is allowed where `n` counts the open blocks, and `n'` counts them afterwards.
abbrev Allows : {J : Type 0} → (ℤ → ℕ) → Event J → (ℤ → ℕ) → Type 0
Allows n e n' =
    (o : OpenBlocks)
    → ((i : ℤ) → o i ≡ n i)
    → (o' : OpenBlocks) × (after o e ≡ some o') × ((i : ℤ) → o' i ≡ n' i)

Allows-start :
    {J : Type 0} {n : ℤ → ℕ} (i : ℤ) (b : Block J)
    → n i ≡ 0
    → Allows n (block_start i b) (λ j. n j + bit (i ==ℤ j))
Allows-start {J} {n} i b h o same =
    ((λ j. o j + bit (i ==ℤ j)), ap (start_at o i) (same i ∙ h), λ j. omega (arith, same j))

Allows-stop :
    (J : Type 0) {n : ℤ → ℕ} (i : ℤ)
    → 0 < n i
    → Allows {J = J} n (block_stop i) (λ j. n j - bit (i ==ℤ j))
Allows-stop J {n} i h o same =
    let one : o i ≡ suc (o i - 1) = omega (arith, same i) in
    ((λ j. o j - bit (i ==ℤ j)), ap (stop_at o i) one, λ j. omega (arith, same j))

Allows-delta :
    (J : Type 0) {n : ℤ → ℕ} (i : ℤ) (d : Delta) → 0 < n i → Allows {J = J} n (block_delta i d) n
Allows-delta J {n} i d h o same =
    let one : o i ≡ suc (o i - 1) = omega (arith, same i) in (o, ap (delta_at o) one, same)

-- A writer that has failed, or fails now, sends nothing; any other sends the event.
write_event-cases :
    {J : Type 0} (conn : Connection J) (w : Writer J) (e : Event J)
    → ((x : String) × (w.err ≡ some x) × (write_event conn w e ≡ w))
      ⊎ ((x : String) × (write_event conn w e ≡ record w { err = some x }))
      ⊎ ((w.err ≡ none) × (write_event conn w e ≡ record w { sent = event e ∷ w.sent }))
unfolding write_event
write_event-cases conn w e = elim (Option-cases w.err) [
  | inr (x, p) ↦ inl (x, p, ground arith)
  | inl p ↦ elim (Option-cases (conn.marshal_error e)) [
    | inr (x, q) ↦ inr (inl (x, ground arith))
    | inl q ↦ elim (Option-cases (conn.write_error w.sent (event e))) [
      | inr (x, r) ↦ inr (inl (x, ground arith))
      | inl r ↦ inr (inr (p, ground arith))
    ]
  ]
]

accept-event :
    {J : Type 0} (e : Event J) (w : Writer J) {o o' : OpenBlocks}
    → accept w.sent ≡ some o
    → after o e ≡ some o'
    → accept (event e ∷ w.sent) ≡ some o'
accept-event e w h k = rw h k

module _ {J : Type 0} (conn : Connection J) {w : Writer J} {n : ℤ → ℕ} where
  Agrees-write_event :
      {n' : ℤ → ℕ} (e : Event J) → Agrees w n → Allows n e n' → Agrees (write_event conn w e) n'
  Agrees-write_event {n'} e a allowed = elim (write_event-cases conn w e) [
    | inl (x, p, same) ↦ rw same (record {
      open_blocks = a.open_blocks;
      accepted = a.accepted;
      counted = λ e. absurd (ground arith);
    })
    | inr (inl (x, failed)) ↦ rw failed (record {
      open_blocks = a.open_blocks;
      accepted = a.accepted;
      counted = λ e. absurd (ground arith);
    })
    | inr (inr (fine, sent)) ↦
        let (o', step, same) = allowed a.open_blocks (a.counted fine) in
        rw sent (record {
          open_blocks = o';
          accepted = accept-event e w a.accepted step;
          counted = λ _. same;
        })
  ]

  pub Agrees-start :
      (i : ℤ) (b : Block J)
      → Agrees w n
      → n i ≡ 0
      → Agrees (write_event conn w (block_start i b)) (λ j. n j + bit (i ==ℤ j))
  Agrees-start i b a h = Agrees-write_event (block_start i b) a (Allows-start i b h)

  pub Agrees-stop :
      (i : ℤ)
      → Agrees w n
      → 0 < n i
      → Agrees (write_event conn w (block_stop i)) (λ j. n j - bit (i ==ℤ j))
  Agrees-stop i a h = Agrees-write_event (block_stop i) a (Allows-stop J i h)

  pub Agrees-delta :
      (i : ℤ) (d : Delta) → Agrees w n → 0 < n i → Agrees (write_event conn w (block_delta i d)) n
  Agrees-delta i d a h = Agrees-write_event (block_delta i d) a (Allows-delta J i d h)

  -- the events that name no block
  pub Agrees-other :
      (e : Event J)
      → ((o : OpenBlocks) → after o e ≡ some o)
      → Agrees w n
      → Agrees (write_event conn w e) n
  Agrees-other e same a = Agrees-write_event e a (λ o h. (o, same o, h))
