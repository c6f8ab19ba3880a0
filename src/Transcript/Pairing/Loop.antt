-- ===== src/Transcript/Pairing/Loop.antt =====
-- The loop of `ensureToolResultPairing` makes a paired transcript in which no tool use repeats.
use realy_code.Common.{
  ℕ, ◌+◌, ◌-◌, ◌≤◌, String, Bool, true, false, ◌&&◌, Option, none, some, List, [], ◌∷◌, ◌≡◌, refl,
  ap, arith, bit, str_eq, str_eq_iff, inl, inr, Bool-cases, Option-cases, if_cases, bit_le_one,
}
use realy_code.Transcript.Message.{Slice, elems, Block, Message, of_blocks, as_blocks, blocks_of}
use realy_code.Transcript.Blocks.{Json, member, has_tool_results}
use realy_code.Transcript.Repair.{
  is_user, is_assistant, or_note, keep_uses, with_blocks, prepared, other_blocks, keep_other,
  answer_uses, after_other, pair_step, pair_from, ensure_tool_result_pairing,
  normalize_messages_for_upstream, filter_trailing_thinking_from_last_assistant,
  filter_orphaned_thinking_only_messages,
}
use realy_code.Transcript.Pairing.{
  count, use_ids, Answers, Paired, done, user, assistant, other, transcript_uses,
}
use realy_code.Transcript.Pairing.Counts.{
  member-count, result_ids-or_note, use_ids-or_note, count-keep_uses, member-keep_uses,
  use_ids-kept, Answers-none, Answers-stripped, Distinct, Distinct-keep_uses, Answers-synthetic,
  Answers-patched,
}

module _ (json : Json) (server search : Bool) where
  blocks_of-other :
      (m : Message) (bs : Slice Block) → blocks_of (record m { content = of_blocks bs }) ≡ elems bs
  unfolding as_blocks
  blocks_of-other m none = refl
  blocks_of-other m (some bs) = refl

  other_blocks-Answers :
      (fresh : Bool) (m : Message)
      → is_user m ≡ true
      → Answers [] (elems (other_blocks json server search fresh m))
  unfolding other_blocks
  other_blocks-Answers fresh m u =
      elim (Bool-cases (has_tool_results (elems (prepared json server search m)))) [
        | inl r ↦
            rw (ap (λ b. is_user m && b) r)
              (rw u (λ k. rw (result_ids-or_note _ _) (Answers-stripped _ k)))
        | inr r ↦ rw (ap (λ b. is_user m && b) r) (rw u (Answers-none _ r))
      ]

  keep_other-eq :
      (fresh : Bool) (m m' : Message)
      → keep_other json server search fresh m ≡ some m'
      → m' ≡ record m { content = of_blocks (other_blocks json server search fresh m) }
  unfolding keep_other
  keep_other-eq fresh m m' e = ground arith

  keep_other-Paired :
      (fresh : Bool) (m m' : Message) (ms : List Message)
      → is_assistant m ≡ false
      → keep_other json server search fresh m ≡ some m'
      → Paired [] ms
      → Paired [] (m' ∷ ms)
  keep_other-Paired fresh m m' ms a e p = elim (Bool-cases (is_user m)) [
    | inl u ↦
        rw (keep_other-eq fresh m m' e)
          (user u (rw (blocks_of-other m _) (other_blocks-Answers fresh m u)) p)
    | inr u ↦ rw (keep_other-eq fresh m m' e) (other u a p)
  ]

  after_other-Paired :
      (fresh : Bool) (seen : List String) (m : Message) (go_on : Bool → List String → List Message)
      → is_assistant m ≡ false
      → ((f : Bool) (s : List String) → Paired [] (go_on f s))
      → Paired []
          (after_other json server search (keep_other json server search fresh m) fresh seen go_on)
  after_other-Paired fresh seen m go_on a p =
      elim (Option-cases (keep_other json server search fresh m)) [
        | inl gone ↦ rw gone (p fresh seen)
        | inr (m', kept) ↦ rw kept (keep_other-Paired fresh m m' _ a kept (p false seen))
      ]

  answer_uses-Paired :
      (ids : List String) (next : Option Message) (go_on skip : List Message)
      → Distinct ids
      → Paired [] go_on
      → Paired [] skip
      → Paired ids (answer_uses json server search ids next go_on skip)
  unfolding answer_uses as_blocks
  answer_uses-Paired [] next go_on skip d p q = p
  answer_uses-Paired (k ∷ ks) none go_on skip d p q = user refl (Answers-synthetic (k ∷ ks) d) p
  answer_uses-Paired (k ∷ ks) (some next) go_on skip d p q =
      if_cases (Paired (k ∷ ks)) (is_user next)
        (λ u. user u (λ j. rw (result_ids-or_note _ _) (Answers-patched (k ∷ ks) _ d j)) q)
        (λ _. user refl (Answers-synthetic (k ∷ ks) d) p)

  pair_step-Paired :
      (fresh : Bool) (seen : List String) (m : Message) (next : Option Message)
      (go_on : Bool → List String → List Message) (skip : List String → List Message)
      → ((f : Bool) (s : List String) → Paired [] (go_on f s))
      → ((s : List String) → Paired [] (skip s))
      → Paired [] (pair_step json server search fresh seen m next go_on skip)
  unfolding pair_step as_blocks
  pair_step-Paired fresh seen m next go_on skip p q =
      if_cases (Paired []) (is_assistant m)
        (λ a.
          let bs = elems (prepared json server search m) in
          assistant a (
            rw (use_ids-or_note _ _) (
              rw (use_ids-kept seen bs)
                (answer_uses-Paired _ next _ _ (Distinct-keep_uses seen bs) (p false _) (q _)))))
        (λ a. after_other-Paired fresh seen m go_on a p)

  pair_from-Paired :
      (fresh : Bool) (seen : List String) (ms : List Message)
      → Paired [] (pair_from json server search fresh seen ms)
  unfolding pair_from
  pair_from-Paired fresh seen [] = done
  pair_from-Paired fresh seen (m ∷ []) =
      pair_step-Paired fresh seen m none _ _ (λ f s. done) (λ s. done)
  pair_from-Paired fresh seen (m ∷ n ∷ ms) =
      pair_step-Paired fresh seen m (some n) _ _ (λ f s. pair_from-Paired f s (n ∷ ms))
        (λ s. pair_from-Paired false s ms)

  -- Whatever the messages, in those that go upstream: a message of the assistant with tool uses is
  -- followed by one of the user with exactly one tool result for each of their ids and no other
  -- result, and any other message of the user has no result.
  pub normalize-Paired :
      (ms : List Message) → Paired [] (normalize_messages_for_upstream json server search ms)
  unfolding normalize_messages_for_upstream ensure_tool_result_pairing
  normalize-Paired ms =
      pair_from-Paired true []
        (filter_trailing_thinking_from_last_assistant (filter_orphaned_thinking_only_messages ms))

  is_assistant-user : (m : Message) → is_user m ≡ true → is_assistant m ≡ false
  is_assistant-user m u = ap (λ r. str_eq r "assistant") ((str_eq_iff m.role "user").0 u)

  module _ (k : String) where
    -- the uses that one message keeps, before `n` uses of the messages behind it
    keep_uses_bound :
        (note : String) (seen : List String) (bs : List Block) (n : ℕ)
        → n + bit (member k (keep_uses seen bs).seen) ≤ 1
        → count k (use_ids (or_note note (keep_uses seen bs).kept)) + n + bit (member k seen) ≤ 1
    keep_uses_bound note seen bs n h = rw (use_ids-or_note note (keep_uses seen bs).kept) (
        rw (use_ids-kept seen bs) (
          ground (
            arith,
            count-keep_uses k seen bs,
            member-keep_uses k seen bs,
            member-count k (keep_uses seen bs).ids,
          )))

    uses-user :
        (m : Message) (ms : List Message)
        → is_user m ≡ true
        → transcript_uses (m ∷ ms) k ≡ transcript_uses ms k
    uses-user m ms u = rw (is_assistant-user m u) (omega arith)

    answer_uses-uses :
        (ids : List String) (next : Option Message) (go_on skip : List Message) (n : ℕ)
        → transcript_uses go_on k ≤ n
        → transcript_uses skip k ≤ n
        → transcript_uses (answer_uses json server search ids next go_on skip) k ≤ n
    unfolding answer_uses
    answer_uses-uses [] next go_on skip n g h = g
    answer_uses-uses (i ∷ is) none go_on skip n g h = omega arith
    answer_uses-uses (i ∷ is) (some next) go_on skip n g h =
        if_cases (λ ms. transcript_uses ms k ≤ n) (is_user next)
          (λ u. rw (uses-user (with_blocks next _) skip u) h) (λ _. omega arith)

    after_other-uses :
        (fresh : Bool) (seen : List String) (m : Message)
        (go_on : Bool → List String → List Message)
        → is_assistant m ≡ false
        → ((f : Bool) (s : List String) → transcript_uses (go_on f s) k + bit (member k s) ≤ 1)
        → transcript_uses
              (after_other json server search
                (keep_other json server search fresh m)
                fresh
                seen
                go_on)
              k
            + bit (member k seen)
          ≤ 1
    after_other-uses fresh seen m go_on a g =
        elim (Option-cases (keep_other json server search fresh m)) [
          | inl gone ↦ rw gone (g fresh seen)
          | inr (m', kept) ↦
              rw kept (rw (keep_other-eq fresh m m' kept) (ground (arith, g false seen)))
        ]

    pair_step-uses :
        (fresh : Bool) (seen : List String) (m : Message) (next : Option Message)
        (go_on : Bool → List String → List Message) (skip : List String → List Message)
        → ((f : Bool) (s : List String) → transcript_uses (go_on f s) k + bit (member k s) ≤ 1)
        → ((s : List String) → transcript_uses (skip s) k + bit (member k s) ≤ 1)
        → transcript_uses (pair_step json server search fresh seen m next go_on skip) k
            + bit (member k seen)
          ≤ 1
    unfolding pair_step as_blocks
    pair_step-uses fresh seen m next go_on skip g h =
        if_cases (λ ms. transcript_uses ms k + bit (member k seen) ≤ 1) (is_assistant m)
          (λ a.
            let uses = keep_uses seen (elems (prepared json server search m)) in
            rw a (
              keep_uses_bound "[Tool use interrupted]" seen (elems (prepared json server search m))
                _
                (omega (
                  arith,
                  bit_le_one (member k uses.seen),
                  answer_uses-uses uses.ids next (go_on false uses.seen) (skip uses.seen)
                      (1 - bit (member k uses.seen)) (omega (arith, g false uses.seen))
                      (omega (arith, h uses.seen)),
                ))))
          (λ a. after_other-uses fresh seen m go_on a g)

    pair_from-uses :
        (fresh : Bool) (seen : List String) (ms : List Message)
        → transcript_uses (pair_from json server search fresh seen ms) k + bit (member k seen) ≤ 1
    unfolding pair_from
    pair_from-uses fresh seen [] = ground arith
    pair_from-uses fresh seen (m ∷ []) =
        pair_step-uses fresh seen m none (λ f s. []) (λ s. []) (λ f s. ground arith)
          (λ s. ground arith)
    pair_from-uses fresh seen (m ∷ n ∷ ms) =
        pair_step-uses fresh seen m (some n) _ _ (λ f s. pair_from-uses f s (n ∷ ms))
          (λ s. pair_from-uses false s ms)

    -- Whatever the messages, an id stands in at most one tool use of all the messages of the assistant
    -- that go upstream.
    pub normalize-uses_once :
        (ms : List Message)
        → transcript_uses (normalize_messages_for_upstream json server search ms) k ≤ 1
    unfolding normalize_messages_for_upstream ensure_tool_result_pairing
    normalize-uses_once ms = omega (
      arith,
      pair_from-uses true [] (
          filter_trailing_thinking_from_last_assistant (filter_orphaned_thinking_only_messages ms)),
    )
