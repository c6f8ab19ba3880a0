-- ===== src/Transcript/Compact/Windows.antt =====
-- Which lines a compacted tool result keeps.
use realy_code.Common.{
  concat, join, ℕ, zero, suc, ◌-◌, ◌≤◌, String, true, false, not, ◌||◌, List, [], ◌∷◌, ◌++◌, ◌≡◌,
  refl, sym, ◌∙◌, ap, arith, ltb, leb, length, take, drop, keep_if, take-append-drop, length-take,
  inl, inr, Bool-cases, if_cases, if_false, leb, ◌<◌, ◌==◌, ◌&&◌,
}
use Prim.Native.String.{len}
use realy_code.Transcript.Compact.Lines.{join-split_lines}
use realy_code.Transcript.Compact.{
  split_lines, write_line_window, banner, windows, compact_single_line_tool_result,
  compact_tool_result_text, Texts, start_of_tail, is_important_tool_result_line, pick_lines,
  important_tool_result_lines, tail_lines,
}

take-[] : (n : ℕ) → take {A = String} n [] ≡ []
take-[] zero = refl
take-[] (suc n) = refl

drop-[] : (n : ℕ) → drop {A = String} n [] ≡ []
drop-[] zero = refl
drop-[] (suc n) = refl

drop_all : (n : ℕ) (ls : List String) → length ls ≤ n → drop n ls ≡ []
drop_all n [] h = drop-[] n
drop_all zero (l ∷ ls) h = absurd (omega arith)
drop_all (suc n) (l ∷ ls) h = drop_all n ls (omega arith)

module _ (t : Texts) (head start : ℕ) (ordered : head ≤ start) where
  between : ℕ → List String → List String
  between i ls = drop (head - i) (take (start - i) ls)

  between_before :
      (i : ℕ) (l : String) (ls : List String)
      → ltb i head ≡ true
      → between i (l ∷ ls) ≡ between (suc i) ls
  unfolding between
  between_before i l ls h =
      let a : head - i ≡ suc (head - suc i) = ground arith in
      let b : start - i ≡ suc (start - suc i) = ground arith in rw (a, b)

  between_inside :
      (i : ℕ) (l : String) (ls : List String)
      → ltb i head ≡ false
      → leb start i ≡ false
      → between i (l ∷ ls) ≡ l ∷ between (suc i) ls
  unfolding between
  between_inside i l ls h k =
      let a : head - i ≡ 0 = ground arith in
      let b : head - suc i ≡ 0 = ground arith in
      let c : start - i ≡ suc (start - suc i) = ground arith in rw (a, b, c)

  between_behind :
      (i : ℕ) (l : String) (ls : List String)
      → leb start i ≡ true
      → between i (l ∷ ls) ≡ between (suc i) ls
  unfolding between
  between_behind i l ls k =
      let a : start - i ≡ 0 = ground arith in
      let b : start - suc i ≡ 0 = ground arith in
      rw (a, b, drop-[] (head - i), drop-[] (head - suc i))

  between-[] : (i : ℕ) → between i [] ≡ []
  unfolding between
  between-[] i = ap (λ xs. drop (head - i) xs) (take-[] (start - i)) ∙ drop-[] (head - i)

  abbrev chosen : ℕ → ℕ → List String → List String
  chosen i room ls = take room (keep_if (is_important_tool_result_line t) (between i ls))

  chosen_passed :
      (i room : ℕ) (l : String) (ls : List String)
      → (ltb i head || leb start i || not (is_important_tool_result_line t l)) ≡ true
      → chosen i (suc room) (l ∷ ls) ≡ chosen (suc i) (suc room) ls
  chosen_passed i room l ls h = elim (Bool-cases (ltb i head)) [
    | inl before ↦ rw (between_before i l ls before)
    | inr after ↦ elim (Bool-cases (leb start i)) [
      | inl behind ↦ rw (between_behind i l ls behind)
      | inr inside ↦
          let p : is_important_tool_result_line t l ≡ false = ground arith in
          rw (between_inside i l ls after inside, p)
    ]
  ]

  chosen_taken :
      (i room : ℕ) (l : String) (ls : List String)
      → (ltb i head || leb start i || not (is_important_tool_result_line t l)) ≡ false
      → chosen i (suc room) (l ∷ ls) ≡ l ∷ chosen (suc i) room ls
  chosen_taken i room l ls h =
      let before : ltb i head ≡ false = ground arith in
      let behind : leb start i ≡ false = ground arith in
      let p : is_important_tool_result_line t l ≡ true = ground arith in
      rw (between_inside i l ls before behind, p)

  pick_lines-chosen :
      (i room : ℕ) (ls : List String) → pick_lines t head start i room ls ≡ chosen i room ls
  unfolding pick_lines
  pick_lines-chosen i room [] = sym (
      ap (λ xs. take room (keep_if (is_important_tool_result_line t) xs)) (between-[] i)
      ∙ take-[] room)
  pick_lines-chosen i zero (l ∷ ls) = refl
  pick_lines-chosen i (suc room) (l ∷ ls) =
      if_cases (λ (x : List String). x ≡ chosen i (suc room) (l ∷ ls))
        (ltb i head || leb start i || not (is_important_tool_result_line t l))
        (λ h. pick_lines-chosen (suc i) (suc room) ls ∙ sym (chosen_passed i room l ls h))
        (λ h.
          ap (λ xs. l ∷ xs) (pick_lines-chosen (suc i) room ls) ∙ sym (chosen_taken i room l ls h))

  from_first :
      (room : ℕ) (ls : List String)
      → pick_lines t head start 0 room ls
        ≡ take room (keep_if (is_important_tool_result_line t) (drop head (take start ls)))
  unfolding between
  from_first room ls =
      let a : head - 0 ≡ head = omega arith in
      let b : start - 0 ≡ start = omega arith in
      pick_lines-chosen 0 room ls
      ∙ ap
          (λ n.
            take room (keep_if (is_important_tool_result_line t) (drop n (take (start - 0) ls))))
          a
      ∙ ap (λ n. take room (keep_if (is_important_tool_result_line t) (drop head (take n ls)))) b

-- the text, and the lines of the tail under their heading, if there are any
abbrev pub with_tail : String → List String → String
with_tail b [] = b
with_tail b (l ∷ ls) = concat (b ∷ "--- " ∷ "tail" ∷ " ---\n" ∷ join "\n" (l ∷ ls) ∷ "\n" ∷ [])

take_some : (lines : List String) → 2 ≤ length lines → 1 ≤ length (take 80 lines)
take_some [] h = absurd (omega arith)
take_some (l ∷ ls) h = omega arith

module _ (t : Texts) where
  -- `importantToolResultLines` gives the first 80 of the telling lines that lie between the head and
  -- the tail, in their order.
  pub important_lines_are_first :
      (lines : List String) (head tail : ℕ)
      → important_tool_result_lines t lines head tail
        ≡ take 80 (
            keep_if
              (is_important_tool_result_line t)
              (drop head (take (start_of_tail head tail lines) lines)))
  unfolding important_tool_result_lines
  important_lines_are_first lines head tail =
      from_first t head (start_of_tail head tail lines) (ground arith) 80 lines

  start_of_tail_few : (lines : List String) → length lines ≤ 160 → start_of_tail 80 80 lines ≡ 80
  start_of_tail_few lines few = ground arith

  tail_lines-drop : (lines : List String) → length lines ≤ 160 → tail_lines t lines ≡ drop 80 lines
  tail_lines-drop lines few =
      if_cases (λ (xs : List String). xs ≡ drop 80 lines) (ltb 80 (length lines))
        (λ _. ap (λ n. drop n lines) (start_of_tail_few lines few))
        (λ h. sym (drop_all 80 lines (ground arith)))

  none_important :
      (lines : List String) → length lines ≤ 160 → important_tool_result_lines t lines 80 80 ≡ []
  none_important lines few =
      important_lines_are_first lines 80 80
      ∙ ap (λ n. take 80 (keep_if (is_important_tool_result_line t) (drop 80 (take n lines))))
          (start_of_tail_few lines few)
      ∙ ap (λ xs. take 80 (keep_if (is_important_tool_result_line t) xs))
          (drop_all 80 (take 80 lines) (omega (arith, length-take 80 lines)))

  windows_few :
      (text : String) (lines : List String)
      → length lines ≤ 160
      → windows t text lines
        ≡ write_line_window
            (write_line_window (banner t text lines) "head" (take 80 lines))
            "tail"
            (drop 80 lines)
  unfolding write_line_window
  windows_few text lines few =
      let head = write_line_window (banner t text lines) "head" (take 80 lines) in
      ap
        (λ xs.
          write_line_window (write_line_window head "important" xs) "tail" (tail_lines t lines))
        (none_important lines few)
      ∙ ap (write_line_window head "tail") (tail_lines-drop lines few)

  windows_text :
      (text : String) (first last : List String)
      → 1 ≤ length first
      → write_line_window
          (write_line_window (banner t text (first ++ last)) "head" first)
          "tail"
          last
        ≡ with_tail
            (concat (
              banner t text (first ++ last)
              ∷ "--- "
              ∷ "head"
              ∷ " ---\n"
              ∷ join "\n" first
              ∷ "\n"
              ∷ []))
            last
  unfolding write_line_window
  windows_text text [] last h = absurd (omega arith)
  windows_text text (l ∷ ls) [] h = refl
  windows_text text (l ∷ ls) (k ∷ ks) h = refl

  -- A tool result of more than 12000 bytes and of 2 to 160 lines comes out as the banner, a heading with
  -- its first lines, 80 at most, and, if there are more, a heading with the others: joined these lines are
  -- the whole result. Nothing but newlines at the very end is trimmed.
  pub few_lines_all_kept :
      (text : String)
      → 12000 < len text
      → 2 ≤ length (split_lines text)
      → length (split_lines text) ≤ 160
      → (first : List String) × (last : List String) × (join "\n" (first ++ last) ≡ text)
        × (length first ≤ 80)
        × (compact_tool_result_text t text
            ≡ t.trim_newlines (
                with_tail
                  (concat (
                    banner t text (first ++ last)
                    ∷ "--- "
                    ∷ "head"
                    ∷ " ---\n"
                    ∷ join "\n" first
                    ∷ "\n"
                    ∷ []))
                  last))
  unfolding compact_tool_result_text
  few_lines_all_kept text long several few =
      let lines = split_lines text in
      let cut : (leb (len text) 12000 && leb (length lines) 240) ≡ false = ground arith in
      let many : (length lines == 1) ≡ false = ground arith in
      let first = take 80 lines in
      let last = drop 80 lines in
      let whole : first ++ last ≡ lines = take-append-drop 80 lines in
      (
        first,
        last,
        ap (join "\n") whole ∙ join-split_lines text,
        omega (arith, length-take 80 lines),
        if_false text cut
            ∙ if_false (compact_single_line_tool_result t text) many
            ∙ ap t.trim_newlines (
                windows_few text lines few
                ∙ ap
                    (λ ls.
                      write_line_window (write_line_window (banner t text ls) "head" first) "tail"
                        last)
                    (sym whole)
                ∙ windows_text text first last (omega (arith, take_some lines several))),
      )
