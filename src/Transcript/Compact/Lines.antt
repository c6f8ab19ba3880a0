-- ===== src/Transcript/Compact/Lines.antt =====
-- `strings.Split(text, "\n")`, as `CompactToolResultText` of internal/anthropic/types.go calls it: the lines
-- joined are the text.
use Prim.Native.Char.{Char}
use Prim.Native.String.{◌++◌ as append}
use text.Mathlib.TextLemmas.{nil-append, cons-append}
use realy_code.Common.{
  String, ◌≤◌, List, [], ◌∷◌, join, length, str_eq, str_eq_iff, ◌≡◌, refl, sym, ◌∙◌, ap, arith,
  Bool-cases, inl, inr, if_true, if_false, if_cases,
}
use realy_code.Transcript.Compact.{in_front, split_lines}

length-in_front : (c : Char) (ls : List String) → 1 ≤ length (in_front c ls)
length-in_front c [] = omega arith
length-in_front c (l ∷ ls) = omega arith

some_lines : (s : String) → 1 ≤ length (split_lines s)
some_lines String.[] = omega arith
some_lines (String.◌∷◌ c s) =
    if_cases (λ (ls : List String). 1 ≤ length ls) (str_eq (String.◌∷◌ c String.[]) "\n")
      (λ _. omega arith) (λ _. length-in_front c (split_lines s))

join-in_front :
    (c : Char) (ls : List String) → join "\n" (in_front c ls) ≡ String.◌∷◌ c (join "\n" ls)
join-in_front c [] = refl
join-in_front c (l ∷ []) = refl
join-in_front c (l ∷ k ∷ ks) = cons-append c l (append "\n" (join "\n" (k ∷ ks)))

join-empty_line :
    (ls : List String) → 1 ≤ length ls → join "\n" ("" ∷ ls) ≡ append "\n" (join "\n" ls)
join-empty_line [] h = absurd (omega arith)
join-empty_line (l ∷ ls) h = nil-append (append "\n" (join "\n" (l ∷ ls)))

pub join-split_lines : (s : String) → join "\n" (split_lines s) ≡ s
join-split_lines String.[] = refl
join-split_lines (String.◌∷◌ c s) = elim (Bool-cases (str_eq (String.◌∷◌ c String.[]) "\n")) [
  | inl newline ↦
      ap (join "\n") (if_true _ newline)
      ∙ join-empty_line (split_lines s) (some_lines s)
      ∙ ap (append "\n") (join-split_lines s)
      ∙ ap (λ u. append u s) (sym ((str_eq_iff (String.◌∷◌ c String.[]) "\n").0 newline))
      ∙ cons-append c "" s
      ∙ ap (String.◌∷◌ c) (nil-append s)
  | inr other ↦
      ap (join "\n") (if_false _ other)
      ∙ join-in_front c (split_lines s)
      ∙ ap (String.◌∷◌ c) (join-split_lines s)
]
