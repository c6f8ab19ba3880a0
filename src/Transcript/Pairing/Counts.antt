-- ===== src/Transcript/Pairing/Counts.antt =====
-- How often an id stands in what the functions on blocks return.
use mathlib.Core.List.{append-nil}
use realy_code.Common.{
  ◌+◌, ◌≤◌, String, true, false, not, ◌&&◌, ◌||◌, none, some, List, [], ◌∷◌, ◌++◌, map, ◌≡◌, refl,
  sym, ap, ◌∙◌, arith, bit, str_eq, str_eq_iff, keep_if, if◌then◌else◌,
}
use realy_code.Transcript.Message.{Block}
use realy_code.Transcript.Blocks.{
  member, has_tool_results, strip_results, result_ids_from, strip_tool_results, tool_result_ids,
  synthetic_tool_result,
}
use realy_code.Transcript.Repair.{or_note, keep_uses, patched}
use realy_code.Transcript.Pairing.{count, result_ids, use_ids, Answers}

pub member-count : (k : String) (js : List String) → member k js ≡ false → count k js ≡ 0
member-count k [] h = refl
member-count k (j ∷ js) h = ground (arith, member-count k js)

count-strip_none :
    (k : String) (seen : List String) (bs : List Block)
    → count k (result_ids (strip_results seen none bs)) ≡ 0
unfolding strip_results
count-strip_none k seen [] = refl
count-strip_none k seen (b ∷ bs) = ground (arith, count-strip_none k seen bs)

count-strip_some :
    (k : String) (seen ids : List String) (bs : List Block)
    → count k (result_ids (strip_results seen (some ids) bs))
      ≡ bit (not (str_eq k "") && not (member k seen) && member k ids && member k (result_ids bs))
unfolding strip_results
count-strip_some k seen ids [] = ground arith
count-strip_some k seen ids (b ∷ bs) = ground (
  arith,
  count-strip_some k seen ids bs,
  count-strip_some k (b.tool_use_id ∷ seen) ids bs,
  str_eq_iff b.tool_use_id k,
  str_eq_iff b.tool_use_id "",
  str_eq_iff k "",
)

member-result_ids_from :
    (k : String) (seen : List String) (bs : List Block)
    → member k (result_ids_from seen bs)
      ≡ (not (str_eq k "") && not (member k seen) && member k (result_ids bs))
unfolding result_ids_from
member-result_ids_from k seen [] = ground arith
member-result_ids_from k seen (b ∷ bs) = ground (
  arith,
  member-result_ids_from k seen bs,
  member-result_ids_from k (b.tool_use_id ∷ seen) bs,
  str_eq_iff b.tool_use_id k,
  str_eq_iff b.tool_use_id "",
  str_eq_iff k "",
)

count-synthetic :
    (k : String) (ids : List String) (bs : List Block)
    → count k (result_ids (map synthetic_tool_result ids ++ bs))
      ≡ count k ids + count k (result_ids bs)
unfolding synthetic_tool_result
count-synthetic k [] bs = omega arith
count-synthetic k (id ∷ ids) bs = ground (arith, count-synthetic k ids bs)

count-missing :
    (k : String) (existing ids : List String)
    → count k (keep_if (λ id. not (member id existing)) ids)
      ≡ (if member k existing then 0 else count k ids)
count-missing k existing [] = ground arith
count-missing k existing (id ∷ ids) = ground (arith, count-missing k existing ids, str_eq_iff id k)

pub result_ids-or_note :
    (note : String) (bs : List Block) → result_ids (or_note note bs) ≡ result_ids bs
result_ids-or_note note [] = refl
result_ids-or_note note (b ∷ bs) = refl

pub use_ids-or_note : (note : String) (bs : List Block) → use_ids (or_note note bs) ≡ use_ids bs
use_ids-or_note note [] = refl
use_ids-or_note note (b ∷ bs) = refl

-- each id is used once, and is new
pub count-keep_uses :
    (k : String) (seen : List String) (bs : List Block)
    → count k (keep_uses seen bs).ids + bit (member k seen) ≤ 1
unfolding keep_uses
count-keep_uses k seen [] = ground arith
count-keep_uses k seen (b ∷ bs) =
    ground (arith, count-keep_uses k seen bs, count-keep_uses k (b.id ∷ seen) bs, str_eq_iff b.id k)

pub member-keep_uses :
    (k : String) (seen : List String) (bs : List Block)
    → member k (keep_uses seen bs).seen ≡ (member k seen || member k (keep_uses seen bs).ids)
unfolding keep_uses
member-keep_uses k seen [] = ground arith
member-keep_uses k seen (b ∷ bs) =
    ground (arith, member-keep_uses k seen bs, member-keep_uses k (b.id ∷ seen) bs)

-- no use that is kept has the empty id
named-keep_uses :
    (k : String) (seen : List String) (bs : List Block)
    → str_eq k "" ≡ true
    → count k (keep_uses seen bs).ids ≡ 0
unfolding keep_uses
named-keep_uses k seen [] h = refl
named-keep_uses k seen (b ∷ bs) h = ground (
  arith,
  named-keep_uses k seen bs h,
  named-keep_uses k (b.id ∷ seen) bs h,
  str_eq_iff b.id k,
  str_eq_iff k "",
  str_eq_iff b.id "",
)

pub use_ids-kept :
    (seen : List String) (bs : List Block)
    → use_ids (keep_uses seen bs).kept ≡ (keep_uses seen bs).ids
unfolding keep_uses
use_ids-kept seen [] = refl
use_ids-kept seen (b ∷ bs) = ground (arith, use_ids-kept seen bs, use_ids-kept (b.id ∷ seen) bs)

-- a message without results of its own answers nothing
pub Answers-none : (bs : List Block) → has_tool_results bs ≡ false → Answers [] bs
unfolding has_tool_results
Answers-none [] h k = refl
Answers-none (b ∷ bs) h k = ground (arith, Answers-none bs (ground arith) k)

pub Answers-stripped : (bs : List Block) → Answers [] (strip_tool_results bs none)
unfolding strip_tool_results
Answers-stripped bs k = count-strip_none k [] bs

-- ids that are used once each and are not empty
pub record Distinct (ids : List String) : Type 0 where
  pub once : (k : String) → count k ids ≤ 1
  pub named : (k : String) → str_eq k "" ≡ true → count k ids ≡ 0

count-member : (k : String) (ids : List String) → count k ids ≤ 1 → count k ids ≡ bit (member k ids)
count-member k [] h = refl
count-member k (j ∷ js) h = ground (arith, count-member k js, member-count k js)

pub Distinct-keep_uses : (seen : List String) (bs : List Block) → Distinct (keep_uses seen bs).ids
Distinct-keep_uses seen bs = record {
  once = λ k. omega (arith, count-keep_uses k seen bs);
  named = λ k h. named-keep_uses k seen bs h;
}

pub Answers-synthetic :
    (ids : List String) → Distinct ids → Answers ids (map synthetic_tool_result ids)
Answers-synthetic ids d k =
    sym (ap (λ bs. count k (result_ids bs)) (append-nil (map synthetic_tool_result ids)))
    ∙ ground (arith, count-synthetic k ids [], count-member k ids (d.once k))

pub Answers-patched :
    (ids : List String) (next : List Block) → Distinct ids → Answers ids (patched ids next)
unfolding patched strip_tool_results tool_result_ids
Answers-patched ids next d k = ground (
  arith,
  count-synthetic k (keep_if (λ id. not (member id (result_ids_from [] next))) ids)
      (strip_results [] (some ids) next),
  count-missing k (result_ids_from [] next) ids,
  count-strip_some k [] ids next,
  member-result_ids_from k [] next,
  count-member k ids (d.once k),
  d.named k,
)
