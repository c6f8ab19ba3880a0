-- ===== src/Session/Prepare/Sound.antt =====
-- What `Prepare` chains to, and when it declines.
use realy_code.Common.{
  ℕ, zero, suc, ◌<◌, ◌≤◌, String, true, Option, none, some, List, [], ◌∷◌, ◌≡◌, ◌≢◌, refl, sym, ap,
  ◌∙◌, ◌⊎◌, inl, inr, arith, str_eq, str_eq_iff, length, drop, Bool-cases,
}
use realy_code.Transcript.Message.{Message}
use realy_code.Session.Entry.{Entry, Scope, in_scope}
use realy_code.Session.Store.{Holds, here, there, find_entry}
use realy_code.Session.Prepare.{
  NewTail, tail_is, declined, new_tail, Match, matched, try_prefix, match_prefix,
}
use realy_code.Session.Prepare.Tail.{IsNewTail, new_tail-IsNewTail, new_tail-suffix}

find_entry-Holds :
    (k : String) (es : List (String × Entry)) {e : Entry} → find_entry k es ≡ some e → Holds k e es
unfolding find_entry
find_entry-Holds k [] h = absurd (cc)
find_entry-Holds k ((j, x) ∷ es) {e} h = elim (Bool-cases (str_eq j k)) [
  | inl same ↦ rw ((str_eq_iff j k).0 same) (rw (entry_same same) here)
  | inr other ↦ there (find_entry-Holds k es (ground arith))
]
  where
    entry_same : str_eq j k ≡ true → x ≡ e
    entry_same same = ground arith

-- no new input behind the first `k` messages
abbrev Hopeless : List Message → ℕ → Type 0
Hopeless ms k = (tail : List Message) → new_tail (drop k ms) ≢ tail_is tail

drop-suc :
    (k : ℕ) (ms : List Message) → k < length ms → (m : Message) × (drop k ms ≡ m ∷ drop (suc k) ms)
drop-suc k [] h = absurd (omega arith)
drop-suc zero (m ∷ ms) h = (m, refl)
drop-suc (suc k) (m ∷ ms) h = drop-suc k ms (omega arith)

drop-ne-nil : (k : ℕ) (ms : List Message) → k < length ms → drop k ms ≢ []
drop-ne-nil k ms h e = let (m, split) = drop-suc k ms h in cc (split, e)

-- where a longer prefix leaves no new input, a shorter one does not either
Hopeless-pred :
    (k : ℕ) (ms : List Message) → suc k < length ms → Hopeless ms (suc k) → Hopeless ms k
Hopeless-pred k ms h none_behind tail e =
    let (m, split) = drop-suc k ms (omega arith) in
    let (tail', e') =
      new_tail-suffix m (drop (suc k) ms) tail (ap new_tail (sym split) ∙ e)
        (drop-ne-nil (suc k) ms h) in
    none_behind tail' e'

-- what a match of a stored prefix says: the entry under the key of a prefix of the messages, behind
-- which stand only replies of the assistant and then the new input
pub record Covers (scope : Scope) (key_of : ℕ → String) (es : List (String × Entry))
    (ms : List Message) (key : String) (e : Entry) (tail : List Message) : Type 0 where
  pub covered : ℕ
  pub some_covered : 1 ≤ covered
  pub under : key ≡ key_of covered
  pub held : Holds key e es
  pub scoped : in_scope scope e ≡ true
  pub behind : IsNewTail (drop covered ms) tail

module _ (scope : Scope) (key_of : ℕ → String) (es : List (String × Entry))
    (ms : List Message) where
  try_prefix-cases :
      (key : String) (o : Option Entry) (behind : List Message) (reason : String)
      (later : String → Match) (m : Match)
      → try_prefix scope key o behind reason later ≡ m
      → (later reason ≡ m)
        ⊎ ((why : String) × (new_tail behind ≡ declined why) × (later why ≡ m))
        ⊎ ((e : Entry) × (tail : List Message) × (o ≡ some e)
            × (in_scope scope e ≡ true)
            × (new_tail behind ≡ tail_is tail)
            × (matched key e tail reason ≡ m))
  unfolding try_prefix
  try_prefix-cases key none behind reason later m h = inl h
  try_prefix-cases key (some e) behind reason later m h = elim (Bool-cases (in_scope scope e)) [
    | inl s ↦ by_tail (new_tail behind) refl s
    | inr s ↦ inl (ground arith)
  ]
    where
      by_tail :
          (t : NewTail)
          → new_tail behind ≡ t
          → in_scope scope e ≡ true
          → (later reason ≡ m)
            ⊎ ((why : String) × (new_tail behind ≡ declined why) × (later why ≡ m))
            ⊎ ((e' : Entry) × (tail : List Message) × (some e ≡ some e')
                × (in_scope scope e' ≡ true)
                × (new_tail behind ≡ tail_is tail)
                × (matched key e' tail reason ≡ m))
      by_tail (tail_is tail) q s = inr (inr (e, tail, refl, s, q, ground arith))
      by_tail (declined why) q s = inr (inl (why, q, ground arith))

  here_Covers :
      (k : ℕ) (key : String) (e : Entry) (tail : List Message) (e' : Entry) (tail' : List Message)
      (reason r : String)
      → 1 ≤ k
      → find_entry (key_of k) es ≡ some e'
      → in_scope scope e' ≡ true
      → new_tail (drop k ms) ≡ tail_is tail'
      → matched (key_of k) e' tail' reason ≡ matched key e tail r
      → Covers scope key_of es ms key e tail
  here_Covers k key e tail e' tail' reason r pos found scoped new same =
      let e_same : e' ≡ e = ground arith in
      let tail_same : tail' ≡ tail = ground arith in
      let key_same : key_of k ≡ key = ground arith in
      record {
        covered = k;
        some_covered = pos;
        under = sym key_same;
        held = rw (← key_same) (find_entry-Holds (key_of k) es (found ∙ ap some e_same));
        scoped = rw (← e_same) scoped;
        behind = new_tail-IsNewTail (drop k ms) tail (new ∙ ap tail_is tail_same);
      }

  pub match_prefix-Covers :
      (k : ℕ) (reason key r : String) (e : Entry) (tail : List Message)
      → k < length ms
      → (reason ≡ "") ⊎ Hopeless ms k
      → match_prefix scope key_of es ms k reason ≡ matched key e tail r
      → (r ≡ "") × Covers scope key_of es ms key e tail
  unfolding match_prefix
  match_prefix-Covers zero reason key r e tail lt pre h = absurd (cc)
  match_prefix-Covers (suc k) reason key r e tail lt pre h =
      elim (try_prefix-cases (key_of (suc k)) (find_entry (key_of (suc k)) es) (drop (suc k) ms)
        reason (λ r. match_prefix scope key_of es ms k r) (matched key e tail r) h) [
          | inl later ↦
              match_prefix-Covers k reason key r e tail (omega arith)
                (elim pre [ inl z ↦ inl z | inr z ↦ inr (Hopeless-pred k ms lt z) ]) later
          | inr (inl (why, refused, later)) ↦
              match_prefix-Covers k why key r e tail (omega arith)
                (inr (Hopeless-pred k ms lt (λ t q. cc (refused, q)))) later
          | inr (inr (e', tail', found, scoped, new, same)) ↦ (
            elim pre [ inl z ↦ ground arith | inr z ↦ absurd (z tail' new) ],
            here_Covers (suc k) key e tail e' tail' reason r (omega arith) found scoped new same,
          )
        ]
