-- ===== src/Session/Prepare/Tail.antt =====
-- The new input that is sent behind a stored prefix.
use realy_code.Common.{
  true, Option, none, some, List, [], ◌∷◌, ◌++◌, ◌≡◌, ◌≢◌, refl, ap, arith, all_of, Bool-cases, inl,
  inr,
}
use realy_code.Transcript.Message.{Message}
use realy_code.Transcript.Repair.{is_user, is_assistant}
use realy_code.Session.Entry.{chainable_tail}
use realy_code.Session.Prepare.{skip_assistant, tail_is, checked_tail, new_tail}

-- `behind` is some messages of the assistant, then `tail`, which holds messages of the user only, and
-- at least one.
pub record IsNewTail (behind tail : List Message) : Type 0 where
  pub skipped : List Message
  pub splits : behind ≡ skipped ++ tail
  pub only_assistant : all_of is_assistant skipped ≡ true
  pub only_user : all_of is_user tail ≡ true
  pub some_user : tail ≢ []

skip_assistant-splits :
    (behind : List Message) {rest : List Message}
    → skip_assistant behind ≡ some rest
    → (skipped : List Message) × (behind ≡ skipped ++ rest) × (all_of is_assistant skipped ≡ true)
unfolding skip_assistant
skip_assistant-splits [] h = ([], ground arith, refl)
skip_assistant-splits (m ∷ ms) {rest} h = elim (Bool-cases (is_user m)) [
  | inl u ↦ ([], ground arith, refl)
  | inr u ↦
      let (skipped, splits, only) = skip_assistant-splits ms {rest = rest} (ground arith) in
      (m ∷ skipped, ap (◌∷◌ m) splits, ground arith)
]

checked_tail-eq :
    (o : Option (List Message)) (tail : List Message)
    → checked_tail o ≡ tail_is tail
    → (o ≡ some tail) × (chainable_tail tail ≡ true)
checked_tail-eq none tail h = absurd (cc)
checked_tail-eq (some []) tail h = absurd (cc)
checked_tail-eq (some (m ∷ ms)) tail h = ground arith

chainable_tail-users :
    (tail : List Message) → chainable_tail tail ≡ true → (all_of is_user tail ≡ true) × (tail ≢ [])
unfolding chainable_tail
chainable_tail-users [] h = absurd (cc)
chainable_tail-users (m ∷ ms) h = (h, λ e. cc)

pub new_tail-IsNewTail :
    (behind tail : List Message) → new_tail behind ≡ tail_is tail → IsNewTail behind tail
unfolding new_tail
new_tail-IsNewTail behind tail h =
    let (found, ok) = checked_tail-eq (skip_assistant behind) tail h in
    let (skipped, splits, only) = skip_assistant-splits behind found in
    let (users, some_user) = chainable_tail-users tail ok in
    record {
      skipped = skipped;
      splits = splits;
      only_assistant = only;
      only_user = users;
      some_user = some_user;
    }

-- Where a tail is found behind one more message, it is found without that message too.
pub new_tail-suffix :
    (m : Message) (ms tail : List Message)
    → new_tail (m ∷ ms) ≡ tail_is tail
    → ms ≢ []
    → (tail' : List Message) × (new_tail ms ≡ tail_is tail')
unfolding new_tail skip_assistant chainable_tail
new_tail-suffix m [] tail h ne = absurd (ne refl)
new_tail-suffix m (n ∷ ns) tail h ne = elim (Bool-cases (is_user m)) [
  | inl u ↦ (n ∷ ns, ground arith)
  | inr u ↦ (tail, ground arith)
]
