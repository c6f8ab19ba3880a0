-- ===== src/Native/Tracker/Backwards.antt =====
-- The open blocks of tracker.go in the order in which the error tail of anthropic.go stops them: the tracker
-- keeps the newest last, and pops it first.
use realy_code.Common.{
  ℕ, zero, suc, ℤ, ◌==ℤ◌, ◌||◌, Bool, false, List, [], ◌∷◌, ◌++◌, length, ◌≡◌, refl, sym, ap, ◌∙◌,
  arith, if◌then◌else◌, if_true, if_false, inl, inr, Bool-cases,
}
use realy_code.Native.Tracker.{holds, remove_open, last_of, init_of, pop_all}

-- the elements from the last to the first
abbrev pub backwards : List ℤ → List ℤ
backwards [] = []
backwards (i ∷ is) = backwards is ++ (i ∷ [])

backwards-last_of :
    (i : ℤ) (is : List ℤ) → backwards (i ∷ is) ≡ last_of i is ∷ backwards (init_of i is)
backwards-last_of i [] = refl
backwards-last_of i (k ∷ ks) = ap (λ is. is ++ (i ∷ [])) (backwards-last_of k ks)

length-init_of : (i : ℤ) (is : List ℤ) → length (init_of i is) ≡ length is
length-init_of i [] = refl
length-init_of i (k ∷ ks) = ap suc (length-init_of k ks)

pub pop_all-backwards :
    (n : ℕ) (is : List ℤ) (m : ℤ) (saw : Bool)
    → length is ≡ n
    → pop_all n (record { opened = is; max_index = m; saw_events = saw }) ≡ backwards is
unfolding pop_all
pop_all-backwards zero [] m saw h = refl
pop_all-backwards zero (i ∷ is) m saw h = absurd (omega arith)
pop_all-backwards (suc n) [] m saw h = refl
pop_all-backwards (suc n) (i ∷ is) m saw h =
    ap (λ js. last_of i is ∷ js)
      (pop_all-backwards n (init_of i is) m saw (length-init_of i is ∙ ground arith))
    ∙ sym (backwards-last_of i is)

-- the newest block of a number is ended, where the newest stands first
abbrev pub without_newest : ℤ → List ℤ → List ℤ
without_newest i [] = []
without_newest i (k ∷ ks) = let rest = without_newest i ks in if k ==ℤ i then ks else k ∷ rest

pub backwards-grow : (i : ℤ) (is : List ℤ) → backwards (is ++ (i ∷ [])) ≡ i ∷ backwards is
backwards-grow i [] = refl
backwards-grow i (k ∷ ks) = ap (λ is. is ++ (k ∷ [])) (backwards-grow i ks)

holds_behind : (i k : ℤ) (is : List ℤ) → holds i (is ++ (k ∷ [])) ≡ (holds i is || (k ==ℤ i))
holds_behind i k [] = ground arith
holds_behind i k (u ∷ us) = ground (arith, holds_behind i k us)

holds-backwards : (i : ℤ) (is : List ℤ) → holds i (backwards is) ≡ holds i is
holds-backwards i [] = refl
holds-backwards i (k ∷ ks) = ground (arith, holds_behind i k (backwards ks), holds-backwards i ks)

without_newest-behind :
    (i k : ℤ) (is : List ℤ)
    → without_newest i (is ++ (k ∷ [])) ≡ (
        if holds i is
        then without_newest i is ++ (k ∷ [])
        else if k ==ℤ i
        then is
        else is ++ (k ∷ []))
without_newest-behind i k [] = ground arith
without_newest-behind i k (u ∷ us) = ground (arith, without_newest-behind i k us)

remove_open-none : (i : ℤ) (is : List ℤ) → holds i is ≡ false → remove_open i is ≡ is
remove_open-none i [] h = refl
remove_open-none i (k ∷ ks) h = ground (arith, remove_open-none i ks)

-- The tracker removes the newest block of the number.
pub backwards-remove_open :
    (i : ℤ) (is : List ℤ) → backwards (remove_open i is) ≡ without_newest i (backwards is)
backwards-remove_open i [] = refl
backwards-remove_open i (k ∷ ks) =
    let behind = without_newest-behind i k (backwards ks) in
    elim (Bool-cases (holds i ks)) [
      | inl h ↦
          ap backwards (if_true _ h)
          ∙ ap (λ is. is ++ (k ∷ [])) (backwards-remove_open i ks)
          ∙ sym (behind ∙ if_true _ (holds-backwards i ks ∙ h))
      | inr h ↦ elim (Bool-cases (k ==ℤ i)) [
        | inl e ↦
            ap backwards (if_false _ h ∙ if_true _ e)
            ∙ sym (behind ∙ if_false _ (holds-backwards i ks ∙ h) ∙ if_true _ e)
        | inr e ↦
            ap backwards (if_false _ h ∙ if_false _ e ∙ ap (λ is. k ∷ is) (remove_open-none i ks h))
            ∙ sym (behind ∙ if_false _ (holds-backwards i ks ∙ h) ∙ if_false _ e)
      ]
    ]
