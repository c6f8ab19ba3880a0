-- ===== src/Upstream/Post/Attempts.antt =====
-- Which attempts a request takes, and which of them gives its result.
use mathlib.Core.Path.{subst}
use realy_code.Common.{
  ℕ, zero, suc, ◌+◌, ◌≤◌, ◌<◌, ℤ, String, Bool, true, false, Option, none, some, ◌≡◌, ◌≢◌, refl,
  sym, ◌∙◌, ap, arith, ◌⊎◌, inl, inr, Bool-cases, ◌==◌,
}
use realy_code.Upstream.Post.{
  HttpResponse, Attempt, Verdict, opens_stream, gives_up, retry_after, Formats, retries_of, Posted,
  verdict, end_of_wait, after_verdict, attempt_from, post_stream,
}

abbrev pub is_retry : Verdict → Bool
is_retry (retry_after why) = true
is_retry _ = false

abbrev pub answer_of : Verdict → Option HttpResponse
answer_of (opens_stream r) = some r
answer_of _ = none

module _ (f : Formats) (respond : ℕ → Attempt) (cancelled : ℕ → Option String) where
  -- The attempts from `n` to `n + left`: the last one made gives the answer, each one before it asked for
  -- another and was not cut short, and if the last one asks for another too, none was left or the wait
  -- was cut short.
  pub record Explained (n left : ℕ) (p : Posted) : Type 0 where
    pub final : ℕ
    pub counted : p.requests ≡ suc final
    pub at_least : n ≤ final
    pub at_most : final ≤ n + left
    pub retried :
        (i : ℕ)
        → n ≤ i
        → i < final
        → (is_retry (verdict f (respond i)) ≡ true) × (cancelled i ≡ none)
    pub answered : p.answer ≡ answer_of (verdict f (respond final))
    pub ended :
        is_retry (verdict f (respond final)) ≡ true → (final ≡ n + left) ⊎ (cancelled final ≢ none)

  -- the attempt `n` is the last
  here :
      (n left : ℕ) (p : Posted)
      → p.requests ≡ suc n
      → p.answer ≡ answer_of (verdict f (respond n))
      → (is_retry (verdict f (respond n)) ≡ true → (n ≡ n + left) ⊎ (cancelled n ≢ none))
      → Explained n left p
  here n left p count answer ending = record {
    final = n;
    counted = count;
    at_least = omega arith;
    at_most = omega arith;
    retried = λ i from to. absurd (omega arith);
    answered = answer;
    ended = ending;
  }

  later :
      (n left : ℕ) (p : Posted)
      → is_retry (verdict f (respond n)) ≡ true
      → cancelled n ≡ none
      → Explained (suc n) left p
      → Explained n (suc left) p
  later n left p again waited e = record {
    final = e.final;
    counted = e.counted;
    at_least = omega (arith, e.at_least);
    at_most = omega (arith, e.at_most);
    retried = λ i from to. elim (Bool-cases (n == i)) [
      | inl same ↦
          subst (λ j. (is_retry (verdict f (respond j)) ≡ true) × (cancelled j ≡ none))
            (ground arith) (again, waited)
      | inr other ↦ e.retried i (ground arith) to
    ];
    answered = e.answered;
    ended = λ h. elim (e.ended h) [ inl last ↦ inl (omega arith) | inr cut ↦ inr cut ];
  }

  -- an attempt that asks for another is the last only if the wait is cut short
  waited-Explained :
      (n left : ℕ) (o : Option String) (p : Posted)
      → is_retry (verdict f (respond n)) ≡ true
      → answer_of (verdict f (respond n)) ≡ none
      → cancelled n ≡ o
      → Explained (suc n) left p
      → Explained n (suc left) (end_of_wait f respond cancelled n o p)
  waited-Explained n left none p again nothing c e = later n left p again c e
  waited-Explained n left (some why) p again nothing c e =
      here n (suc left) _ refl (sym nothing) (λ _. inr (λ z. absurd (cc)))

  attempt-Explained :
      (n left : ℕ) (v : Verdict) (p : Posted)
      → verdict f (respond n) ≡ v
      → Explained (suc n) left p
      → Explained n (suc left) (after_verdict f respond cancelled n (suc left) v p)
  attempt-Explained n left (opens_stream r) p v e =
      here n (suc left) _ refl (sym (ap answer_of v)) (λ h. absurd (cc (sym (ap is_retry v) ∙ h)))
  attempt-Explained n left (gives_up why) p v e =
      here n (suc left) _ refl (sym (ap answer_of v)) (λ h. absurd (cc (sym (ap is_retry v) ∙ h)))
  attempt-Explained n left (retry_after why) p v e =
      waited-Explained n left (cancelled n) p (ap is_retry v) (ap answer_of v) refl e

  last-Explained :
      (n : ℕ) (v : Verdict) (p : Posted)
      → verdict f (respond n) ≡ v
      → Explained n zero (after_verdict f respond cancelled n zero v p)
  last-Explained n (opens_stream r) p v =
      here n zero _ refl (sym (ap answer_of v)) (λ _. inl (omega arith))
  last-Explained n (gives_up why) p v =
      here n zero _ refl (sym (ap answer_of v)) (λ _. inl (omega arith))
  last-Explained n (retry_after why) p v =
      here n zero _ refl (sym (ap answer_of v)) (λ _. inl (omega arith))

  attempt_from-Explained : (left n : ℕ) → Explained n left (attempt_from f respond cancelled n left)
  unfolding attempt_from
  attempt_from-Explained zero n = last-Explained n (verdict f (respond n)) _ refl
  attempt_from-Explained (suc left) n =
      attempt-Explained n left (verdict f (respond n)) _ refl (attempt_from-Explained left (suc n))

  -- A request is sent once and at most `maxRetries` times more: the last attempt made gives the answer, and
  -- there is none if that attempt gives none; each attempt before it failed in a way that asks for
  -- another, and the wait behind it was not cut short; and where the last one asks for another too, none
  -- was left or the wait was cut short.
  pub post_stream-Explained :
      (max_retries : ℤ)
      → Explained 0 (retries_of max_retries) (post_stream f respond cancelled max_retries)
  unfolding post_stream
  post_stream-Explained max_retries = attempt_from-Explained (retries_of max_retries) 0
