-- ===== src/Upstream/Post.antt =====
-- `PostStreamWithClient` of internal/provider/http.go, once the request is made: the attempts, and what
-- becomes of their responses.
pub mod Attempts
use text.Mathlib.Text.{find?}
use realy_code.Common.{
  ℕ, zero, suc, ◌+◌, ℤ, pos, negsuc, String, Bool, true, false, not, ◌&&◌, ◌||◌, Option, none, some,
  ltb, leb, ◌==◌, List, [], ◌∷◌, str_eq, concat, if◌then◌else◌,
}

-- a response: its status, its content type and the beginning of its body
pub record HttpResponse : Type 0 where
  pub status_code : ℕ
  pub content_type : String
  pub snippet : String

-- what `client.Do` gives
pub data Attempt : Type 0 where
  failed : String → Attempt
  responded : HttpResponse → Attempt

-- what a response means: it is read, it ends the attempts, or another attempt follows
pub data Verdict : Type 0 where
  opens_stream : HttpResponse → Verdict
  gives_up retry_after : String → Verdict

pub record Formats : Type 0 where
  pub lower : String → String
  pub trim_space : String → String
  pub decimal : ℕ → String

abbrev contains : String → String → Bool
contains s t = elim (find? s t) [ none ↦ false | some _ ↦ true ]

-- how many attempts follow the first: `maxRetries`, and none if it is negative
abbrev pub retries_of : ℤ → ℕ
retries_of (pos n) = n
retries_of (negsuc n) = 0

-- what the call returns, with the number of requests sent
pub record Posted : Type 0 where
  pub answer : Option HttpResponse
  pub error : String
  pub requests : ℕ

module _ (f : Formats) where
  abbrev status_error : HttpResponse → String
  status_error r =
      concat ("upstream " ∷ f.decimal r.status_code ∷ ": " ∷ f.trim_space r.snippet ∷ [])

  abbrev type_error : HttpResponse → String
  type_error r = concat (
      "upstream "
      ∷ f.decimal r.status_code
      ∷ " non-SSE response ("
      ∷ f.trim_space (f.lower r.content_type)
      ∷ "): "
      ∷ f.trim_space r.snippet
      ∷ [])

  abbrev of_response : HttpResponse → Verdict
  of_response r =
      if (r.status_code == 429) || leb 500 r.status_code
      then retry_after (status_error r)
      else if ltb r.status_code 200 || leb 300 r.status_code
      then gives_up (status_error r)
      else if not (str_eq (f.lower r.content_type) "")
          && not (contains (f.lower r.content_type) "text/event-stream")
      then gives_up (type_error r)
      else opens_stream r

  unfoldable pub verdict : Attempt → Verdict
  verdict (failed why) = retry_after why
  verdict (responded r) = of_response r

  -- what the upstream answers to each attempt, and the error of the context that ends the wait behind it
  module _ (respond : ℕ → Attempt) (cancelled : ℕ → Option String) where
    abbrev pub end_of_wait : ℕ → Option String → Posted → Posted
    end_of_wait n (some why) later = record { answer = none; error = why; requests = suc n }
    end_of_wait n none later = later

    -- the loop from attempt `n` on, with `left` more after it
    abbrev pub after_verdict : ℕ → ℕ → Verdict → Posted → Posted
    after_verdict n left (opens_stream r) later = record {
      answer = some r;
      error = "";
      requests = suc n;
    }
    after_verdict n left (gives_up why) later = record {
      answer = none;
      error = why;
      requests = suc n;
    }
    after_verdict n zero (retry_after why) later = record {
      answer = none;
      error = why;
      requests = suc n;
    }
    after_verdict n (suc left) (retry_after why) later = end_of_wait n (cancelled n) later

    unfoldable pub attempt_from : ℕ → ℕ → Posted
    unfolding verdict
    attempt_from n zero =
        after_verdict n zero (verdict (respond n))
          (record { answer = none; error = ""; requests = n })
    attempt_from n (suc left) =
        after_verdict n (suc left) (verdict (respond n)) (attempt_from (suc n) left)

    unfoldable pub post_stream : ℤ → Posted
    unfolding attempt_from
    post_stream max_retries = attempt_from 0 (retries_of max_retries)
