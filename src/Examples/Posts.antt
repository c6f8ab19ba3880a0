-- ===== src/Examples/Posts.antt =====
-- A request that is sent twice, and an answer of two events.
use Prim.Native.String.{slice, len}
use realy_code.Common.{ℕ, pos, none, List, [], ◌∷◌, ◌++◌, ◌≡◌, refl, str_eq, ◌==◌, if◌then◌else◌}
use realy_code.Upstream.Frames.{SseEvent, Told, go_on, LineTools, iter_sse}
use realy_code.Upstream.Frames.Reading.{all_lines, IsPlain, each_event, written-read}
use realy_code.Upstream.Post.{Attempt, failed, responded, Formats, retries_of, post_stream}
use realy_code.Upstream.Post.Attempts.{Explained, post_stream-Explained}

-- it knows the lines of one event
abbrev line_tools : LineTools
line_tools = record {
  trim_line_end = λ s.
      if str_eq s "event: ping\n"
      then "event: ping"
      else if str_eq s "data: {}\n"
      then "data: {}"
      else "";
  trim_space = λ s. if str_eq s " ping" then "ping" else "{}";
  behind = λ p s. slice s (len p) (len s);
}

abbrev ping : SseEvent
ping = record { event = "ping"; payload = "{}" }

ping-IsPlain : IsPlain line_tools ping
ping-IsPlain = record {
  event_trimmed = refl;
  payload_trimmed = refl;
  event_behind = refl;
  payload_behind = refl;
  has_payload = refl;
}

abbrev keep : List SseEvent → SseEvent → List SseEvent × Told
keep seen e = (seen ++ e ∷ [], go_on)

written-read_example :
    iter_sse line_tools keep []
      (record { lines = all_lines (ping ∷ ping ∷ []); last = ""; error = none })
    ≡ each_event line_tools keep [] (ping ∷ ping ∷ [])
written-read_example =
    written-read line_tools keep (ping ∷ ping ∷ []) [] refl (ping-IsPlain, (ping-IsPlain, tt))

abbrev formats : Formats
formats = record { lower = λ s. s; trim_space = λ s. s; decimal = λ n. "n" }

-- the first request fails, and all others are answered
abbrev respond : ℕ → Attempt
respond n =
    if n == 0
    then failed "refused"
    else responded (record { status_code = 200; content_type = "text/event-stream"; snippet = "" })

post_stream-Explained_example :
    Explained formats respond
      (λ _. none)
      0
      (retries_of (pos 3))
      (post_stream formats respond (λ _. none) (pos 3))
post_stream-Explained_example = post_stream-Explained formats respond (λ _. none) (pos 3)
