-- ===== src/Sse/Writer.antt =====
-- `Writer` of internal/sse/sse.go. The connection is a parameter: it says which events cannot be
-- marshalled and which writes fail. Flushing has no result and is left out.
use realy_code.Common.{String, Option, none, some, List, [], ◌∷◌}
use realy_code.Sse.Event.{Event}

-- one write of `io.WriteString` or `fmt.Fprintf`
pub data Frame (J : Type 0) : Type 0 where
  raw : String → Frame J
  event : Event J → Frame J

pub record Connection (J : Type 0) : Type 0 where
  pub marshal_error : Event J → Option String
  -- what was sent before, and the frame to send
  pub write_error : List (Frame J) → Frame J → Option String

-- `sent` holds the frames that went out, the newest first.
pub record Writer (J : Type 0) : Type 0 where
  pub sent : List (Frame J)
  pub err : Option String

abbrev pub new_writer : {J : Type 0} → Writer J
new_writer = record { sent = []; err = none }

module _ {J : Type 0} (conn : Connection J) where
  -- the write of a frame, and the error that it leaves
  put : Writer J → Frame J → Writer J
  put w f = elim (conn.write_error w.sent f) [
    | none ↦ record w { sent = f ∷ w.sent }
    | some e ↦ record w { err = some e }
  ]

  -- the new writer, and the error that is returned
  unfoldable pub write_raw : Writer J → String → Writer J × Option String
  unfolding put
  write_raw w line = elim w.err [
    | some e ↦ (w, some e)
    | none ↦ (put w (raw line), (put w (raw line)).err)
  ]

  unfoldable pub write_event : Writer J → Event J → Writer J
  unfolding put
  write_event w e = elim w.err [
    | some _ ↦ w
    | none ↦ elim (conn.marshal_error e) [
      | some m ↦ record w { err = some m }
      | none ↦ put w (event e)
    ]
  ]
