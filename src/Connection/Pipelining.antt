-- ===== src/Connection/Pipelining.antt =====
-- The bytes of a client that sends its requests without waiting for the replies: what handleRead takes
-- from the socket, what the parser consumes, and what stays in itsBuffer for the next request.
use smartmet_server.World.{World, is_error, complete, at_read, Parsed, ErrorCode}
use smartmet_server.Base.{
  ◌++◌, Bool, List, take, ltb, not, [], length, ◌&&◌, ◌∷◌, ◌+◌, if◌then◌else◌,
}
use smartmet_server.Connection.Session.{Event, reads, step}
use smartmet_server.Connection.State.{Conn}
use smartmet_server.Text.{Bytes}

abbrev pub message_of : {R : Type 0} → Parsed R → Bytes → Bytes
message_of (complete q n) s = take n s
message_of _ s = []

module _ {w : World} where
  -- Whether a read puts its bytes into the buffer.
  unfoldable pub takes : ErrorCode → Bytes → Conn w → Bool
  takes e bytes c =
      not (w.shutdown_requested c.log at_read)
      && (not (is_error e)
          && not (
              ltb 0 c.max_request_size && ltb c.max_request_size (c.received_bytes + length bytes)))

  -- The bytes that an event delivers, and those that the parser consumes at it: a whole message. A read
  -- that is refused, in a shutdown, with an error or above itsMaxRequestSize, delivers none.
  unfoldable pub delivered : Event w → Conn w → Bytes
  unfolding takes
  delivered (reads e bytes) c = if takes e bytes c then bytes else []
  delivered _ c = []

  unfoldable pub consumed : Event w → Conn w → Bytes
  unfolding takes
  consumed (reads e bytes) c =
      let s = c.buffer ++ bytes in
      if takes e bytes c then message_of (w.parse_one_request s) s else []
  consumed _ c = []

  -- A run of events, in any order, with all the bytes that it delivers and consumes.
  unfoldable pub run_events : List (Event w) → Conn w → Conn w
  run_events [] c = c
  run_events (e ∷ es) c = run_events es (step e c)

  unfoldable pub all_delivered : List (Event w) → Conn w → Bytes
  all_delivered [] c = []
  all_delivered (e ∷ es) c = delivered e c ++ all_delivered es (step e c)

  unfoldable pub all_consumed : List (Event w) → Conn w → Bytes
  all_consumed [] c = []
  all_consumed (e ∷ es) c = consumed e c ++ all_consumed es (step e c)
