-- ===== src/Connection/Operations.antt =====
-- The operations that a connection starts and whose completion calls a handler: reads, writes and tasks
-- of the thread pools. Which of them may follow which is a description of source/AsyncConnection.cpp
-- on its own; the handlers are compared with it in Protocol.
use smartmet_server.World.{
  Task, World, next_chunk, Effect, post_read, chunked_reply, regular_reply, completed_read,
  handshake, schedule, final_chunk, async_read, next_chunked_chunk, async_write, Writer,
  stream_reply, disconnect_listen,
}
use smartmet_server.Base.{List, Bool, [], true, false, ◌∷◌, ◌⊎◌, ◌≡◌}
use smartmet_server.Connection.State.{Conn}
use smartmet_server.Connection.Awaiting.{awaits}

pub data Operation (V : Type 0) : Type 0 where
  shaking_hands reading listening : Operation V
  running : Task V → Operation V
  writing : Writer → Operation V

-- The operations that a trace has started, newest first.
unfoldable pub operations : {V : Type 0} → List (Effect V) → List (Operation V)
operations [] = []
operations (handshake ch ∷ log) = shaking_hands ∷ operations log
operations (async_read ch ∷ log) = reading ∷ operations log
operations (post_read ∷ log) = reading ∷ operations log
operations (disconnect_listen ch ∷ log) = listening ∷ operations log
operations (schedule q t ∷ log) = running t ∷ operations log
operations (async_write ch k b ∷ log) = writing k ∷ operations log
operations (_ ∷ log) = operations log

abbrev pub older : {V : Type 0} → List (Operation V) → List (Operation V)
older [] = []
older (o ∷ os) = os

abbrev pub passes : {V : Type 0} → (Operation V → Bool) → List (Operation V) → Bool
passes p [] = false
passes p (o ∷ os) = p o

-- A read, and a handshake, which leads to one.
abbrev pub is_read : {V : Type 0} → Operation V → Bool
is_read reading = true
is_read shaking_hands = true
is_read _ = false

-- The order of the operations. A request is read in pieces and then handed to a thread pool; there
-- the reply starts, and the end of the reply leads to the next read.
unfoldable pub may_follow : {V : Type 0} → Operation V → Operation V → Bool
may_follow shaking_hands reading = true
may_follow reading reading = true
may_follow reading (running (completed_read v)) = true
may_follow listening listening = true
may_follow (running (completed_read v)) reading = true
may_follow (running (completed_read v)) (running next_chunk) = true
may_follow (running (completed_read v)) (running next_chunked_chunk) = true
may_follow (running (completed_read v)) (writing k) = true
may_follow (running next_chunk) reading = true
may_follow (running next_chunk) (running next_chunk) = true
may_follow (running next_chunk) (writing stream_reply) = true
may_follow (running next_chunked_chunk) (running next_chunked_chunk) = true
may_follow (running next_chunked_chunk) (writing chunked_reply) = true
may_follow (running next_chunked_chunk) (writing final_chunk) = true
may_follow (writing stream_reply) (writing stream_reply) = true
may_follow (writing stream_reply) (running next_chunk) = true
may_follow (writing chunked_reply) (writing chunked_reply) = true
may_follow (writing chunked_reply) (running next_chunked_chunk) = true
may_follow (writing final_chunk) (writing final_chunk) = true
may_follow (writing final_chunk) reading = true
may_follow (writing regular_reply) (writing regular_reply) = true
may_follow (writing regular_reply) reading = true
may_follow _ _ = false

module _ {w : World} where
  -- From `c` to `d` no operation is started, or one that passes the test; and the trace ends with the
  -- start of a read only if that operation is one.
  abbrev pub Starts : (Operation w.View → Bool) → Conn w → Conn w → Type 0
  Starts p c d =
      (operations d.log ≡ operations c.log)
      ⊎ ((older (operations d.log) ≡ operations c.log)
          × ((passes p (operations d.log) ≡ true)
              × (passes is_read (operations d.log) ≡ awaits d.log)))

  -- From `c` to `d` no operation is started.
  abbrev pub IsStill : Conn w → Conn w → Type 0
  IsStill c d = operations d.log ≡ operations c.log
