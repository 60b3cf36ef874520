-- ===== src/Connection/Session.antt =====
-- The events of a connection, as the io context and the thread pools deliver them, and what each
-- handler makes of the connection. A handler runs as one step: the order of the steps is the
-- interleaving of the threads.
use smartmet_server.World.{
  World, ErrorCode, regular_reply, Writer, final_chunk, stream_reply, chunked_reply, completed_read,
  next_chunked_chunk, next_chunk,
}
use smartmet_server.Connection.State.{Settings, Conn, create}
use smartmet_server.Connection.Request.{handle_read}
use smartmet_server.Connection.Stream.{
  write_stream_reply, write_chunked_reply, finalize_chunked_reply, get_next_chunk,
  get_next_chunked_chunk,
}
use smartmet_server.Connection.Execution.{handle_completed_read}
use smartmet_server.Connection.Timer.{
  notify_client_disconnect, start, handle_timer, handle_handshake,
}
use smartmet_server.Connection.Regular.{write_regular_reply}
use smartmet_server.Base.{ℕ, ◌≡◌, List, Option, length, none, take, some, ◌++◌, ◌∷◌, ◌-◌}
use smartmet_server.Text.{Bytes}
use smartmet_server.Connection.Operations.{
  operations, listening, shaking_hands, running, Operation, writing, reading,
}

pub data Event (w : World) : Type 0 where
  reads : ErrorCode → Bytes → Event w
  timer_fires : ErrorCode → ℕ → Event w
  runs_request : w.View → Event w
  runs_next_chunk runs_next_chunked_chunk : Event w
  writes : Writer → ErrorCode → ℕ → Event w
  shakes_hands disconnect_seen : ErrorCode → Event w

-- The first elements of a longer list, without as many as the shorter list has.
unfoldable pub additions {ℓ} : {A : Type ℓ} → List A → List A → List A
additions xs ys = take (length xs - length ys) xs

abbrev pub and_then {ℓ} : {A : Type ℓ} → Option A → List A → List A
and_then none xs = xs
and_then (some x) xs = x ∷ xs

module _ {w : World} where
  unfoldable pub write_handler : Writer → ErrorCode → ℕ → Conn w → Conn w
  write_handler stream_reply e n c = write_stream_reply e n c
  write_handler chunked_reply e n c = write_chunked_reply e n c
  write_handler final_chunk e n c = finalize_chunked_reply e n c
  write_handler regular_reply e n c = write_regular_reply e n c

  unfoldable pub step : Event w → Conn w → Conn w
  step (reads e bytes) c = handle_read e bytes c
  step (timer_fires e g) c = handle_timer e g c
  step (runs_request v) c = handle_completed_read v c
  step runs_next_chunk c = get_next_chunk c
  step runs_next_chunked_chunk c = get_next_chunked_chunk c
  step (writes k e n) c = write_handler k e n c
  step (shakes_hands e) c = handle_handshake e c
  step (disconnect_seen e) c = notify_client_disconnect e c

  -- The operation whose completion an event is; none for the timer.
  unfoldable pub completes : Event w → Option (Operation w.View)
  completes (reads e bytes) = some reading
  completes (timer_fires e g) = none
  completes (runs_request v) = some (running (completed_read v))
  completes runs_next_chunk = some (running next_chunk)
  completes runs_next_chunked_chunk = some (running next_chunked_chunk)
  completes (writes k e n) = some (writing k)
  completes (shakes_hands e) = some shaking_hands
  completes (disconnect_seen e) = some listening

  -- The operations that `d` has started since `c`.
  unfoldable pub started_since : Conn w → Conn w → List (Operation w.View)
  started_since c d = additions (operations d.log) (operations c.log)

  -- The connections that an accepted socket leads to, with the operations that are outstanding: any of
  -- them may complete next, with any outcome, and the timer may fire at any time.
  pub data Reach (s : Settings) : List (Operation w.View) → Conn w → Type 0 where
    accepted :
        (count : ℕ)
        → Reach s (operations (start count (create w s)).1.log) (start count (create w s)).1
    after :
        {os : List (Operation w.View)} {c : Conn w}
        → Reach s os c
        → (e : Event w) (before rest : List (Operation w.View))
        → os ≡ before ++ and_then (completes e) rest
        → Reach s (started_since c (step e c) ++ before ++ rest) (step e c)
