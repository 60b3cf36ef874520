-- ===== src/Connection/RefusedRead.antt =====
-- source/AsyncConnection.cpp: handleRead where it refuses the bytes, in a shutdown, with an error or
-- above itsMaxRequestSize.
use smartmet_server.World.{
  World, is_error, request_entity_too_large, ErrorCode, close_socket, shutdown,
}
use smartmet_server.Connection.Session.{step, Reach, reads}
use smartmet_server.Connection.State.{Conn, Settings}
use smartmet_server.Base.{length, false, List, arith, true, some, ◌+◌, ◌≡◌, ◌⊎◌, ◌∙◌}
use smartmet_server.Connection.Request.{handle_read, receive, wake, too_large}
use smartmet_server.Connection.Pipelining.{takes}
use smartmet_server.Connection.Timeout.{newest, send_stock_reply-log}
use smartmet_server.Connection.Operations.{is_read, passes, Operation, IsStill, operations}
use smartmet_server.Connection.Starting.{send_stock_reply-IsStill}
use smartmet_server.Text.{Bytes}
use smartmet_server.Connection.Persistence.{Reach-IsQuiet}
use smartmet_server.Connection.Protocol.{handle_read_error-IsStill}
use smartmet_server.Connection.Awaiting.{awaits}
use smartmet_server.Connection.SettlingTimer.{handle_read_error-Settles}
use smartmet_server.Connection.Settling.{send_stock_reply-Ends}

module _ {w : World} where
  wake-keep_alive : (c : Conn w) → (wake c).keep_alive ≡ c.keep_alive
  unfolding wake
  wake-keep_alive c = ground arith

  wake-buffer : (c : Conn w) → (wake c).buffer ≡ c.buffer
  unfolding wake
  wake-buffer c = ground arith

  wake-IsStill : (c : Conn w) → IsStill c (wake c)
  unfolding wake operations awaits
  wake-IsStill c = ground arith

  handle_read-refused :
      (e : ErrorCode) (bytes : Bytes) (c : Conn w)
      → c.keep_alive ≡ false
      → takes e bytes c ≡ false
      → IsStill c (handle_read e bytes c)
        × ((newest (handle_read e bytes c).log ≡ some close_socket) ⊎ (is_error e ≡ true))
        × ((handle_read e bytes c).buffer ≡ c.buffer)
  unfolding handle_read receive takes wake operations awaits
  handle_read-refused e bytes c k t =
      let c1 = record c { final_status = e } in
      let c2 = record (wake c1) { received_bytes = c.received_bytes + length bytes } in
      let k2 = wake-keep_alive c1 ∙ k in
      ground (
        arith,
        send_stock_reply-Ends shutdown c,
        send_stock_reply-Ends request_entity_too_large (too_large c2),
        handle_read_error-Settles e c1,
        wake-IsStill c1,
        wake-buffer c1,
        send_stock_reply-IsStill shutdown c k,
        send_stock_reply-log shutdown c k,
        handle_read_error-IsStill e c1,
        send_stock_reply-IsStill request_entity_too_large (too_large c2) k2,
        send_stock_reply-log request_entity_too_large (too_large c2) k2,
      )

  -- Whatever has happened before, a read that is refused, in a shutdown, with an error or above
  -- itsMaxRequestSize, ends the reading: nothing of it enters the buffer, no operation is started, also
  -- no other read, and unless the read has failed with an error the socket is closed.
  pub Reach-refused :
      {s : Settings} {os : List (Operation w.View)} {c : Conn w} (e : ErrorCode) (bytes : Bytes)
      → Reach s os c
      → passes is_read os ≡ true
      → takes e bytes c ≡ false
      → IsStill c (step (reads e bytes) c)
        × ((newest (step (reads e bytes) c).log ≡ some close_socket) ⊎ (is_error e ≡ true))
        × ((step (reads e bytes) c).buffer ≡ c.buffer)
  unfolding step
  Reach-refused {c} e bytes r due t = handle_read-refused e bytes c (Reach-IsQuiet r due) t
