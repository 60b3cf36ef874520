-- ===== src/Connection/Starting.antt =====
-- The operations that the replies and the ends of streams start.
use smartmet_server.World.{
  World, StreamerStatus, is_error, service_unavailable, Task, Status, ErrorCode,
}
use smartmet_server.Base.{false, true, arith, refl, Bool, ◌≡◌, if◌then◌else◌}
use smartmet_server.Connection.Operations.{Operation, IsStill, Starts, reading, operations, running}
use smartmet_server.Connection.Reply.{
  reply_outcome, send_simple_reply, reply_written, stock_response, after_simple_reply,
  send_stock_reply, finish_response,
}
use smartmet_server.Connection.Settling.{set_server_headers-Settles}
use smartmet_server.Connection.Stream.{
  schedule_chunk, flush_pending_headers, mismatch, end_stream, flush_then,
}
use smartmet_server.Connection.Headers.{
  set_connection_headers, append_stale_directives, stamped, set_server_headers,
}
use smartmet_server.Connection.State.{close, Conn, drop_keep_alive}
use smartmet_server.Connection.Regular.{notify_backend_finished, finalize_stream_logging}
use smartmet_server.Connection.Awaiting.{awaits}

module _ {w : World} where
  pub finish_response-Starts :
      (p : Operation w.View → Bool) (c : Conn w) → p reading ≡ true → Starts p c (finish_response c)
  unfolding finish_response operations awaits
  finish_response-Starts p c h = ground arith

  pub set_server_headers-IsStill : (c : Conn w) → IsStill c (set_server_headers c)
  unfolding set_server_headers set_connection_headers append_stale_directives stamped
  set_server_headers-IsStill c = ground arith

  -- A reply that is written at once is followed by a read only where the connection is kept.
  after_simple_reply-Starts :
      (p : Operation w.View → Bool) (e : ErrorCode) (c : Conn w)
      → p reading ≡ true
      → Starts p c (after_simple_reply e c)
  unfolding after_simple_reply close operations awaits
  after_simple_reply-Starts p e c h =
      let k = if is_error e then false else c.keep_alive in
      ground (arith, finish_response-Starts p (record c { final_status = e; keep_alive = k }) h)

  pub send_simple_reply-Starts :
      (p : Operation w.View → Bool) (c : Conn w)
      → p reading ≡ true
      → Starts p c (send_simple_reply c)
  unfolding send_simple_reply operations awaits
  send_simple_reply-Starts p c h = after_simple_reply-Starts p (reply_outcome c) (reply_written c) h

  pub send_stock_reply-Starts :
      (p : Operation w.View → Bool) (s : Status) (c : Conn w)
      → p reading ≡ true
      → Starts p c (send_stock_reply s c)
  unfolding send_stock_reply stock_response
  send_stock_reply-Starts p s c h =
      let d = set_server_headers (stock_response s c) in
      ground
        (arith, set_server_headers-IsStill (stock_response s c), send_simple_reply-Starts p d h)

  send_simple_reply-IsStill : (c : Conn w) → c.keep_alive ≡ false → IsStill c (send_simple_reply c)
  unfolding send_simple_reply after_simple_reply close operations awaits
  send_simple_reply-IsStill c k = ground arith

  pub send_stock_reply-IsStill :
      (s : Status) (c : Conn w) → c.keep_alive ≡ false → IsStill c (send_stock_reply s c)
  unfolding send_stock_reply stock_response
  send_stock_reply-IsStill s c k =
      let d = stock_response s c in
      ground (
        arith,
        set_server_headers-IsStill d,
        set_server_headers-Settles d,
        send_simple_reply-IsStill (set_server_headers d),
      )

  -- The ends of the handlers of tasks and of writes.
  pub notify_backend_finished-IsStill :
      (s : StreamerStatus) (c : Conn w) → IsStill c (notify_backend_finished s c)
  unfolding notify_backend_finished operations awaits
  notify_backend_finished-IsStill s c = ground arith

  pub finalize_stream_logging-IsStill : (c : Conn w) → IsStill c (finalize_stream_logging c)
  unfolding finalize_stream_logging operations awaits
  finalize_stream_logging-IsStill c = ground arith

  pub flush_pending_headers-IsStill : (c : Conn w) → IsStill c (flush_pending_headers c).0
  unfolding flush_pending_headers operations awaits
  flush_pending_headers-IsStill c = ground arith

  pub schedule_chunk-Starts :
      (p : Operation w.View → Bool) (t : Task w.View) (c : Conn w)
      → p (running t) ≡ true
      → Starts p c (schedule_chunk t c)
  unfolding schedule_chunk operations awaits
  schedule_chunk-Starts p t c h =
      ground (arith, send_stock_reply-IsStill service_unavailable (drop_keep_alive c) refl)

  pub end_stream-Starts :
      (p : Operation w.View → Bool) (s : StreamerStatus) (c : Conn w)
      → p reading ≡ true
      → Starts p c (end_stream s c)
  unfolding end_stream operations awaits
  end_stream-Starts p s c h =
      let c0 = finalize_stream_logging c in
      let c1 = notify_backend_finished s c0 in
      ground (
        arith,
        finalize_stream_logging-IsStill c,
        notify_backend_finished-IsStill s c0,
        finish_response-Starts p c1 h,
        finish_response-Starts p (drop_keep_alive (mismatch c1)) h,
      )

  pub flush_then-Starts :
      (p : Operation w.View → Bool) (rest : Conn w → Conn w) (c : Conn w)
      → ((d : Conn w) → Starts p d (rest d))
      → Starts p c (flush_then rest c)
  flush_then-Starts p rest c h =
      ground (arith, flush_pending_headers-IsStill c, h (flush_pending_headers c).0)
