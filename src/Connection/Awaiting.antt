-- ===== src/Connection/Awaiting.antt =====
-- The persistence of a connection that waits for bytes (the comment at itsKeepAlive in
-- include/Connection.h): lemmas about the replies and the writers.
use smartmet_server.Base.{◌≡◌, refl, Bool, true, false, List, [], ◌∷◌, arith, ℕ, ◌+◌, if◌then◌else◌}
use smartmet_server.World.{
  World, Effect, ErrorCode, Status, async_read, post_read, report_error, report_info, Task,
  service_unavailable, StreamerStatus, exit_other, exit_ok, next_chunk, next_chunked_chunk, Writer,
  handshake, is_error, streaming,
}
use smartmet_server.Connection.State.{Conn, drop_keep_alive, close}
use smartmet_server.Connection.Reply.{
  finish_response, after_simple_reply, send_simple_reply, send_stock_reply, reply_outcome,
  reply_written, stock_response,
}
use smartmet_server.Connection.Stream.{
  flush_pending_headers, end_stream, schedule_chunk, mismatch, flush_then, get_next_chunk,
  schedule_chunk_getter, stream_failure, complete_chunked, abort_chunked, get_next_chunked_chunk,
  schedule_chunked_chunk_getter, chunked_by_status, chunk_by_status, pulled,
}
use smartmet_server.Connection.Regular.{
  finalize_stream_logging, notify_backend_finished, send_failure, complete_regular, continue_write,
}
use smartmet_server.Connection.Headers.{set_server_headers}
use smartmet_server.Text.{Bytes}

-- Whether the newest effect, reports aside, is a read from the socket, a posted call of handleRead or
-- a handshake, which leads to a read.
unfoldable pub awaits : {V : Type 0} → List (Effect V) → Bool
awaits [] = false
awaits (async_read ch ∷ log) = true
awaits (post_read ∷ log) = true
awaits (handshake ch ∷ log) = true
awaits (report_error m ∷ log) = awaits log
awaits (report_info m ∷ log) = awaits log
awaits (_ ∷ log) = false

module _ {w : World} where
  abbrev pub IsQuiet : Conn w → Type 0
  IsQuiet c = awaits c.log ≡ true → c.keep_alive ≡ false

  pub finish_response-IsQuiet : (c : Conn w) → IsQuiet c → IsQuiet (finish_response c)
  unfolding finish_response awaits
  finish_response-IsQuiet c h = ground arith

  pub after_simple_reply-IsQuiet :
      (e : ErrorCode) (c : Conn w) → awaits c.log ≡ false → IsQuiet (after_simple_reply e c)
  unfolding after_simple_reply close awaits
  after_simple_reply-IsQuiet e c h =
      let k = if is_error e then false else c.keep_alive in
      ground (
        arith,
        finish_response-IsQuiet (record c { final_status = e; keep_alive = k }) (ground arith),
      )

  pub send_simple_reply-IsQuiet : (c : Conn w) → IsQuiet (send_simple_reply c)
  unfolding send_simple_reply awaits
  send_simple_reply-IsQuiet c = after_simple_reply-IsQuiet (reply_outcome c) (reply_written c) refl

  pub send_stock_reply-IsQuiet : (s : Status) (c : Conn w) → IsQuiet (send_stock_reply s c)
  unfolding send_stock_reply
  send_stock_reply-IsQuiet s c = send_simple_reply-IsQuiet (set_server_headers (stock_response s c))

  -- The chunk getters and the writers end in a reply, in an effect that is no read, or as they began.
  pub notify_backend_finished-IsQuiet :
      (s : StreamerStatus) (c : Conn w) → IsQuiet c → IsQuiet (notify_backend_finished s c)
  unfolding notify_backend_finished awaits
  notify_backend_finished-IsQuiet s c h = ground arith

  pub finalize_stream_logging-IsQuiet : (c : Conn w) → IsQuiet (finalize_stream_logging c)
  unfolding finalize_stream_logging awaits
  finalize_stream_logging-IsQuiet c h = cc

  pub schedule_chunk-IsQuiet : (t : Task w.View) (c : Conn w) → IsQuiet (schedule_chunk t c)
  unfolding schedule_chunk awaits
  schedule_chunk-IsQuiet t c =
      ground (arith, send_stock_reply-IsQuiet service_unavailable (drop_keep_alive c))

  pub flush_pending_headers-IsQuiet : (c : Conn w) → IsQuiet c → IsQuiet (flush_pending_headers c).0
  unfolding flush_pending_headers awaits
  flush_pending_headers-IsQuiet c h = ground arith

  pub end_stream-IsQuiet : (s : StreamerStatus) (c : Conn w) → IsQuiet (end_stream s c)
  unfolding end_stream awaits
  end_stream-IsQuiet s c =
      let c1 = notify_backend_finished s (finalize_stream_logging c) in
      let q =
        notify_backend_finished-IsQuiet s (finalize_stream_logging c)
          (finalize_stream_logging-IsQuiet c) in
      ground (
        arith,
        q,
        finish_response-IsQuiet c1 q,
        finish_response-IsQuiet (drop_keep_alive (mismatch c1)),
      )

  pub flush_then-IsQuiet :
      (rest : Conn w → Conn w) (c : Conn w)
      → ((d : Conn w) → IsQuiet (rest d))
      → IsQuiet c
      → IsQuiet (flush_then rest c)
  flush_then-IsQuiet rest c h q =
      let (c1, sent) = flush_pending_headers c in
      ground (arith, h c1, flush_pending_headers-IsQuiet c q)

  chunk_by_status-IsQuiet :
      (s : StreamerStatus) (c : Conn w) → IsQuiet c → IsQuiet (chunk_by_status s c)
  unfolding chunk_by_status awaits
  chunk_by_status-IsQuiet streaming c q = ground (
    arith,
    flush_then-IsQuiet schedule_chunk_getter (pulled c) (schedule_chunk-IsQuiet next_chunk) q,
  )
  chunk_by_status-IsQuiet exit_ok c q =
      flush_then-IsQuiet (end_stream exit_ok) c (end_stream-IsQuiet exit_ok) q
  chunk_by_status-IsQuiet (exit_other n) c q =
      flush_then-IsQuiet (end_stream (exit_other n)) c (end_stream-IsQuiet (exit_other n)) q

  pub get_next_chunk-IsQuiet : (c : Conn w) → IsQuiet c → IsQuiet (get_next_chunk c)
  unfolding get_next_chunk
  get_next_chunk-IsQuiet c q = chunk_by_status-IsQuiet (w.streaming_status c.log c.response) c q

  pub abort_chunked-IsQuiet : (c : Conn w) → IsQuiet (abort_chunked c)
  unfolding abort_chunked close awaits
  abort_chunked-IsQuiet c h = cc

  chunked_by_status-IsQuiet :
      (s : StreamerStatus) (c : Conn w) → IsQuiet c → IsQuiet (chunked_by_status s c)
  unfolding chunked_by_status awaits
  chunked_by_status-IsQuiet streaming c q = ground (
    arith,
    flush_then-IsQuiet schedule_chunked_chunk_getter (pulled c)
        (schedule_chunk-IsQuiet next_chunked_chunk) q,
  )
  chunked_by_status-IsQuiet exit_ok c q = λ h. cc
  chunked_by_status-IsQuiet (exit_other n) c q =
      abort_chunked-IsQuiet (notify_backend_finished (exit_other n) c)

  pub get_next_chunked_chunk-IsQuiet : (c : Conn w) → IsQuiet c → IsQuiet (get_next_chunked_chunk c)
  unfolding get_next_chunked_chunk
  get_next_chunked_chunk-IsQuiet c q =
      chunked_by_status-IsQuiet (w.streaming_status c.log c.response) c q

  pub send_failure-IsQuiet :
      (e : ErrorCode) (what tail : Bytes) (c : Conn w) → IsQuiet (send_failure e what tail c)
  unfolding send_failure awaits
  send_failure-IsQuiet e what tail c =
      ground (arith, send_stock_reply-IsQuiet service_unavailable (drop_keep_alive c))

  pub continue_write-IsQuiet :
      (k : Writer) (n : ℕ) (done : Conn w → Conn w) (c : Conn w)
      → ((d : Conn w) → IsQuiet d → IsQuiet (done d))
      → IsQuiet c
      → IsQuiet (continue_write k n done c)
  unfolding continue_write awaits
  continue_write-IsQuiet k n done c h q =
      ground (arith, h (record c { sent_bytes = c.sent_bytes + n }) q)

  pub stream_failure-IsQuiet :
      (e : ErrorCode) (what tail : Bytes) (c : Conn w) → IsQuiet (stream_failure e what tail c)
  unfolding stream_failure
  stream_failure-IsQuiet e what tail c =
      let c1 = finalize_stream_logging (send_failure e what tail c) in
      notify_backend_finished-IsQuiet (w.streaming_status c1.log c1.response) c1
        (finalize_stream_logging-IsQuiet (send_failure e what tail c))

  pub complete_regular-IsQuiet : (c : Conn w) → IsQuiet c → IsQuiet (complete_regular c)
  unfolding complete_regular
  complete_regular-IsQuiet c q =
      finish_response-IsQuiet (notify_backend_finished exit_ok c)
        (notify_backend_finished-IsQuiet exit_ok c q)

  pub complete_chunked-IsQuiet : (c : Conn w) → IsQuiet (complete_chunked c)
  unfolding complete_chunked
  complete_chunked-IsQuiet c =
      finish_response-IsQuiet (finalize_stream_logging c) (finalize_stream_logging-IsQuiet c)
