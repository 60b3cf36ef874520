-- ===== src/Connection/Settling.antt =====
-- What the handlers other than the reading ones leave alone: what is steady, the count of requests, and
-- a persistence that is off.
use smartmet_server.World.{
  World, StreamerStatus, Task, ErrorCode, service_unavailable, Status, is_error, exit_ok,
  next_chunked_chunk, exit_other, next_chunk, streaming,
}
use smartmet_server.Connection.Reply.{
  send_stock_reply, reply_outcome, after_simple_reply, send_simple_reply, finish_response,
  stock_response, reply_written,
}
use smartmet_server.Connection.State.{drop_keep_alive, close, Conn}
use smartmet_server.Connection.Headers.{
  append_stale_directives, set_server_headers, stamped, set_connection_headers,
}
use smartmet_server.Connection.Stream.{
  flush_pending_headers, schedule_chunk, end_stream, mismatch, get_next_chunk, chunk_by_status,
  get_next_chunked_chunk, chunked_by_status, flush_then, abort_chunked, pulled,
  schedule_chunk_getter, schedule_chunked_chunk_getter,
}
use smartmet_server.Base.{false, refl, true, arith, ◌≡◌, ◌∙◌, if◌then◌else◌}
use smartmet_server.Connection.Awaiting.{awaits}
use smartmet_server.Connection.Regular.{notify_backend_finished, finalize_stream_logging}
use smartmet_server.Connection.Steady.{IsSteady, IsSteady-trans, listens, was_closed}

module _ {w : World} where
  -- From `c` to `d` what is steady is kept, and the bytes that belong to the next request.
  abbrev pub Keeps : Conn w → Conn w → Type 0
  Keeps c d = IsSteady c d × (d.buffer ≡ c.buffer)

  Keeps-trans : (c d e : Conn w) → Keeps c d → Keeps d e → Keeps c e
  Keeps-trans c d e (s, b) (s', b') = (IsSteady-trans c d e s s', b' ∙ b)

  -- From `c` to `d` no request is counted; and if the persistence is off it stays off, and no read is
  -- started.
  abbrev pub Settles : Conn w → Conn w → Type 0
  Settles c d =
      Keeps c d
      × (d.request_count ≡ c.request_count)
      × (d.max_keep_alive_requests ≡ c.max_keep_alive_requests)
      × (c.keep_alive ≡ false
          → (d.keep_alive ≡ false) × (awaits d.log ≡ true → awaits c.log ≡ true))

  -- The same, where an effect that is no read has the last word.
  abbrev pub Ends : Conn w → Conn w → Type 0
  Ends c d =
      Keeps c d
      × (d.request_count ≡ c.request_count)
      × (d.max_keep_alive_requests ≡ c.max_keep_alive_requests)
      × (c.keep_alive ≡ false → (d.keep_alive ≡ false) × (awaits d.log ≡ false))

  pub Settles-trans : (c d e : Conn w) → Settles c d → Settles d e → Settles c e
  Settles-trans c d e (s, n, m, h) (s', n', m', h') = (
    Keeps-trans c d e s s',
    n' ∙ n,
    m' ∙ m,
    λ k. let (off, calm) = h k in let (off', calm') = h' off in (off', λ a. calm (calm' a)),
  )

  pub Ends-trans : (c d e : Conn w) → Settles c d → Ends d e → Ends c e
  Ends-trans c d e (s, n, m, h) (s', n', m', h') =
      (Keeps-trans c d e s s', n' ∙ n, m' ∙ m, λ k. h' (h k).0)

  pub Settles-of_Ends : (c d : Conn w) → Ends c d → Settles c d
  Settles-of_Ends c d (s, n, m, h) = (s, n, m, λ k. let (off, calm) = h k in (off, λ a. cc))

  pub finish_response-Settles : (c : Conn w) → Settles c (finish_response c)
  unfolding finish_response awaits listens was_closed
  finish_response-Settles c = ground arith

  after_simple_reply-Ends :
      (e : ErrorCode) (c : Conn w) → awaits c.log ≡ false → Ends c (after_simple_reply e c)
  unfolding after_simple_reply close awaits listens was_closed
  after_simple_reply-Ends e c h =
      let k = if is_error e then false else c.keep_alive in
      ground (arith, finish_response-Settles (record c { final_status = e; keep_alive = k }))

  pub send_simple_reply-Ends : (c : Conn w) → Ends c (send_simple_reply c)
  unfolding send_simple_reply awaits listens was_closed
  send_simple_reply-Ends c = after_simple_reply-Ends (reply_outcome c) (reply_written c) refl

  set_connection_headers-Settles : (c : Conn w) → Settles c (set_connection_headers c)
  unfolding set_connection_headers
  set_connection_headers-Settles c = ground arith

  append_stale_directives-Settles : (c : Conn w) → Settles c (append_stale_directives c)
  unfolding append_stale_directives
  append_stale_directives-Settles c = ground arith

  pub set_server_headers-Settles : (c : Conn w) → Settles c (set_server_headers c)
  unfolding set_server_headers stamped
  set_server_headers-Settles c =
      Settles-trans (stamped c) (set_connection_headers (stamped c)) (set_server_headers c)
        (set_connection_headers-Settles (stamped c))
        (append_stale_directives-Settles (set_connection_headers (stamped c)))

  pub send_stock_reply-Ends : (s : Status) (c : Conn w) → Ends c (send_stock_reply s c)
  unfolding send_stock_reply stock_response
  send_stock_reply-Ends s c =
      let d = stock_response s c in
      Ends-trans d (set_server_headers d) (send_simple_reply (set_server_headers d))
        (set_server_headers-Settles d) (send_simple_reply-Ends (set_server_headers d))

  pub notify_backend_finished-Settles :
      (s : StreamerStatus) (c : Conn w) → Settles c (notify_backend_finished s c)
  unfolding notify_backend_finished awaits listens was_closed
  notify_backend_finished-Settles s c = ground arith

  pub finalize_stream_logging-Settles : (c : Conn w) → Settles c (finalize_stream_logging c)
  unfolding finalize_stream_logging awaits listens was_closed
  finalize_stream_logging-Settles c = ground arith

  pub schedule_chunk-Settles : (t : Task w.View) (c : Conn w) → Settles c (schedule_chunk t c)
  unfolding schedule_chunk awaits listens was_closed
  schedule_chunk-Settles t c =
      ground (arith, send_stock_reply-Ends service_unavailable (drop_keep_alive c))

  flush_pending_headers-Settles : (c : Conn w) → Settles c (flush_pending_headers c).0
  unfolding flush_pending_headers awaits listens was_closed
  flush_pending_headers-Settles c = ground arith

  end_stream-Settles : (s : StreamerStatus) (c : Conn w) → Settles c (end_stream s c)
  unfolding end_stream awaits listens was_closed
  end_stream-Settles s c =
      let c0 = finalize_stream_logging c in
      let c1 = notify_backend_finished s c0 in
      let ended =
        Settles-trans c c0 c1 (finalize_stream_logging-Settles c)
          (notify_backend_finished-Settles s c0) in
      ground (
        arith,
        ended,
        finish_response-Settles c1,
        finish_response-Settles (drop_keep_alive (mismatch c1)),
      )

  flush_then-Settles :
      (rest : Conn w → Conn w) (c : Conn w)
      → ((d : Conn w) → Settles d (rest d))
      → Settles c (flush_then rest c)
  flush_then-Settles rest c h =
      let (c1, sent) = flush_pending_headers c in
      ground (arith, h c1, flush_pending_headers-Settles c)

  chunk_by_status-Settles : (s : StreamerStatus) (c : Conn w) → Settles c (chunk_by_status s c)
  unfolding chunk_by_status awaits listens was_closed
  chunk_by_status-Settles streaming c = ground (
    arith,
    flush_then-Settles schedule_chunk_getter (pulled c) (schedule_chunk-Settles next_chunk),
  )
  chunk_by_status-Settles exit_ok c =
      flush_then-Settles (end_stream exit_ok) c (end_stream-Settles exit_ok)
  chunk_by_status-Settles (exit_other n) c =
      flush_then-Settles (end_stream (exit_other n)) c (end_stream-Settles (exit_other n))

  pub get_next_chunk-Settles : (c : Conn w) → Settles c (get_next_chunk c)
  unfolding get_next_chunk
  get_next_chunk-Settles c = chunk_by_status-Settles (w.streaming_status c.log c.response) c

  abort_chunked-Settles : (c : Conn w) → Settles c (abort_chunked c)
  unfolding abort_chunked close awaits listens was_closed
  abort_chunked-Settles c = ground (
    arith,
    flush_pending_headers-Settles c,
    finalize_stream_logging-Settles (flush_pending_headers c).0,
  )

  chunked_by_status-Settles : (s : StreamerStatus) (c : Conn w) → Settles c (chunked_by_status s c)
  unfolding chunked_by_status awaits listens was_closed
  chunked_by_status-Settles streaming c = ground (
    arith,
    flush_then-Settles schedule_chunked_chunk_getter (pulled c)
        (schedule_chunk-Settles next_chunked_chunk),
  )
  chunked_by_status-Settles exit_ok c = ground (arith, notify_backend_finished-Settles exit_ok c)
  chunked_by_status-Settles (exit_other n) c =
      let d = notify_backend_finished (exit_other n) c in
      Settles-trans c d (abort_chunked d) (notify_backend_finished-Settles (exit_other n) c)
        (abort_chunked-Settles d)

  pub get_next_chunked_chunk-Settles : (c : Conn w) → Settles c (get_next_chunked_chunk c)
  unfolding get_next_chunked_chunk
  get_next_chunked_chunk-Settles c =
      chunked_by_status-Settles (w.streaming_status c.log c.response) c
