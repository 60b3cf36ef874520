-- ===== src/Connection/StartingReplies.antt =====
-- The operations that the chunk getters, the writers and handleCompletedRead start.
use smartmet_server.World.{
  World, final_chunk, stream_reply, streaming, regular_reply, StreamerStatus, chunked_reply, Writer,
  next_chunked_chunk, ErrorCode, exit_ok, exit_other, service_unavailable, next_chunk,
}
use smartmet_server.Connection.Stream.{
  get_next_chunk, pulled, stream_failure, finalize_chunked_reply, code_text, schedule_chunk_getter,
  write_stream_reply, chunked_by_status, write_chunked_reply, flush_pending_headers,
  chunk_by_status, end_stream, complete_chunked, get_next_chunked_chunk,
  schedule_chunked_chunk_getter, abort_chunked,
}
use smartmet_server.Connection.Starting.{
  flush_then-Starts, schedule_chunk-Starts, finish_response-Starts, flush_pending_headers-IsStill,
  end_stream-Starts, notify_backend_finished-IsStill, send_stock_reply-IsStill,
  finalize_stream_logging-IsStill,
}
use smartmet_server.Connection.Regular.{
  write_regular_reply, continue_write, notify_backend_finished, complete_regular,
  finalize_stream_logging, send_failure,
}
use smartmet_server.Base.{Bool, refl, true, [], arith, ℕ, ◌∙◌, ◌+◌, ◌≡◌}
use smartmet_server.Connection.Operations.{
  IsStill, Starts, running, operations, reading, may_follow, writing, Operation,
}
use smartmet_server.Text.{Bytes, codes}
use smartmet_server.Connection.State.{Conn, close, drop_keep_alive}
use smartmet_server.Connection.Session.{write_handler}
use smartmet_server.Connection.Awaiting.{awaits}

module _ {w : World} where
  abort_chunked-IsStill : (c : Conn w) → IsStill c (abort_chunked c)
  unfolding abort_chunked close operations awaits
  abort_chunked-IsStill c = ground (
    arith,
    flush_pending_headers-IsStill c,
    finalize_stream_logging-IsStill (flush_pending_headers c).0,
  )

  module _ (p : Operation w.View → Bool) where
    chunk_by_status-Starts :
        (s : StreamerStatus) (c : Conn w)
        → p reading ≡ true
        → p (running next_chunk) ≡ true
        → p (writing stream_reply) ≡ true
        → Starts p c (chunk_by_status s c)
    unfolding chunk_by_status operations awaits
    chunk_by_status-Starts streaming c r n k = ground (
      arith,
      flush_then-Starts p schedule_chunk_getter (pulled c)
          (λ d. schedule_chunk-Starts p next_chunk d n),
    )
    chunk_by_status-Starts exit_ok c r n k =
        flush_then-Starts p (end_stream exit_ok) c (λ d. end_stream-Starts p exit_ok d r)
    chunk_by_status-Starts (exit_other x) c r n k =
        flush_then-Starts p (end_stream (exit_other x)) c
          (λ d. end_stream-Starts p (exit_other x) d r)

    pub get_next_chunk-Starts :
        (c : Conn w)
        → p reading ≡ true
        → p (running next_chunk) ≡ true
        → p (writing stream_reply) ≡ true
        → Starts p c (get_next_chunk c)
    unfolding get_next_chunk
    get_next_chunk-Starts c r n k =
        chunk_by_status-Starts (w.streaming_status c.log c.response) c r n k

    chunked_by_status-Starts :
        (s : StreamerStatus) (c : Conn w)
        → p (running next_chunked_chunk) ≡ true
        → p (writing chunked_reply) ≡ true
        → p (writing final_chunk) ≡ true
        → Starts p c (chunked_by_status s c)
    unfolding chunked_by_status operations awaits
    chunked_by_status-Starts streaming c n k f = ground (
      arith,
      flush_then-Starts p schedule_chunked_chunk_getter (pulled c)
          (λ d. schedule_chunk-Starts p next_chunked_chunk d n),
    )
    chunked_by_status-Starts exit_ok c n k f =
        ground (arith, notify_backend_finished-IsStill exit_ok c)
    chunked_by_status-Starts (exit_other x) c n k f =
        let d = notify_backend_finished (exit_other x) c in
        ground (arith, notify_backend_finished-IsStill (exit_other x) c, abort_chunked-IsStill d)

    pub get_next_chunked_chunk-Starts :
        (c : Conn w)
        → p (running next_chunked_chunk) ≡ true
        → p (writing chunked_reply) ≡ true
        → p (writing final_chunk) ≡ true
        → Starts p c (get_next_chunked_chunk c)
    unfolding get_next_chunked_chunk
    get_next_chunked_chunk-Starts c n k f =
        chunked_by_status-Starts (w.streaming_status c.log c.response) c n k f

    -- The writers.
    continue_write-Starts :
        (k : Writer) (n : ℕ) (done : Conn w → Conn w) (c : Conn w)
        → p (writing k) ≡ true
        → ((d : Conn w) → Starts p d (done d))
        → Starts p c (continue_write k n done c)
    unfolding continue_write operations awaits
    continue_write-Starts k n done c h more =
        ground (arith, more (record c { sent_bytes = c.sent_bytes + n }))

    complete_regular-Starts : (c : Conn w) → p reading ≡ true → Starts p c (complete_regular c)
    unfolding complete_regular
    complete_regular-Starts c r =
        let d = notify_backend_finished exit_ok c in
        ground (arith, notify_backend_finished-IsStill exit_ok c, finish_response-Starts p d r)

    complete_chunked-Starts : (c : Conn w) → p reading ≡ true → Starts p c (complete_chunked c)
    unfolding complete_chunked
    complete_chunked-Starts c r =
        let d = finalize_stream_logging c in
        ground (arith, finalize_stream_logging-IsStill c, finish_response-Starts p d r)

  send_failure-IsStill :
      (e : ErrorCode) (what tail : Bytes) (c : Conn w) → IsStill c (send_failure e what tail c)
  unfolding send_failure operations awaits
  send_failure-IsStill e what tail c =
      ground (arith, send_stock_reply-IsStill service_unavailable (drop_keep_alive c) refl)

  stream_failure-IsStill :
      (e : ErrorCode) (what tail : Bytes) (c : Conn w) → IsStill c (stream_failure e what tail c)
  unfolding stream_failure
  stream_failure-IsStill e what tail c =
      let c1 = send_failure e what tail c in
      let c2 = finalize_stream_logging c1 in
      notify_backend_finished-IsStill (w.streaming_status c2.log c2.response) c2
      ∙ (finalize_stream_logging-IsStill c1 ∙ send_failure-IsStill e what tail c)

  pub write_handler-Starts :
      (k : Writer) (e : ErrorCode) (n : ℕ) (c : Conn w)
      → Starts (may_follow (writing k)) c (write_handler k e n c)
  unfolding write_handler write_stream_reply write_chunked_reply finalize_chunked_reply
      write_regular_reply may_follow
  write_handler-Starts stream_reply e n c =
      let c1 = record c { final_status = e } in
      ground (
        arith,
        stream_failure-IsStill e (codes "Error in stream reply send to ") [] c1,
        continue_write-Starts (may_follow (writing stream_reply)) stream_reply n
            schedule_chunk_getter c1 refl
            (λ d. schedule_chunk-Starts (may_follow (writing stream_reply)) next_chunk d refl),
      )
  write_handler-Starts chunked_reply e n c =
      let c1 = record c { final_status = e } in
      ground (
        arith,
        stream_failure-IsStill e (codes "Error in chunked reply send to ") (code_text w e) c1,
        continue_write-Starts (may_follow (writing chunked_reply)) chunked_reply n
            schedule_chunked_chunk_getter c1 refl
            (λ d.
              schedule_chunk-Starts (may_follow (writing chunked_reply)) next_chunked_chunk d refl),
      )
  write_handler-Starts final_chunk e n c =
      let c1 = record c { final_status = e } in
      let what = codes "Error in finalizing chunked reply send to " in
      ground (
        arith,
        send_failure-IsStill e what (code_text w e) c1,
        finalize_stream_logging-IsStill (send_failure e what (code_text w e) c1),
        continue_write-Starts (may_follow (writing final_chunk)) final_chunk n complete_chunked c1
            refl (λ d. complete_chunked-Starts (may_follow (writing final_chunk)) d refl),
      )
  write_handler-Starts regular_reply e n c =
      let c1 = record c { final_status = e } in
      ground (
        arith,
        send_failure-IsStill e (codes "Error in reply send to ") [] c1,
        continue_write-Starts (may_follow (writing regular_reply)) regular_reply n complete_regular
            c1 refl (λ d. complete_regular-Starts (may_follow (writing regular_reply)) d refl),
      )
