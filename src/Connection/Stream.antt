-- ===== src/Connection/Stream.antt =====
-- source/AsyncConnection.cpp: streamed replies, with a Content-Length or chunked. The chunk getters
-- run in a thread pool, and the writers call back when the socket took the bytes.
use smartmet_server.Base.{
  ℕ, ◌+◌, Bool, true, false, not, ◌&&◌, ◌++◌, [], ◌==◌, if◌then◌else◌, is_empty, length, some, none,
}
use smartmet_server.Text.{Bytes, codes, to_string}
use smartmet_server.World.{
  World, ErrorCode, is_error, StreamerStatus, streaming, exit_ok, exit_other, Pool, admin, slow,
  fast, Task, next_chunk, next_chunked_chunk, stream_reply, chunked_reply, final_chunk,
  not_implemented, service_unavailable, schedule,
}
use smartmet_server.Connection.State.{Conn, emit, info, drop_keep_alive, close}
use smartmet_server.Connection.Headers.{on_response}
use smartmet_server.Connection.Reply.{written, finish_response, send_stock_reply}
use smartmet_server.Connection.Regular.{
  notify_backend_finished, finalize_stream_logging, continue_write, send_failure, send_all, text_or,
  framed,
}
use smartmet_server.Utility.Hex.{convert_to_hex}

-- A chunk of the chunked coding.
unfoldable pub chunk : (w : World) → Bytes → Bytes
chunk w content = convert_to_hex w (length content) ++ codes "\r\n" ++ content ++ codes "\r\n"

abbrev pub code_text : (w : World) → ErrorCode → Bytes
code_text w e = codes ". Code: " ++ w.number (w.error_value e)

abbrev pub last_chunk : Bytes
last_chunk = codes "0\r\n\r\n"

module _ {w : World} where
  open w use {
    View, header, set_header, remove_header, set_status, status_code, content_length, get_content,
    streaming_status, headers_to_string, client_ip, error_message, write, accepts, number,
  }

  -- The pool of a query: admin, fast or slow.
  unfoldable pub query_pool : Conn w → Pool
  query_pool c = if c.admin_query then admin else if c.query_is_fast then fast else slow

  unfoldable pub schedule_chunk : Task View → Conn w → Conn w
  schedule_chunk task c =
      if accepts c.log (query_pool c) task
      then emit (schedule (query_pool c) task) c
      else info (codes "Request queue was full, aborting chunked transfer")
          (send_stock_reply service_unavailable (drop_keep_alive c))

  abbrev pub schedule_chunk_getter : Conn w → Conn w
  schedule_chunk_getter = schedule_chunk next_chunk

  abbrev pub schedule_chunked_chunk_getter : Conn w → Conn w
  schedule_chunked_chunk_getter = schedule_chunk next_chunked_chunk

  -- A response with no status is given 501; `headersToString` then does not throw.
  unfoldable pub prepare_pending_headers : Conn w → Conn w
  prepare_pending_headers c = elim (headers_to_string c.response) [
    | some h ↦ record c { pending_headers = h }
    | none ↦
        let c1 = info (codes "Response status not set, defaulting to 501 Not Implemented") c in
        let r = set_status c.response (status_code not_implemented) in
        record c1 { response = r; pending_headers = text_or (headers_to_string r) }
  ]

  unfoldable pub after_flush : ErrorCode → Conn w → Conn w × Bool
  after_flush e c =
      if is_error e
      then (
        record (info
            (codes "Unable to send stream response headers to "
              ++ client_ip c.request
              ++ codes ". Reason: "
              ++ error_message e)
            c) { final_status = e },
        false,
      )
      else (c, true)

  unfoldable pub flush_pending_headers : Conn w → Conn w × Bool
  unfolding after_flush
  flush_pending_headers c =
      if is_empty c.pending_headers
      then (c, true)
      else after_flush (write c.log c.pending_headers)
          (record (written c.pending_headers c) { pending_headers = [] })

  -- A chunk with the pending headers in front of it.
  abbrev pub load_chunk : Bytes → Bytes → Conn w → Conn w
  load_chunk framed body c = record c {
    total_streamed_bytes = c.total_streamed_bytes + length body;
    response_string = c.pending_headers ++ framed;
    pending_headers = [];
    sent_bytes = 0;
  }

  abbrev pub mismatch : Conn w → Conn w
  mismatch c =
      info
        (codes "Streamed response delivered "
          ++ number c.total_streamed_bytes
          ++ codes " bytes instead of the announced "
          ++ number c.declared_content_length
          ++ codes ", closing the connection")
        c

  abbrev pub stream_ended : StreamerStatus → Conn w → Conn w
  stream_ended status c = notify_backend_finished status (finalize_stream_logging c)

  -- The end of a stream with a Content-Length: the connection is kept only if the body has the
  -- announced length.
  unfoldable pub end_stream : StreamerStatus → Conn w → Conn w
  end_stream status c =
      let c1 = stream_ended status c in
      if c1.keep_alive && not (c1.total_streamed_bytes == c1.declared_content_length)
      then finish_response (drop_keep_alive (mismatch c1))
      else finish_response c1

  -- `if (!flushPendingHeaders()) return;` and what follows.
  abbrev pub flush_then : (Conn w → Conn w) → Conn w → Conn w
  flush_then rest c = let (c1, sent) = flush_pending_headers c in if sent then rest c1 else c1

  abbrev pub pulled : Conn w → Conn w
  pulled c = record c { response = (get_content c.log c.response).1 }

  abbrev pub pulled_content : Conn w → Bytes
  pulled_content c = (get_content c.log c.response).0

  unfoldable pub chunk_by_status : StreamerStatus → Conn w → Conn w
  chunk_by_status streaming c =
      if is_empty (pulled_content c)
      then flush_then schedule_chunk_getter (pulled c)
      else send_all stream_reply (load_chunk (pulled_content c) (pulled_content c) (pulled c))
  chunk_by_status exit_ok c = flush_then (end_stream exit_ok) c
  chunk_by_status (exit_other n) c = flush_then (end_stream (exit_other n)) c

  unfoldable pub get_next_chunk : Conn w → Conn w
  get_next_chunk c = chunk_by_status (streaming_status c.log c.response) c

  -- The streamer failed mid-body: no terminal chunk, and the socket is closed.
  unfoldable pub abort_chunked : Conn w → Conn w
  abort_chunked c =
      let c1 = finalize_stream_logging (flush_pending_headers c).0 in
      close (
        drop_keep_alive (
          info
            (codes "Chunked response stream failed mid-body, closing the connection unterminated")
            c1))

  unfoldable pub chunked_by_status : StreamerStatus → Conn w → Conn w
  chunked_by_status streaming c =
      if is_empty (pulled_content c)
      then flush_then schedule_chunked_chunk_getter (pulled c)
      else send_all chunked_reply
          (load_chunk (chunk w (pulled_content c)) (pulled_content c) (pulled c))
  chunked_by_status exit_ok c =
      send_all final_chunk (load_chunk last_chunk [] (notify_backend_finished exit_ok c))
  chunked_by_status (exit_other n) c = abort_chunked (notify_backend_finished (exit_other n) c)

  unfoldable pub get_next_chunked_chunk : Conn w → Conn w
  get_next_chunked_chunk c = chunked_by_status (streaming_status c.log c.response) c

  unfoldable pub start_gateway_reply : Conn w → Conn w
  start_gateway_reply c = get_next_chunk (drop_keep_alive c)

  abbrev pub encoded : Conn w → Conn w
  encoded = on_response λ r.
      remove_header (set_header r (codes "Transfer-Encoding") (codes "chunked"))
        (codes "Content-Length")

  unfoldable pub start_chunked_reply : Conn w → Conn w
  start_chunked_reply c = get_next_chunked_chunk (prepare_pending_headers (encoded c))

  abbrev pub declared : Conn w → Conn w
  declared c = record c {
    declared_content_length = content_length c.response;
    response =
        set_header c.response (codes "Content-Length") (to_string (content_length c.response));
  }

  unfoldable pub start_stream_reply : Conn w → Conn w
  start_stream_reply c = get_next_chunk (prepare_pending_headers (declared c))

  -- What a failed write of a stream does behind the stock reply.
  unfoldable pub stream_failure : ErrorCode → Bytes → Bytes → Conn w → Conn w
  stream_failure e what tail c =
      let c1 = finalize_stream_logging (send_failure e what tail c) in
      notify_backend_finished (streaming_status c1.log c1.response) c1

  unfoldable pub write_stream_reply : ErrorCode → ℕ → Conn w → Conn w
  write_stream_reply e n c =
      let c1 = record c { final_status = e } in
      if is_error e
      then stream_failure e (codes "Error in stream reply send to ") [] c1
      else continue_write stream_reply n schedule_chunk_getter c1

  unfoldable pub write_chunked_reply : ErrorCode → ℕ → Conn w → Conn w
  write_chunked_reply e n c =
      let c1 = record c { final_status = e } in
      if is_error e
      then stream_failure e (codes "Error in chunked reply send to ") (code_text w e) c1
      else continue_write chunked_reply n schedule_chunked_chunk_getter c1

  unfoldable pub complete_chunked : Conn w → Conn w
  complete_chunked c = finish_response (finalize_stream_logging c)

  unfoldable pub finalize_chunked_reply : ErrorCode → ℕ → Conn w → Conn w
  finalize_chunked_reply e n c =
      let c1 = record c { final_status = e } in
      if is_error e
      then finalize_stream_logging
          (send_failure e (codes "Error in finalizing chunked reply send to ") (code_text w e) c1)
      else continue_write final_chunk n complete_chunked c1
