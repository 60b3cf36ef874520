-- ===== src/Connection/Regular.antt =====
-- source/AsyncConnection.cpp: startRegularReply and writeRegularReply, and what ends every reply:
-- notifyBackendFinished, finalizeStreamLogging and the rest of a buffer that a write left over.
use smartmet_server.Base.{
  ℕ, ◌+◌, true, not, ◌&&◌, ◌||◌, ◌++◌, Option, none, some, [], ltb, ◌==◌, if◌then◌else◌, is_empty,
  length, drop,
}
use smartmet_server.Text.{Bytes, codes, to_string}
use smartmet_server.World.{
  World, ErrorCode, is_error, StreamerStatus, exit_ok, Writer, regular_reply, not_modified,
  not_implemented, service_unavailable, async_write, backend_finished, stream_completed,
}
use smartmet_server.Utility.Coding.{select_content_encoding, compress_response}
use smartmet_server.Connection.State.{Conn, emit, channel, info, drop_keep_alive}
use smartmet_server.Connection.Headers.{on_response, status_has_no_body}
use smartmet_server.Connection.Reply.{finish_response, send_stock_reply}

abbrev pub text_or : Option Bytes → Bytes
text_or none = []
text_or (some b) = b

module _ {w : World} where
  open w use {
    Response, header, set_header, remove_header, set_content, get_content, get_status, set_status,
    status_code, content_length, has_stream_content, is_chunked, headers_to_string,
    originating_backend, backend_port, run_stream_completion, not_modified_etag, client_ip,
    error_message,
  }

  unfoldable pub notify_backend_finished : StreamerStatus → Conn w → Conn w
  notify_backend_finished status c =
      if c.backend_notified || is_empty (originating_backend c.response)
      then c
      else emit (backend_finished (originating_backend c.response) (backend_port c.response) status)
          (record c { backend_notified = true })

  unfoldable pub finalize_stream_logging : Conn w → Conn w
  finalize_stream_logging c =
      emit (stream_completed c.total_streamed_bytes)
        (on_response (λ r. run_stream_completion r c.total_streamed_bytes) c)

  -- `async_write_some` of what is left of the response string.
  abbrev pub send_rest : Writer → Conn w → Conn w
  send_rest k c = emit (async_write (channel c) k (drop c.sent_bytes c.response_string)) c

  -- What each write handler does first: count the bytes, and go on while some are left. The rest of
  -- the handler is `done`.
  unfoldable pub continue_write : Writer → ℕ → (Conn w → Conn w) → Conn w → Conn w
  continue_write k n done c =
      let c1 = record c { sent_bytes = c.sent_bytes + n } in
      if ltb c1.sent_bytes (length c1.response_string) then send_rest k c1 else done c1

  unfoldable pub send_failure : ErrorCode → Bytes → Bytes → Conn w → Conn w
  send_failure e what tail c =
      let c1 = send_stock_reply service_unavailable (drop_keep_alive c) in
      info (what ++ client_ip c1.request ++ codes ". Reason: " ++ error_message e ++ tail) c1

  unfoldable pub complete_regular : Conn w → Conn w
  complete_regular c = finish_response (notify_backend_finished exit_ok c)

  unfoldable pub write_regular_reply : ErrorCode → ℕ → Conn w → Conn w
  write_regular_reply e n c =
      let c1 = record c { final_status = e } in
      if is_error e
      then send_failure e (codes "Error in reply send to ") [] c1
      else continue_write regular_reply n complete_regular c1

  -- The steps of startRegularReply: compression, the entity-tag of a 304, the framing.
  unfoldable pub compressed : Conn w → Conn w
  compressed c =
      let coding =
        select_content_encoding w c.request c.response c.compress_limit c.content_codings in
      if c.can_gzip_response && not (has_stream_content c.response)
      then if is_empty coding then c else on_response (λ r. compress_response w c.log r coding) c
      else c

  unfoldable pub name_variant : Conn w → Conn w
  name_variant c = elim (header c.response (codes "ETag")) [
    | none ↦ c
    | some etag ↦
        if get_status c.response == status_code not_modified
        then on_response (λ r. set_header r (codes "ETag") (not_modified_etag c.request etag)) c
        else c
  ]

  abbrev pub unframed : Conn w → Conn w
  unframed =
      on_response
        λ r. remove_header (remove_header r (codes "Content-Length")) (codes "Transfer-Encoding")

  unfoldable pub framed : Conn w → Conn w
  framed c =
      if status_has_no_body (get_status c.response)
      then unframed (on_response (λ r. set_content r []) c)
      else if c.head_request && is_chunked c.response
      then unframed c
      else on_response (λ r. set_header r (codes "Content-Length") (to_string (content_length r))) c

  -- A response with no status is given 501; `headersToString` then does not throw.
  unfoldable pub ensure_status : Conn w → Conn w
  ensure_status c = elim (headers_to_string c.response) [
    | some h ↦ c
    | none ↦
        on_response (λ r. set_status r (status_code not_implemented))
          (info (codes "Response status not set, defaulting to 501 Not Implemented") c)
  ]

  unfoldable pub message : Conn w → Conn w
  message c =
      let headers = text_or (headers_to_string c.response) in
      let (content, r) = get_content c.log c.response in
      if c.head_request
      then record c { response_string = headers }
      else record c { response_string = headers ++ content; response = r }

  abbrev pub send_all : Writer → Conn w → Conn w
  send_all k c = emit (async_write (channel c) k c.response_string) c

  unfoldable pub start_regular_reply : Conn w → Conn w
  start_regular_reply c =
      send_all regular_reply (message (ensure_status (framed (name_variant (compressed c)))))
