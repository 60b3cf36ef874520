-- ===== src/Connection/SettlingReplies.antt =====
-- The replies, the write handlers and the plugin's call leave the count of requests alone, and start no
-- read where the persistence is off.
use smartmet_server.World.{
  World, stream_reply, next_chunk, next_chunked_chunk, bad_request, Writer, regular_reply,
  final_chunk, cancel_timer, cancel_socket, started_hook, high_load, Reason, service_unavailable,
  chunked_reply, exit_ok, ErrorCode,
}
use smartmet_server.Connection.Regular.{
  ensure_status, write_regular_reply, message, notify_backend_finished, complete_regular,
  send_failure, compressed, name_variant, start_regular_reply, continue_write, framed,
  finalize_stream_logging,
}
use smartmet_server.Connection.Settling.{
  Settles, finalize_stream_logging-Settles, Settles-trans, set_server_headers-Settles, Ends,
  get_next_chunk-Settles, notify_backend_finished-Settles, send_stock_reply-Ends, Settles-of_Ends,
  schedule_chunk-Settles, finish_response-Settles, get_next_chunked_chunk-Settles,
}
use smartmet_server.Connection.Execution.{
  run_plugin, handle_completed_read, cancelled_report, choose_reply, create_cancellation_token,
  after_handling,
}
use smartmet_server.Connection.Reply.{send_stock_reply, finish_response}
use smartmet_server.Connection.Awaiting.{awaits}
use smartmet_server.Connection.Stream.{
  encoded, start_chunked_reply, finalize_chunked_reply, write_chunked_reply,
  prepare_pending_headers, get_next_chunked_chunk, declared, code_text, schedule_chunk_getter,
  schedule_chunked_chunk_getter, write_stream_reply, get_next_chunk, complete_chunked,
  start_stream_reply, stream_failure, start_gateway_reply,
}
use smartmet_server.Connection.State.{next_generation, Conn, emit, drop_keep_alive, info}
use smartmet_server.Text.{codes, Bytes}
use smartmet_server.Connection.Request.{schedule_request, schedule_frontend, schedule_backend}
use smartmet_server.Base.{[], Bool, true, false, ℕ, Option, arith, ◌==◌, ◌||◌, ◌+◌, if◌then◌else◌}
use smartmet_server.Utility.Files.{dump_request}
use smartmet_server.Connection.Headers.{set_server_headers}
use smartmet_server.Connection.Session.{write_handler}
use smartmet_server.Connection.Steady.{listens, was_closed}

module _ {w : World} where
  send_failure-Settles :
      (e : ErrorCode) (what tail : Bytes) (c : Conn w) → Settles c (send_failure e what tail c)
  unfolding send_failure awaits listens was_closed
  send_failure-Settles e what tail c =
      ground (arith, send_stock_reply-Ends service_unavailable (drop_keep_alive c))

  continue_write-Settles :
      (k : Writer) (n : ℕ) (done : Conn w → Conn w) (c : Conn w)
      → ((d : Conn w) → Settles d (done d))
      → Settles c (continue_write k n done c)
  unfolding continue_write awaits listens was_closed
  continue_write-Settles k n done c h =
      ground (arith, h (record c { sent_bytes = c.sent_bytes + n }))

  stream_failure-Settles :
      (e : ErrorCode) (what tail : Bytes) (c : Conn w) → Settles c (stream_failure e what tail c)
  unfolding stream_failure
  stream_failure-Settles e what tail c =
      let c1 = send_failure e what tail c in
      let c2 = finalize_stream_logging c1 in
      let s = w.streaming_status c2.log c2.response in
      Settles-trans c c1 (notify_backend_finished s c2) (send_failure-Settles e what tail c) (
        Settles-trans c1 c2 (notify_backend_finished s c2) (finalize_stream_logging-Settles c1)
          (notify_backend_finished-Settles s c2))

  complete_regular-Settles : (c : Conn w) → Settles c (complete_regular c)
  unfolding complete_regular
  complete_regular-Settles c =
      let d = notify_backend_finished exit_ok c in
      Settles-trans c d (finish_response d) (notify_backend_finished-Settles exit_ok c)
        (finish_response-Settles d)

  complete_chunked-Settles : (c : Conn w) → Settles c (complete_chunked c)
  unfolding complete_chunked
  complete_chunked-Settles c =
      let d = finalize_stream_logging c in
      Settles-trans c d (finish_response d) (finalize_stream_logging-Settles c)
        (finish_response-Settles d)

  start_regular_reply-Settles : (c : Conn w) → Settles c (start_regular_reply c)
  unfolding start_regular_reply message ensure_status framed name_variant compressed awaits listens
      was_closed
  start_regular_reply-Settles c = ground arith

  prepare_pending_headers-Settles : (c : Conn w) → Settles c (prepare_pending_headers c)
  unfolding prepare_pending_headers awaits listens was_closed
  prepare_pending_headers-Settles c = ground arith

  start_chunked_reply-Settles : (c : Conn w) → Settles c (start_chunked_reply c)
  unfolding start_chunked_reply
  start_chunked_reply-Settles c =
      let d = prepare_pending_headers (encoded c) in
      Settles-trans (encoded c) d (get_next_chunked_chunk d)
        (prepare_pending_headers-Settles (encoded c)) (get_next_chunked_chunk-Settles d)

  start_stream_reply-Settles : (c : Conn w) → Settles c (start_stream_reply c)
  unfolding start_stream_reply
  start_stream_reply-Settles c =
      let d = prepare_pending_headers (declared c) in
      Settles-trans (declared c) d (get_next_chunk d) (prepare_pending_headers-Settles (declared c))
        (get_next_chunk-Settles d)

  choose_reply-Settles : (c : Conn w) → Settles c (choose_reply c)
  unfolding choose_reply start_gateway_reply
  choose_reply-Settles c =
      let c1 = set_server_headers c in
      let h = set_server_headers-Settles c in
      ground (
        arith,
        Settles-trans c c1 (start_regular_reply c1) h (start_regular_reply-Settles c1),
        Settles-trans c c1 (start_chunked_reply c1) h (start_chunked_reply-Settles c1),
        Settles-trans c c1 (start_stream_reply c1) h (start_stream_reply-Settles c1),
        get_next_chunk-Settles (drop_keep_alive c),
      )

  after_handling-Settles :
      (r : Option Reason) (succeeded : Bool) (c : Conn w) → Settles c (after_handling r succeeded c)
  unfolding after_handling
  after_handling-Settles r succeeded c = ground (
    arith,
    choose_reply-Settles c,
    Settles-of_Ends c (send_stock_reply bad_request c) (send_stock_reply-Ends bad_request c),
  )

  pub write_handler-Settles :
      (k : Writer) (e : ErrorCode) (n : ℕ) (c : Conn w) → Settles c (write_handler k e n c)
  unfolding write_handler write_stream_reply write_chunked_reply finalize_chunked_reply
      write_regular_reply
  write_handler-Settles stream_reply e n c = ground (
    arith,
    stream_failure-Settles e (codes "Error in stream reply send to ") []
        (record c { final_status = e }),
    continue_write-Settles stream_reply n schedule_chunk_getter (record c { final_status = e })
        (schedule_chunk-Settles next_chunk),
  )
  write_handler-Settles chunked_reply e n c = ground (
    arith,
    stream_failure-Settles e (codes "Error in chunked reply send to ") (code_text w e)
        (record c { final_status = e }),
    continue_write-Settles chunked_reply n schedule_chunked_chunk_getter
        (record c { final_status = e }) (schedule_chunk-Settles next_chunked_chunk),
  )
  write_handler-Settles final_chunk e n c =
      let c1 = record c { final_status = e } in
      let what = codes "Error in finalizing chunked reply send to " in
      let failed_reply = send_failure e what (code_text w e) c1 in
      ground (
        arith,
        Settles-trans c1 failed_reply (finalize_stream_logging failed_reply)
            (send_failure-Settles e what (code_text w e) c1)
            (finalize_stream_logging-Settles failed_reply),
        continue_write-Settles final_chunk n complete_chunked c1 complete_chunked-Settles,
      )
  write_handler-Settles regular_reply e n c = ground (
    arith,
    send_failure-Settles e (codes "Error in reply send to ") [] (record c { final_status = e }),
    continue_write-Settles regular_reply n complete_regular (record c { final_status = e })
        complete_regular-Settles,
  )

  pub schedule_request-Ends : (v : w.View) (c : Conn w) → Ends c (schedule_request v c)
  unfolding schedule_request schedule_frontend schedule_backend awaits listens was_closed
  schedule_request-Ends v c = ground (
    arith,
    send_stock_reply-Ends service_unavailable
        (record c { query_is_fast = true; admin_query = false }),
    send_stock_reply-Ends high_load
        (record c { query_is_fast = w.slow_pool_size == 0 || w.query_is_fast v c.request }),
  )

  run_plugin-Settles : (v : w.View) (c : Conn w) → Settles c (run_plugin v c)
  unfolding run_plugin awaits listens was_closed
  run_plugin-Settles v c =
      let c1 = emit (started_hook (w.client_ip c.request)) c in
      let c2 = if c1.dump_requests then info (dump_request w c1.request) c1 else c1 in
      let h = w.handle c2.log (create_cancellation_token v c2) v c2.request c2.response in
      let c3 =
        cancelled_report v h.interrupted
          (record c2 { request = h.request; response = h.response }) in
      let before : Settles c c3 = ground arith in
      Settles-trans c c3 (after_handling h.interrupted h.succeeded c3) before
        (after_handling-Settles h.interrupted h.succeeded c3)

  pub handle_completed_read-Settles :
      (v : w.View) (c : Conn w) → Settles c (handle_completed_read v c)
  unfolding handle_completed_read awaits listens was_closed
  handle_completed_read-Settles v c = ground (
    arith,
    run_plugin-Settles v (
        emit cancel_socket
          (emit cancel_timer (record c { timer_generation = next_generation c.timer_generation }))),
  )
