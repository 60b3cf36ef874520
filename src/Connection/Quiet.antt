-- ===== src/Connection/Quiet.antt =====
-- The persistence of a connection that waits for bytes: lemmas about the start of a reply and the
-- write handlers.
use smartmet_server.World.{
  World, next_chunk, final_chunk, chunked_reply, bad_request, Reason, stream_reply, Writer,
  ErrorCode, regular_reply, next_chunked_chunk, high_load, service_unavailable,
}
use smartmet_server.Base.{arith, ℕ, Option, true, Bool, [], false, refl, ◌==◌, ◌||◌}
use smartmet_server.Connection.Awaiting.{
  send_stock_reply-IsQuiet, send_failure-IsQuiet, continue_write-IsQuiet, awaits,
  get_next_chunk-IsQuiet, IsQuiet, stream_failure-IsQuiet, complete_chunked-IsQuiet,
  get_next_chunked_chunk-IsQuiet, complete_regular-IsQuiet, finalize_stream_logging-IsQuiet,
  schedule_chunk-IsQuiet,
}
use smartmet_server.Connection.Regular.{
  complete_regular, start_regular_reply, send_failure, write_regular_reply,
}
use smartmet_server.Connection.Stream.{
  start_chunked_reply, prepare_pending_headers, start_stream_reply, schedule_chunk_getter,
  complete_chunked, encoded, start_gateway_reply, declared, schedule_chunked_chunk_getter,
  code_text, write_stream_reply, write_chunked_reply, finalize_chunked_reply,
}
use smartmet_server.Connection.Headers.{
  set_server_headers, set_connection_headers, append_stale_directives, stamped,
}
use smartmet_server.Text.{codes}
use smartmet_server.Connection.State.{Conn, drop_keep_alive}
use smartmet_server.Connection.Request.{schedule_request, schedule_frontend, schedule_backend}
use smartmet_server.Connection.Execution.{after_handling, choose_reply}
use smartmet_server.Connection.Session.{write_handler}

module _ {w : World} where
  pub start_regular_reply-IsQuiet : (c : Conn w) → IsQuiet (start_regular_reply c)
  unfolding start_regular_reply awaits
  start_regular_reply-IsQuiet c h = cc

  pub set_connection_headers-IsQuiet : (c : Conn w) → IsQuiet c → IsQuiet (set_connection_headers c)
  unfolding set_connection_headers
  set_connection_headers-IsQuiet c q = ground arith

  pub append_stale_directives-IsQuiet :
      (c : Conn w) → IsQuiet c → IsQuiet (append_stale_directives c)
  unfolding append_stale_directives
  append_stale_directives-IsQuiet c q = ground arith

  pub set_server_headers-IsQuiet : (c : Conn w) → IsQuiet c → IsQuiet (set_server_headers c)
  unfolding set_server_headers stamped
  set_server_headers-IsQuiet c q =
      append_stale_directives-IsQuiet (set_connection_headers (stamped c))
        (set_connection_headers-IsQuiet (stamped c) q)

  pub prepare_pending_headers-IsQuiet :
      (c : Conn w) → IsQuiet c → IsQuiet (prepare_pending_headers c)
  unfolding prepare_pending_headers awaits
  prepare_pending_headers-IsQuiet c q = ground arith

  pub start_chunked_reply-IsQuiet : (c : Conn w) → IsQuiet c → IsQuiet (start_chunked_reply c)
  unfolding start_chunked_reply
  start_chunked_reply-IsQuiet c q =
      get_next_chunked_chunk-IsQuiet (prepare_pending_headers (encoded c))
        (prepare_pending_headers-IsQuiet (encoded c) q)

  pub start_stream_reply-IsQuiet : (c : Conn w) → IsQuiet c → IsQuiet (start_stream_reply c)
  unfolding start_stream_reply
  start_stream_reply-IsQuiet c q =
      get_next_chunk-IsQuiet (prepare_pending_headers (declared c))
        (prepare_pending_headers-IsQuiet (declared c) q)

  pub choose_reply-IsQuiet : (c : Conn w) → IsQuiet c → IsQuiet (choose_reply c)
  unfolding choose_reply start_gateway_reply
  choose_reply-IsQuiet c q =
      let c1 = set_server_headers c in
      let q1 = set_server_headers-IsQuiet c q in
      ground (
        arith,
        start_regular_reply-IsQuiet c1,
        get_next_chunk-IsQuiet (drop_keep_alive c) (λ _. refl),
        start_chunked_reply-IsQuiet c1 q1,
        start_stream_reply-IsQuiet c1 q1,
      )

  pub after_handling-IsQuiet :
      (r : Option Reason) (succeeded : Bool) (c : Conn w)
      → IsQuiet c
      → IsQuiet (after_handling r succeeded c)
  unfolding after_handling
  after_handling-IsQuiet r succeeded c q =
      ground (arith, q, choose_reply-IsQuiet c q, send_stock_reply-IsQuiet bad_request c)

  pub write_handler-IsQuiet :
      (k : Writer) (e : ErrorCode) (n : ℕ) (c : Conn w)
      → IsQuiet c
      → IsQuiet (write_handler k e n c)
  unfolding write_handler write_stream_reply write_chunked_reply finalize_chunked_reply
      write_regular_reply
  write_handler-IsQuiet stream_reply e n c q = ground (
    arith,
    stream_failure-IsQuiet e (codes "Error in stream reply send to ") []
        (record c { final_status = e }),
    continue_write-IsQuiet stream_reply n schedule_chunk_getter (record c { final_status = e })
        (λ d _. schedule_chunk-IsQuiet next_chunk d) q,
  )
  write_handler-IsQuiet chunked_reply e n c q = ground (
    arith,
    stream_failure-IsQuiet e (codes "Error in chunked reply send to ") (code_text w e)
        (record c { final_status = e }),
    continue_write-IsQuiet chunked_reply n schedule_chunked_chunk_getter
        (record c { final_status = e }) (λ d _. schedule_chunk-IsQuiet next_chunked_chunk d) q,
  )
  write_handler-IsQuiet final_chunk e n c q = ground (
    arith,
    finalize_stream_logging-IsQuiet (
        send_failure e (codes "Error in finalizing chunked reply send to ") (code_text w e)
          (record c { final_status = e })),
    continue_write-IsQuiet final_chunk n complete_chunked (record c { final_status = e })
        (λ d _. complete_chunked-IsQuiet d) q,
  )
  write_handler-IsQuiet regular_reply e n c q = ground (
    arith,
    send_failure-IsQuiet e (codes "Error in reply send to ") [] (record c { final_status = e }),
    continue_write-IsQuiet regular_reply n complete_regular (record c { final_status = e })
        complete_regular-IsQuiet q,
  )

  pub schedule_request-IsQuiet : (v : w.View) (c : Conn w) → IsQuiet (schedule_request v c)
  unfolding schedule_request schedule_frontend schedule_backend awaits
  schedule_request-IsQuiet v c = ground (
    arith,
    send_stock_reply-IsQuiet service_unavailable
        (record c { query_is_fast = true; admin_query = false }),
    send_stock_reply-IsQuiet high_load
        (record c { query_is_fast = w.slow_pool_size == 0 || w.query_is_fast v c.request }),
  )
