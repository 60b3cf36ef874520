-- ===== src/Connection/Protocol.antt =====
-- Which operation of a connection may follow which: what each handler of source/AsyncConnection.cpp
-- starts, against the operation whose completion has called it.
use smartmet_server.World.{
  World, next_chunk, next_chunked_chunk, eof, Parsed, success, shutdown, failed, failure,
  operation_aborted, complete, incomplete, expectation_failed, request_timeout,
  request_header_fields_too_large, request_entity_too_large, bad_request, ErrorCode,
}
use smartmet_server.Connection.Session.{
  runs_next_chunk, runs_next_chunked_chunk, timer_fires, disconnect_seen, writes, runs_request,
  reads, shakes_hands, Event, step, completes,
}
use smartmet_server.Connection.Operations.{
  running, listening, Operation, shaking_hands, may_follow, Starts, operations, IsStill,
}
use smartmet_server.Base.{
  false, some, none, Bool, drop, ℕ, refl, length, arith, inl, true, ◌++◌, ◌+◌,
}
use smartmet_server.Connection.Request.{
  receive, handle_expect_continue, handle_read_error, handle_read, handle_incomplete_request,
  take_parsed, wake, answer_expect, answer_continue, too_long, unmet, too_large,
}
use smartmet_server.Connection.Timer.{
  notify_client_disconnect, handle_handshake, on_expiry, handle_timer, expire,
}
use smartmet_server.Connection.StartingRequests.{
  follows_read, handle_completed_read-Starts, handle_parsed_request-Starts,
}
use smartmet_server.Connection.State.{Conn, close, drop_keep_alive, start_read}
use smartmet_server.Connection.Stream.{get_next_chunk, get_next_chunked_chunk}
use smartmet_server.Utility.Head.{peek_request_head}
use smartmet_server.Connection.StartingReplies.{
  get_next_chunked_chunk-Starts, write_handler-Starts, get_next_chunk-Starts,
}
use smartmet_server.Text.{Bytes}
use smartmet_server.Connection.Starting.{send_stock_reply-IsStill, send_stock_reply-Starts}
use smartmet_server.Connection.Awaiting.{awaits}

module _ {w : World} where
  -- The test that an operation passes which an event may start.
  unfoldable pub allowed : Event w → Operation w.View → Bool
  allowed e o = elim (completes e) [ none ↦ false | some done ↦ may_follow done o ]

  handle_expect_continue-IsStill : (c : Conn w) → IsStill c (handle_expect_continue c).0
  unfolding handle_expect_continue answer_expect answer_continue operations awaits
  handle_expect_continue-IsStill c =
      let head = peek_request_head w.lower c.buffer in
      let d = drop_keep_alive (unmet head (record c { expect_handled = true })) in
      ground (arith, send_stock_reply-IsStill expectation_failed d refl)

  handle_incomplete_request-Starts :
      (c : Conn w) → Starts follows_read c (handle_incomplete_request c)
  unfolding handle_incomplete_request start_read operations awaits may_follow
  handle_incomplete_request-Starts c = ground (
    arith,
    handle_expect_continue-IsStill c,
    send_stock_reply-IsStill request_header_fields_too_large
        (drop_keep_alive (too_long (handle_expect_continue c).0)) refl,
    send_stock_reply-IsStill request_header_fields_too_large (drop_keep_alive (too_long c)) refl,
  )

  take_parsed-Starts : (r : Parsed w.Request) (c : Conn w) → Starts follows_read c (take_parsed r c)
  unfolding take_parsed may_follow
  take_parsed-Starts (complete q n) c = handle_parsed_request-Starts (record c {
    request = q;
    buffer = drop n c.buffer;
    received_bytes = length (drop n c.buffer);
  })
  take_parsed-Starts failed c = send_stock_reply-Starts follows_read bad_request c refl
  take_parsed-Starts incomplete c = handle_incomplete_request-Starts c

  receive-Starts : (bytes : Bytes) (c : Conn w) → Starts follows_read c (receive bytes c)
  unfolding receive wake operations awaits may_follow
  receive-Starts bytes c =
      let c2 = record (wake c) { received_bytes = (wake c).received_bytes + length bytes } in
      let c3 = record c2 { buffer = c2.buffer ++ bytes } in
      ground (
        arith,
        send_stock_reply-Starts follows_read request_entity_too_large (too_large c2) refl,
        take_parsed-Starts (w.parse_one_request c3.buffer) c3,
      )

  pub handle_read_error-IsStill : (e : ErrorCode) (c : Conn w) → IsStill c (handle_read_error e c)
  unfolding handle_read_error operations awaits
  handle_read_error-IsStill eof c = ground arith
  handle_read_error-IsStill operation_aborted c = ground arith
  handle_read_error-IsStill success c = ground arith
  handle_read_error-IsStill (failure n) c = ground arith

  handle_read-Starts :
      (e : ErrorCode) (bytes : Bytes) (c : Conn w) → Starts follows_read c (handle_read e bytes c)
  unfolding handle_read may_follow
  handle_read-Starts e bytes c =
      let c1 = record c { final_status = e } in
      ground (
        arith,
        send_stock_reply-Starts follows_read shutdown c refl,
        handle_read_error-IsStill e c1,
        receive-Starts bytes c1,
      )

  on_expiry-IsStill : (g : ℕ) (c : Conn w) → IsStill c (on_expiry g c)
  unfolding on_expiry close operations awaits
  on_expiry-IsStill g c =
      ground (arith, send_stock_reply-IsStill request_timeout (drop_keep_alive (expire c)) refl)

  handle_timer-IsStill : (e : ErrorCode) (g : ℕ) (c : Conn w) → IsStill c (handle_timer e g c)
  unfolding handle_timer
  handle_timer-IsStill operation_aborted g c = refl
  handle_timer-IsStill success g c = on_expiry-IsStill g c
  handle_timer-IsStill eof g c = on_expiry-IsStill g c
  handle_timer-IsStill (failure n) g c = on_expiry-IsStill g c

  handle_handshake-Starts :
      (e : ErrorCode) (c : Conn w) → Starts (may_follow shaking_hands) c (handle_handshake e c)
  unfolding handle_handshake operations awaits may_follow
  handle_handshake-Starts e c = ground arith

  notify_client_disconnect-Starts :
      (e : ErrorCode) (c : Conn w) → Starts (may_follow listening) c (notify_client_disconnect e c)
  unfolding notify_client_disconnect operations awaits may_follow
  notify_client_disconnect-Starts success c = ground arith
  notify_client_disconnect-Starts operation_aborted c = ground arith
  notify_client_disconnect-Starts eof c = ground arith
  notify_client_disconnect-Starts (failure n) c = ground arith

  next_chunk-Starts : (c : Conn w) → Starts (may_follow (running next_chunk)) c (get_next_chunk c)
  unfolding may_follow
  next_chunk-Starts c = get_next_chunk-Starts (may_follow (running next_chunk)) c refl refl refl

  next_chunked_chunk-Starts :
      (c : Conn w) → Starts (may_follow (running next_chunked_chunk)) c (get_next_chunked_chunk c)
  unfolding may_follow
  next_chunked_chunk-Starts c =
      get_next_chunked_chunk-Starts (may_follow (running next_chunked_chunk)) c refl refl refl

  -- Whatever the state of a connection and whatever happens: the handler of a completed operation starts
  -- at most one operation, which is one that may follow the completed one; and the timer starts none.
  pub step-Starts : (e : Event w) (c : Conn w) → Starts (allowed e) c (step e c)
  unfolding step allowed completes
  step-Starts (reads e bytes) c = handle_read-Starts e bytes c
  step-Starts (timer_fires e g) c = inl (handle_timer-IsStill e g c)
  step-Starts (runs_request v) c = handle_completed_read-Starts v c
  step-Starts runs_next_chunk c = next_chunk-Starts c
  step-Starts runs_next_chunked_chunk c = next_chunked_chunk-Starts c
  step-Starts (writes k e n) c = write_handler-Starts k e n c
  step-Starts (shakes_hands e) c = handle_handshake-Starts e c
  step-Starts (disconnect_seen e) c = notify_client_disconnect-Starts e c
