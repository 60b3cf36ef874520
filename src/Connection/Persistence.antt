-- ===== src/Connection/Persistence.antt =====
-- The persistence of a connection that waits for bytes, over the histories of events of Session.
use smartmet_server.World.{
  World, not_found, bad_request, high_load, expectation_failed, cancel_socket, incomplete, Parsed,
  cancel_timer, failed, started_hook, request_header_fields_too_large, complete, ErrorCode,
  request_timeout, eof, request_entity_too_large, success, shutdown, failure, operation_aborted,
}
use smartmet_server.Connection.Execution.{
  handle_completed_read, run_plugin, create_cancellation_token, cancelled_report,
}
use smartmet_server.Connection.Request.{
  take_parsed, route, negotiate, resolve_ip, dispatch, convert_head, answer_continue,
  handle_expect_continue, handle_incomplete_request, answer_expect, handle_parsed_request,
  missing_host, too_long, unmet, handle_read, handle_read_error, receive, wake, too_large,
}
use smartmet_server.Connection.State.{
  info, Conn, next_generation, emit, drop_keep_alive, start_read, Settings, create, close,
}
use smartmet_server.Utility.Head.{RawRequestHead, peek_request_head}
use smartmet_server.Connection.Quiet.{
  after_handling-IsQuiet, schedule_request-IsQuiet, write_handler-IsQuiet,
}
use smartmet_server.Base.{
  true, ltb, inr, inl, Option-cases, not, drop, false, length, arith, ◌≡◌, ◌&&◌, if◌then◌else◌, ℕ,
  ◌+◌, ◌++◌, refl, List, some, [], ◌∷◌,
}
use smartmet_server.Connection.Awaiting.{
  awaits, IsQuiet, send_stock_reply-IsQuiet, send_simple_reply-IsQuiet,
  get_next_chunked_chunk-IsQuiet, get_next_chunk-IsQuiet,
}
use smartmet_server.Connection.Headers.{strip_hop_by_hop_headers, set_server_headers}
use smartmet_server.Utility.Files.{dump_request}
use smartmet_server.Connection.Timer.{
  handle_timer, notify_client_disconnect, start, handle_handshake, on_expiry, expire,
}
use smartmet_server.Connection.Session.{
  step, Event, runs_next_chunked_chunk, reads, disconnect_seen, runs_request, shakes_hands,
  timer_fires, writes, runs_next_chunk, Reach, completes,
}
use smartmet_server.Text.{Bytes}
use smartmet_server.Connection.Operations.{Operation, is_read, passes}
use smartmet_server.Connection.Sequential.{Reach-induction}
use smartmet_server.Connection.SettlingTimer.{handle_timer-Settles}

module _ {w : World} where
  run_plugin-IsQuiet : (v : w.View) (c : Conn w) → IsQuiet (run_plugin v c)
  unfolding run_plugin awaits
  run_plugin-IsQuiet v c =
      let c1 = emit (started_hook (w.client_ip c.request)) c in
      let c2 = if c1.dump_requests then info (dump_request w c1.request) c1 else c1 in
      let h = w.handle c2.log (create_cancellation_token v c2) v c2.request c2.response in
      after_handling-IsQuiet h.interrupted h.succeeded
        (cancelled_report v h.interrupted
          (record c2 { request = h.request; response = h.response }))
        (ground arith)

  handle_completed_read-IsQuiet : (v : w.View) (c : Conn w) → IsQuiet (handle_completed_read v c)
  unfolding handle_completed_read awaits
  handle_completed_read-IsQuiet v c = ground (
    arith,
    run_plugin-IsQuiet v (
        emit cancel_socket
          (emit cancel_timer (record c { timer_generation = next_generation c.timer_generation }))),
  )

  route-IsQuiet : (c : Conn w) → IsQuiet (route c)
  unfolding route
  route-IsQuiet c = elim (Option-cases (w.handler_view c.request)) [
    | inl e ↦ rw (e, route) (send_stock_reply-IsQuiet not_found c)
    | inr (v, e) ↦
        let a =
          not (w.is_catch_no_match v)
          && (w.is_admin_query v c.request && ltb 0 w.admin_pool_size) in
        rw (e, route)
          (ground (
            arith,
            send_stock_reply-IsQuiet high_load (record c { admin_query = a }),
            schedule_request-IsQuiet v (record c { admin_query = a }),
          ))
  ]

  dispatch-IsQuiet : (c : Conn w) → IsQuiet (dispatch c)
  unfolding dispatch
  dispatch-IsQuiet c =
      let c1 = convert_head (strip_hop_by_hop_headers c) in
      ground (
        arith,
        send_stock_reply-IsQuiet bad_request (drop_keep_alive (missing_host c)),
        send_simple_reply-IsQuiet
            (set_server_headers (record c1 { response = w.stock_options_response })),
        route-IsQuiet c1,
      )

  handle_parsed_request-IsQuiet : (c : Conn w) → IsQuiet c → IsQuiet (handle_parsed_request c)
  unfolding handle_parsed_request resolve_ip awaits
  handle_parsed_request-IsQuiet c q = ground (arith, dispatch-IsQuiet (negotiate (resolve_ip c).0))

  answer_expect-IsQuiet :
      (h : RawRequestHead) (c : Conn w)
      → c.keep_alive ≡ false
      → IsQuiet (answer_expect h c).0
        × ((answer_expect h c).1 ≡ true → (answer_expect h c).0.keep_alive ≡ false)
  unfolding answer_expect answer_continue
  answer_expect-IsQuiet h c k =
      ground (arith, send_stock_reply-IsQuiet expectation_failed (drop_keep_alive (unmet h c)))

  handle_expect_continue-IsQuiet :
      (c : Conn w)
      → c.keep_alive ≡ false
      → IsQuiet (handle_expect_continue c).0
        × ((handle_expect_continue c).1 ≡ true → (handle_expect_continue c).0.keep_alive ≡ false)
  unfolding handle_expect_continue
  handle_expect_continue-IsQuiet c k = ground (
    arith,
    answer_expect-IsQuiet (peek_request_head w.lower c.buffer) (record c { expect_handled = true }),
  )

  handle_incomplete_request-IsQuiet :
      (c : Conn w) → c.keep_alive ≡ false → IsQuiet (handle_incomplete_request c)
  unfolding handle_incomplete_request start_read
  handle_incomplete_request-IsQuiet c k = ground (
    arith,
    handle_expect_continue-IsQuiet c k,
    send_stock_reply-IsQuiet request_header_fields_too_large (drop_keep_alive (too_long c)),
  )

  take_parsed-IsQuiet :
      (r : Parsed w.Request) (c : Conn w) → c.keep_alive ≡ false → IsQuiet (take_parsed r c)
  unfolding take_parsed
  take_parsed-IsQuiet (complete q n) c k =
      handle_parsed_request-IsQuiet
        (record c {
          request = q;
          buffer = drop n c.buffer;
          received_bytes = length (drop n c.buffer);
        })
        (λ _. k)
  take_parsed-IsQuiet failed c k = send_stock_reply-IsQuiet bad_request c
  take_parsed-IsQuiet incomplete c k = handle_incomplete_request-IsQuiet c k

  receive-IsQuiet : (bytes : Bytes) (c : Conn w) → c.keep_alive ≡ false → IsQuiet (receive bytes c)
  unfolding receive wake
  receive-IsQuiet bytes c k =
      let c2 = record (wake c) { received_bytes = (wake c).received_bytes + length bytes } in
      let c3 = record c2 { buffer = c2.buffer ++ bytes } in
      ground (
        arith,
        send_stock_reply-IsQuiet request_entity_too_large (too_large c2),
        take_parsed-IsQuiet (w.parse_one_request c3.buffer) c3,
      )

  handle_read_error-IsQuiet :
      (e : ErrorCode) (c : Conn w) → IsQuiet c → IsQuiet (handle_read_error e c)
  unfolding handle_read_error awaits
  handle_read_error-IsQuiet eof c q = q
  handle_read_error-IsQuiet operation_aborted c q = ground arith
  handle_read_error-IsQuiet success c q = ground arith
  handle_read_error-IsQuiet (failure n) c q = ground arith

  handle_read-IsQuiet :
      (e : ErrorCode) (bytes : Bytes) (c : Conn w)
      → c.keep_alive ≡ false
      → IsQuiet (handle_read e bytes c)
  unfolding handle_read
  handle_read-IsQuiet e bytes c k = ground (
    arith,
    send_stock_reply-IsQuiet shutdown c,
    handle_read_error-IsQuiet e (record c { final_status = e }) (λ a. k),
    receive-IsQuiet bytes (record c { final_status = e }),
  )

  on_expiry-IsQuiet : (g : ℕ) (c : Conn w) → IsQuiet c → IsQuiet (on_expiry g c)
  unfolding on_expiry close awaits
  on_expiry-IsQuiet g c q =
      ground (arith, send_stock_reply-IsQuiet request_timeout (drop_keep_alive (expire c)))

  handle_timer-IsQuiet :
      (e : ErrorCode) (g : ℕ) (c : Conn w) → IsQuiet c → IsQuiet (handle_timer e g c)
  unfolding handle_timer
  handle_timer-IsQuiet operation_aborted g c q = q
  handle_timer-IsQuiet _ g c q = on_expiry-IsQuiet g c q

  notify_client_disconnect-IsQuiet :
      (e : ErrorCode) (c : Conn w) → IsQuiet c → IsQuiet (notify_client_disconnect e c)
  unfolding notify_client_disconnect awaits
  notify_client_disconnect-IsQuiet success c q = λ h. cc
  notify_client_disconnect-IsQuiet _ c q = q

  handle_handshake-IsQuiet :
      (e : ErrorCode) (c : Conn w) → c.keep_alive ≡ false → IsQuiet (handle_handshake e c)
  unfolding handle_handshake awaits
  handle_handshake-IsQuiet e c k = ground arith

  -- No persistence is negotiated where the trace ends with the start of a read, and while a read is
  -- outstanding.
  abbrev pub IsUndecided : List (Operation w.View) → Conn w → Type 0
  IsUndecided os c = IsQuiet c × (passes is_read os ≡ true → c.keep_alive ≡ false)

  handle_timer-IsUndecided :
      (os : List (Operation w.View)) (c : Conn w) (e : ErrorCode) (g : ℕ)
      → IsUndecided os c
      → IsUndecided os (handle_timer e g c)
  handle_timer-IsUndecided os c e g (q, r) =
      let (s, n, m, off) = handle_timer-Settles e g c in
      (handle_timer-IsQuiet e g c q, λ due. (off (r due)).0)

  step-IsQuiet :
      (o : Operation w.View) (c : Conn w) (e : Event w)
      → completes e ≡ some o
      → IsUndecided (o ∷ []) c
      → IsQuiet (step e c)
  unfolding step completes
  step-IsQuiet o c (reads e bytes) d (q, r) = handle_read-IsQuiet e bytes c (ground (arith, r))
  step-IsQuiet o c (timer_fires e g) d (q, r) = handle_timer-IsQuiet e g c q
  step-IsQuiet o c (runs_request v) d (q, r) = handle_completed_read-IsQuiet v c
  step-IsQuiet o c runs_next_chunk d (q, r) = get_next_chunk-IsQuiet c q
  step-IsQuiet o c runs_next_chunked_chunk d (q, r) = get_next_chunked_chunk-IsQuiet c q
  step-IsQuiet o c (writes k e n) d (q, r) = write_handler-IsQuiet k e n c q
  step-IsQuiet o c (shakes_hands e) d (q, r) = handle_handshake-IsQuiet e c (ground (arith, r))
  step-IsQuiet o c (disconnect_seen e) d (q, r) = notify_client_disconnect-IsQuiet e c q

  start-IsQuiet : (count : ℕ) (c : Conn w) → c.keep_alive ≡ false → IsQuiet (start count c).1
  unfolding start awaits
  start-IsQuiet count c k = ground arith

  start-keep_alive : (count : ℕ) (c : Conn w) → (start count c).1.keep_alive ≡ c.keep_alive
  unfolding start
  start-keep_alive count c = ground arith

  -- Whatever events arrive in whatever order, a connection has no persistence negotiated while it
  -- waits for a request: as long as a read, a posted read or a handshake is outstanding, itsKeepAlive
  -- is false.
  pub Reach-IsQuiet :
      {s : Settings} {os : List (Operation w.View)} {c : Conn w}
      → Reach s os c
      → passes is_read os ≡ true
      → c.keep_alive ≡ false
  Reach-IsQuiet {s} r due =
      (Reach-induction s IsUndecided
          (λ count.
            (start-IsQuiet count (create w s) refl, λ _. start-keep_alive count (create w s)))
          handle_timer-IsUndecided (λ o c e d h. (step-IsQuiet o c e d h, λ due. absurd (cc due)))
          (λ o o' c e d h f a. let q = step-IsQuiet o c e d h in (q, λ due. q (cc (a, due)))) r).1
        due
