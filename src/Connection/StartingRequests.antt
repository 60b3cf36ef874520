-- ===== src/Connection/StartingRequests.antt =====
-- The operations that handleCompletedRead, handleRead and the timer start.
use smartmet_server.World.{
  World, started_hook, service_unavailable, cancel_socket, regular_reply, Reason, cancel_timer,
  high_load, bad_request, not_found, completed_read,
}
use smartmet_server.Connection.Execution.{
  cancelled_report, run_plugin, choose_reply, handle_completed_read, create_cancellation_token,
  after_handling,
}
use smartmet_server.Connection.Starting.{
  send_simple_reply-Starts, send_stock_reply-Starts, set_server_headers-IsStill,
}
use smartmet_server.Connection.Request.{
  convert_head, negotiate, schedule_request, missing_host, route, schedule_frontend, dispatch,
  resolve_ip, handle_parsed_request, schedule_backend,
}
use smartmet_server.Connection.State.{emit, info, drop_keep_alive, next_generation, Conn}
use smartmet_server.Connection.Stream.{
  encoded, start_gateway_reply, prepare_pending_headers, declared, start_stream_reply,
  start_chunked_reply,
}
use smartmet_server.Base.{
  inl, false, Option-cases, inr, arith, Bool, refl, ltb, not, true, Option, ◌||◌, ◌≡◌, ◌&&◌, ◌==◌,
  if◌then◌else◌,
}
use smartmet_server.Connection.Regular.{
  message, ensure_status, start_regular_reply, framed, compressed, name_variant,
}
use smartmet_server.Connection.Operations.{
  running, operations, may_follow, writing, Operation, reading, IsStill, Starts,
}
use smartmet_server.Connection.Headers.{strip_hop_by_hop_headers, set_server_headers}
use smartmet_server.Connection.StartingReplies.{
  get_next_chunk-Starts, get_next_chunked_chunk-Starts,
}
use smartmet_server.Utility.Files.{dump_request}
use smartmet_server.Connection.Awaiting.{awaits}

abbrev follows_request : {V : Type 0} → V → Operation V → Bool
follows_request v = may_follow (running (completed_read v))

abbrev pub follows_read : {V : Type 0} → Operation V → Bool
follows_read = may_follow reading

module _ {w : World} where
  start_regular_reply-Starts :
      (p : Operation w.View → Bool) (c : Conn w)
      → p (writing regular_reply) ≡ true
      → Starts p c (start_regular_reply c)
  unfolding start_regular_reply message ensure_status framed name_variant compressed operations
      awaits
  start_regular_reply-Starts p c h = ground arith

  prepare_pending_headers-IsStill : (c : Conn w) → IsStill c (prepare_pending_headers c)
  unfolding prepare_pending_headers operations awaits
  prepare_pending_headers-IsStill c = ground arith

  module _ (v : w.View) where
    start_chunked_reply-Starts : (c : Conn w) → Starts (follows_request v) c (start_chunked_reply c)
    unfolding start_chunked_reply may_follow
    start_chunked_reply-Starts c =
        let d = prepare_pending_headers (encoded c) in
        ground (
          arith,
          prepare_pending_headers-IsStill (encoded c),
          get_next_chunked_chunk-Starts (follows_request v) d refl refl refl,
        )

    start_stream_reply-Starts : (c : Conn w) → Starts (follows_request v) c (start_stream_reply c)
    unfolding start_stream_reply may_follow
    start_stream_reply-Starts c =
        let d = prepare_pending_headers (declared c) in
        ground (
          arith,
          prepare_pending_headers-IsStill (declared c),
          get_next_chunk-Starts (follows_request v) d refl refl refl,
        )

    choose_reply-Starts : (c : Conn w) → Starts (follows_request v) c (choose_reply c)
    unfolding choose_reply start_gateway_reply may_follow
    choose_reply-Starts c =
        let c1 = set_server_headers c in
        ground (
          arith,
          set_server_headers-IsStill c,
          start_regular_reply-Starts (follows_request v) c1 refl,
          start_chunked_reply-Starts c1,
          start_stream_reply-Starts c1,
          get_next_chunk-Starts (follows_request v) (drop_keep_alive c) refl refl refl,
        )

    after_handling-Starts :
        (r : Option Reason) (succeeded : Bool) (c : Conn w)
        → Starts (follows_request v) c (after_handling r succeeded c)
    unfolding after_handling may_follow
    after_handling-Starts r succeeded c = ground (
      arith,
      choose_reply-Starts c,
      send_stock_reply-Starts (follows_request v) bad_request c refl,
    )

    run_plugin-Starts : (c : Conn w) → Starts (follows_request v) c (run_plugin v c)
    unfolding run_plugin operations awaits
    run_plugin-Starts c =
        let c1 = emit (started_hook (w.client_ip c.request)) c in
        let c2 = if c1.dump_requests then info (dump_request w c1.request) c1 else c1 in
        let h = w.handle c2.log (create_cancellation_token v c2) v c2.request c2.response in
        let c3 =
          cancelled_report v h.interrupted
            (record c2 { request = h.request; response = h.response }) in
        let before : IsStill c c3 = ground arith in
        ground (arith, before, after_handling-Starts h.interrupted h.succeeded c3)

    pub handle_completed_read-Starts :
        (c : Conn w)
        → Starts (may_follow (running (completed_read v))) c (handle_completed_read v c)
    unfolding handle_completed_read operations awaits
    handle_completed_read-Starts c = ground (
      arith,
      run_plugin-Starts (
          emit cancel_socket (
            emit cancel_timer
              (record c { timer_generation = next_generation c.timer_generation }))),
    )

  -- The way of a request to a thread pool.
  schedule_request-Starts : (v : w.View) (c : Conn w) → Starts follows_read c (schedule_request v c)
  unfolding schedule_request schedule_frontend schedule_backend operations awaits may_follow
  schedule_request-Starts v c = ground (
    arith,
    send_stock_reply-Starts follows_read service_unavailable
        (record c { query_is_fast = true; admin_query = false }) refl,
    send_stock_reply-Starts follows_read high_load
        (record c { query_is_fast = w.slow_pool_size == 0 || w.query_is_fast v c.request }) refl,
  )

  route-Starts : (c : Conn w) → Starts follows_read c (route c)
  unfolding route may_follow
  route-Starts c = elim (Option-cases (w.handler_view c.request)) [
    | inl e ↦ rw (e, route) (send_stock_reply-Starts follows_read not_found c refl)
    | inr (v, e) ↦
        let a =
          not (w.is_catch_no_match v)
          && (w.is_admin_query v c.request && ltb 0 w.admin_pool_size) in
        rw (e, route)
          (ground (
            arith,
            send_stock_reply-Starts follows_read high_load (record c { admin_query = a }) refl,
            schedule_request-Starts v (record c { admin_query = a }),
          ))
  ]

  dispatch-Starts : (c : Conn w) → Starts follows_read c (dispatch c)
  unfolding dispatch convert_head strip_hop_by_hop_headers operations awaits may_follow
  dispatch-Starts c =
      let c1 = convert_head (strip_hop_by_hop_headers c) in
      let d = record c1 { response = w.stock_options_response } in
      ground (
        arith,
        send_stock_reply-Starts follows_read bad_request (drop_keep_alive (missing_host c)) refl,
        set_server_headers-IsStill d,
        send_simple_reply-Starts follows_read (set_server_headers d) refl,
        route-Starts c1,
      )

  pub handle_parsed_request-Starts : (c : Conn w) → Starts follows_read c (handle_parsed_request c)
  unfolding handle_parsed_request resolve_ip negotiate operations awaits
  handle_parsed_request-Starts c = ground (arith, dispatch-Starts (negotiate (resolve_ip c).0))
