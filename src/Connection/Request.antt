-- ===== src/Connection/Request.antt =====
-- source/AsyncConnection.cpp: handleRead and the way of a request from the socket's bytes to a
-- thread pool, with every early reply.
use smartmet_server.Base.{
  ◌+◌, Bool, true, false, not, ◌&&◌, ◌||◌, ◌++◌, none, some, ltb, ◌==◌, if◌then◌else◌, is_empty,
  is_some, length, drop,
}
use smartmet_server.Text.{Bytes, codes, same_bytes, contains}
use smartmet_server.World.{
  World, ErrorCode, is_error, eof, operation_aborted, Parsed, complete, failed, incomplete, Pool,
  admin, slow, fast, completed_read, at_read, schedule, shutdown, bad_request, not_found, high_load,
  service_unavailable, request_entity_too_large, request_header_fields_too_large,
  expectation_failed,
}
use smartmet_server.Utility.Tokens.{has_header_token, negotiate_version}
use smartmet_server.Utility.Head.{RawRequestHead, peek_request_head}
use smartmet_server.Connection.State.{
  Conn, emit, info, error, drop_keep_alive, start_read, arm_timer,
}
use smartmet_server.Connection.Headers.{
  is_http_1_1, set_server_headers, evaluate_keep_alive, strip_hop_by_hop_headers,
}
use smartmet_server.Connection.Reply.{written, send_simple_reply, send_stock_reply}

abbrev pub original_method : Bytes
original_method = codes "X-SmartMet-Original-Method"

module _ {w : World} where
  open w use {
    Request, View, parse_one_request, request_header, set_request_header, remove_request_header,
    request_version, is_head, set_method_get, method_string, resource, set_client_ip, handler_view,
    is_catch_no_match, is_admin_query, query_is_fast, is_load_high, admin_pool_size, slow_pool_size,
    accepts, remote_endpoint, write, resolve_client_ip, shutdown_requested, lower, stoul,
    stock_options_response, error_message,
  }

  unfoldable pub resolve_ip : Conn w → Conn w × Bool
  resolve_ip c = elim (remote_endpoint c.log) [
    | none ↦ (error (codes "Failed to obtain remote endpoint IP address:\n") c, false)
    | some peer ↦
        let forwarded = request_header c.request (codes "X-Forwarded-For") in
        (record c { request = set_client_ip c.request (resolve_client_ip peer forwarded) }, true)
  ]

  -- The task goes to a pool; a full queue is answered with a stock reply.
  abbrev backend_pool : Conn w → Pool
  backend_pool c = if c.admin_query then admin else if c.query_is_fast then fast else slow

  unfoldable pub schedule_frontend : View → Conn w → Conn w
  schedule_frontend v c =
      let c1 = record c { query_is_fast = true; admin_query = false } in
      if accepts c1.log fast (completed_read v)
      then emit (schedule fast (completed_read v)) c1
      else info (codes "Frontend request queue was full") (send_stock_reply service_unavailable c1)

  unfoldable pub schedule_backend : View → Conn w → Conn w
  schedule_backend v c =
      let c1 = record c { query_is_fast = slow_pool_size == 0 || query_is_fast v c.request } in
      if accepts c1.log (backend_pool c1) (completed_read v)
      then emit (schedule (backend_pool c1) (completed_read v)) c1
      else info (codes "Backend request queue was full, returning high load notification")
          (send_stock_reply high_load c1)

  unfoldable pub schedule_request : View → Conn w → Conn w
  schedule_request v c = if is_catch_no_match v then schedule_frontend v c else schedule_backend v c

  -- The reply's version and the persistence of the connection for this request.
  unfoldable pub negotiate : Conn w → Conn w
  negotiate c =
      let c1 = record c {
        request_count = c.request_count + 1;
        response_version = negotiate_version stoul (request_version c.request);
      } in
      record c1 { keep_alive = evaluate_keep_alive c1 }

  -- A HEAD request is handed on as a GET.
  unfoldable pub convert_head : Conn w → Conn w
  convert_head c =
      let q = remove_request_header c.request original_method in
      let head = is_head q in
      record c {
        head_request = head;
        request =
            if head
            then set_request_header (set_method_get q) original_method (codes "HEAD")
            else q;
      }

  unfoldable pub route : Conn w → Conn w
  route c = elim (handler_view c.request) [
    | none ↦ send_stock_reply not_found c
    | some v ↦
        let c1 = record c {
          admin_query =
              not (is_catch_no_match v) && (is_admin_query v c.request && ltb 0 admin_pool_size);
        } in
        if not c1.admin_query && is_load_high c1.log
        then send_stock_reply high_load c1
        else schedule_request v c1
  ]

  abbrev asks_options : Conn w → Bool
  asks_options c =
      same_bytes (method_string c.request) (codes "OPTIONS")
      && same_bytes (resource c.request) (codes "*")

  abbrev pub missing_host : Conn w → Conn w
  missing_host = error (codes "400 Missing Host header on an HTTP/1.1 request")

  -- What follows the negotiation.
  unfoldable pub dispatch : Conn w → Conn w
  dispatch c =
      if is_http_1_1 c.response_version && not (is_some (request_header c.request (codes "Host")))
      then send_stock_reply bad_request (drop_keep_alive (missing_host c))
      else let c1 = convert_head (strip_hop_by_hop_headers c) in
        if asks_options c1
        then send_simple_reply
            (set_server_headers (record c1 { response = stock_options_response }))
        else route c1

  unfoldable pub handle_parsed_request : Conn w → Conn w
  handle_parsed_request c =
      let (c1, resolved) = resolve_ip c in if resolved then dispatch (negotiate c1) else c1

  -- handleExpectContinue: `false` where the connection is not to be read from any more.
  unfoldable pub answer_continue : ErrorCode → Conn w → Conn w × Bool
  answer_continue e c =
      if is_error e then (record c { final_status = e; keep_alive = false }, false) else (c, true)

  abbrev pub unmet : RawRequestHead → Conn w → Conn w
  unmet head =
      info (codes "Unsupported expectation '" ++ head.expect ++ codes "', rejecting the request")

  unfoldable pub answer_expect : RawRequestHead → Conn w → Conn w × Bool
  answer_expect head c =
      let reply = codes "HTTP/1.1 100 Continue\r\n\r\n" in
      if is_empty head.expect
      then (c, true)
      else if not (is_http_1_1 (negotiate_version stoul head.version))
      then (c, true)
      else if has_header_token lower head.expect (codes "100-continue")
      then answer_continue (write c.log reply) (written reply c)
      else (send_stock_reply expectation_failed (drop_keep_alive (unmet head c)), false)

  unfoldable pub handle_expect_continue : Conn w → Conn w × Bool
  handle_expect_continue c =
      let head = peek_request_head lower c.buffer in
      if c.expect_handled
      then (c, true)
      else if not head.is_complete
      then (c, true)
      else answer_expect head (record c { expect_handled = true })

  abbrev pub too_long : Conn w → Conn w
  too_long = error (codes "431 Request header fields too large")

  unfoldable pub handle_incomplete_request : Conn w → Conn w
  handle_incomplete_request c =
      let (c1, go_on) = handle_expect_continue c in
      if ltb 0 c.max_header_size
        && (ltb c.max_header_size (length c.buffer) && not (contains c.buffer (codes "\r\n\r\n")))
      then send_stock_reply request_header_fields_too_large (drop_keep_alive (too_long c))
      else if go_on
      then start_read c1
      else c1

  unfoldable pub handle_read_error : ErrorCode → Conn w → Conn w
  handle_read_error eof c = c
  handle_read_error operation_aborted c = if c.idle then c else info (codes "Connection timeout") c
  handle_read_error e c =
      if c.idle
      then c
      else info (codes "Error occurred while reading socket: " ++ error_message e) c

  -- The first bytes of the next request wake an idle connection.
  unfoldable pub wake : Conn w → Conn w
  unfolding arm_timer
  wake c =
      let c1 = record c { idle = false } in
      if c.idle && not c.has_timed_out then arm_timer c.timeout c1 else c1

  unfoldable pub take_parsed : Parsed Request → Conn w → Conn w
  take_parsed (complete q consumed) c =
      let rest = drop consumed c.buffer in
      handle_parsed_request (record c { request = q; buffer = rest; received_bytes = length rest })
  take_parsed failed c = send_stock_reply bad_request c
  take_parsed incomplete c = handle_incomplete_request c

  abbrev pub too_large : Conn w → Conn w
  too_large = error (codes "413 Entity too large")

  unfoldable pub receive : Bytes → Conn w → Conn w
  receive bytes c =
      let c1 = wake c in
      let c2 = record c1 { received_bytes = c1.received_bytes + length bytes } in
      let c3 = record c2 { buffer = c2.buffer ++ bytes } in
      if ltb 0 c2.max_request_size && ltb c2.max_request_size c2.received_bytes
      then send_stock_reply request_entity_too_large (too_large c2)
      else take_parsed (parse_one_request c3.buffer) c3

  -- `bytes` are those that the read put into the socket buffer; none for a posted call.
  unfoldable pub handle_read : ErrorCode → Bytes → Conn w → Conn w
  handle_read e bytes c =
      let c1 = record c { final_status = e } in
      if shutdown_requested c.log at_read
      then send_stock_reply shutdown c
      else if is_error e
      then handle_read_error e c1
      else receive bytes c1
