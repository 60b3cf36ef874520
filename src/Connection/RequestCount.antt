-- ===== src/Connection/RequestCount.antt =====
-- The count of the requests of a connection against itsMaxKeepAliveRequests, from the socket's bytes to
-- the negotiation.
use smartmet_server.World.{
  World, not_found, bad_request, high_load, failed, request_header_fields_too_large,
  expectation_failed, incomplete, request_entity_too_large, Parsed, complete,
}
use smartmet_server.Base.{
  arith, false, sym, true, Bool, inl, inr, not, ltb, leb, Option-cases, ◌==◌, ◌≡◌, ◌&&◌, ◌∙◌, ◌||◌,
  Bool-cases, drop, length, ◌++◌, ◌+◌,
}
use smartmet_server.Connection.Request.{
  convert_head, route, negotiate, missing_host, dispatch, receive, handle_parsed_request,
  handle_incomplete_request, take_parsed, handle_expect_continue, wake, resolve_ip, too_long,
  too_large, unmet, answer_expect, answer_continue,
}
use smartmet_server.Connection.Headers.{
  strip_hop_by_hop_headers, evaluate_keep_alive, set_server_headers,
}
use smartmet_server.Connection.Settling.{
  Settles, send_simple_reply-Ends, Ends, send_stock_reply-Ends, Ends-trans,
  set_server_headers-Settles,
}
use smartmet_server.Connection.State.{drop_keep_alive, Conn, start_read}
use smartmet_server.Connection.SettlingReplies.{schedule_request-Ends}
use smartmet_server.Connection.Awaiting.{awaits}
use smartmet_server.Connection.Reply.{send_simple_reply, send_stock_reply}
use smartmet_server.Text.{Bytes}
use smartmet_server.Utility.Head.{peek_request_head}
use smartmet_server.Utility.Tokens.{negotiate_version}
use smartmet_server.Connection.Steady.{listens, was_closed}

module _ {w : World} where
  -- The count is within the limit, where 0 is none; and below it.
  abbrev pub is_within : Conn w → Bool
  is_within c = c.max_keep_alive_requests == 0 || leb c.request_count c.max_keep_alive_requests

  abbrev pub may_go_on : Conn w → Bool
  may_go_on c = c.max_keep_alive_requests == 0 || ltb c.request_count c.max_keep_alive_requests

  -- A connection that has served its last request is not persistent, and does not read.
  abbrev pub IsMetered : Conn w → Type 0
  IsMetered c =
      (is_within c ≡ true) × (may_go_on c ≡ false → (c.keep_alive ≡ false) × (awaits c.log ≡ false))

  pub IsMetered-Settles : (c d : Conn w) → Settles c d → IsMetered c → IsMetered d
  IsMetered-Settles c d (st, n, m, h) (within, done) =
      let same : may_go_on d ≡ may_go_on c = cc in
      (
        cc,
        λ over.
            let (off, calm) = done (sym same ∙ over) in
            let (off', calm') = h off in
            (
              off',
              elim (Bool-cases (awaits d.log)) [
                | inl still ↦ absurd (cc (calm' still, calm))
                | inr gone ↦ gone
              ],
            ),
      )

  -- While the count is below the limit nothing else is asked for.
  pub IsMetered-of_may_go_on : (c : Conn w) → may_go_on c ≡ true → IsMetered c
  IsMetered-of_may_go_on c h = (ground arith, λ over. absurd (cc h))

  IsMetered-Ends :
      (c d : Conn w)
      → Ends c d
      → is_within c ≡ true
      → (may_go_on c ≡ false → c.keep_alive ≡ false)
      → IsMetered d
  IsMetered-Ends c d (st, n, m, h) within off = (cc, λ over. h (off cc))

  evaluate_keep_alive-may_go_on : (c : Conn w) → may_go_on c ≡ false → evaluate_keep_alive c ≡ false
  unfolding evaluate_keep_alive
  evaluate_keep_alive-may_go_on c h = ground arith

  -- The negotiation counts a request, and lets the connection persist only below the limit.
  negotiate-within :
      (c : Conn w)
      → may_go_on c ≡ true
      → (is_within (negotiate c) ≡ true)
        × (may_go_on (negotiate c) ≡ false → (negotiate c).keep_alive ≡ false)
  unfolding negotiate
  negotiate-within c h =
      let c1 = record c {
        request_count = c.request_count + 1;
        response_version = negotiate_version w.stoul (w.request_version c.request);
      } in
      ground (arith, evaluate_keep_alive-may_go_on c1)

  pub route-Ends : (c : Conn w) → Ends c (route c)
  unfolding route
  route-Ends c = elim (Option-cases (w.handler_view c.request)) [
    | inl e ↦ rw (e, route) (send_stock_reply-Ends not_found c)
    | inr (v, e) ↦
        let a =
          not (w.is_catch_no_match v)
          && (w.is_admin_query v c.request && ltb 0 w.admin_pool_size) in
        rw (e, route)
          (ground (
            arith,
            send_stock_reply-Ends high_load (record c { admin_query = a }),
            schedule_request-Ends v (record c { admin_query = a }),
          ))
  ]

  pub dispatch-Ends : (c : Conn w) → Ends c (dispatch c)
  unfolding dispatch convert_head strip_hop_by_hop_headers awaits listens was_closed
  dispatch-Ends c =
      let c1 = convert_head (strip_hop_by_hop_headers c) in
      let d = record c1 { response = w.stock_options_response } in
      ground (
        arith,
        send_stock_reply-Ends bad_request (drop_keep_alive (missing_host c)),
        Ends-trans d (set_server_headers d) (send_simple_reply (set_server_headers d))
            (set_server_headers-Settles d) (send_simple_reply-Ends (set_server_headers d)),
        route-Ends c1,
      )

  handle_parsed_request-IsMetered :
      (c : Conn w) → may_go_on c ≡ true → IsMetered (handle_parsed_request c)
  unfolding handle_parsed_request resolve_ip
  handle_parsed_request-IsMetered c h =
      let c1 = (resolve_ip c).0 in
      let n = negotiate c1 in
      ground (
        arith,
        negotiate-within c1,
        IsMetered-Ends n (dispatch n) (dispatch-Ends n),
        IsMetered-of_may_go_on c1,
      )

  -- The count and the limit are what they were.
  abbrev pub Same : Conn w → Conn w → Type 0
  Same c d =
      (d.request_count ≡ c.request_count) × (d.max_keep_alive_requests ≡ c.max_keep_alive_requests)

  pub IsMetered-Same : (c d : Conn w) → Same c d → may_go_on c ≡ true → IsMetered d
  IsMetered-Same c d (n, m) h = IsMetered-of_may_go_on d (cc)

  handle_expect_continue-Same : (c : Conn w) → Same c (handle_expect_continue c).0
  unfolding handle_expect_continue answer_expect answer_continue
  handle_expect_continue-Same c =
      let head = peek_request_head w.lower c.buffer in
      let d = drop_keep_alive (unmet head (record c { expect_handled = true })) in
      ground (arith, send_stock_reply-Ends expectation_failed d)

  handle_incomplete_request-Same : (c : Conn w) → Same c (handle_incomplete_request c)
  unfolding handle_incomplete_request start_read
  handle_incomplete_request-Same c = ground (
    arith,
    handle_expect_continue-Same c,
    send_stock_reply-Ends request_header_fields_too_large (drop_keep_alive (too_long c)),
  )

  take_parsed-IsMetered :
      (r : Parsed w.Request) (c : Conn w) → may_go_on c ≡ true → IsMetered (take_parsed r c)
  unfolding take_parsed
  take_parsed-IsMetered (complete q n) c h =
      handle_parsed_request-IsMetered
        (record c {
          request = q;
          buffer = drop n c.buffer;
          received_bytes = length (drop n c.buffer);
        })
        h
  take_parsed-IsMetered failed c h =
      let (st, n, m, e) = send_stock_reply-Ends bad_request c in
      IsMetered-Same c (send_stock_reply bad_request c) (n, m) h
  take_parsed-IsMetered incomplete c h =
      IsMetered-Same c (handle_incomplete_request c) (handle_incomplete_request-Same c) h

  pub receive-IsMetered :
      (bytes : Bytes) (c : Conn w) → may_go_on c ≡ true → IsMetered (receive bytes c)
  unfolding receive wake
  receive-IsMetered bytes c h =
      let c2 = record (wake c) { received_bytes = (wake c).received_bytes + length bytes } in
      let c3 = record c2 { buffer = c2.buffer ++ bytes } in
      let (st, n, m, e) = send_stock_reply-Ends request_entity_too_large (too_large c2) in
      ground (
        arith,
        IsMetered-Same c2 (send_stock_reply request_entity_too_large (too_large c2)) (n, m),
        take_parsed-IsMetered (w.parse_one_request c3.buffer) c3,
      )
