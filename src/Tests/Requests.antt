-- ===== src/Tests/Requests.antt =====
-- The properties of the way of a request into the server at concrete inputs.
use smartmet_server.Connection.Headers.{
  set_server_headers, vary_value, set_vary, stamped, append_stale_directives,
  strip_hop_by_hop_headers, set_connection_headers, remove_all,
}
use smartmet_server.Demo.{
  find_header, fresh, blank_request, remove_name, demo_request_laws, demo, demo_settings,
}
use smartmet_server.World.{World, sync_write, http_1_1}
use smartmet_server.Connection.Request.{
  handle_incomplete_request, route, negotiate, dispatch, schedule_backend, schedule_request,
  schedule_frontend, convert_head,
}
use smartmet_server.Connection.State.{Conn, create, channel}
use smartmet_server.Connection.Reply.{stock_response}
use smartmet_server.Connection.HeadReply.{no_handler, goes_on, route-head_content}
use smartmet_server.Base.{[], true, inl, inr, refl, arith, none, ◌∷◌, ◌≡◌, ◌++◌, ◌&&◌}
use smartmet_server.Text.{
  same_name, find_char, codes, find_last_not_blank, find_first_not_blank, first_index, ascii_lower,
  same_bytes,
}
use smartmet_server.Utility.HeadLines.{wire}
use smartmet_server.Connection.Expectation.{
  head_lines, handle_incomplete_request-head_lines, answer_lines,
}
use smartmet_server.Utility.Tokens.{listed_from, listed, list_element}
use smartmet_server.Connection.Intake.{dispatch-without_hops, hands_over}
use smartmet_server.Connection.Negotiation.{wants_more, negotiate_lem, allows_more}
use smartmet_server.Utility.Elements.{elements, parts, non_empty, trim, trim_right, trim_left}

abbrev asked : Conn demo
asked = record fresh {
  response_version = http_1_1;
  request_count = 3;
  request = record blank_request {
    headers =
        (codes "Connection", codes "x-secret, Upgrade")
        ∷ (codes "X-Secret", codes "1")
        ∷ (codes "X-SmartMet-Original-Method", codes "DELETE")
        ∷ [];
    is_head = true;
  };
}

-- The head of a request, whose body of five bytes the client holds back.
abbrev held_back : Conn demo
held_back = record fresh {
  buffer =
      codes "PUT / HTTP/1.1"
      ++ 13 ∷ 10 ∷ wire (codes "Host: a" ∷ codes "Expect: 100-continue" ∷ []) [];
}

handle_incomplete_request-head_lines_example :
    handle_incomplete_request held_back
    ≡ answer_lines
        (head_lines demo.lower
          (codes "PUT / HTTP/1.1")
          (codes "Host: a" ∷ codes "Expect: 100-continue" ∷ []))
        (record held_back { expect_handled = true })
handle_incomplete_request-head_lines_example =
    handle_incomplete_request-head_lines held_back (codes "PUT / HTTP/1.1")
      (codes "Host: a" ∷ codes "Expect: 100-continue" ∷ []) [] refl refl refl
      ((refl, omega arith), ((refl, omega arith), tt))

-- The same request with a Host header, which route hands to a thread pool.
abbrev hosted : Conn demo
hosted = record asked {
  request = record asked.request {
    headers = (codes "Host", codes "fmi.fi") ∷ asked.request.headers;
  };
}

hosted-hands_over : hands_over (dispatch hosted).log ≡ true
unfolding dispatch route schedule_request schedule_frontend schedule_backend convert_head
    strip_hop_by_hop_headers remove_all find_header same_name listed listed_from list_element
    find_first_not_blank find_char find_last_not_blank same_bytes ascii_lower
hosted-hands_over = refl

dispatch-without_hops_example :
    demo.request_header (dispatch hosted).request (codes "x-secret") ≡ none
unfolding find_header same_name elements parts same_bytes ascii_lower non_empty trim trim_right
    trim_left
dispatch-without_hops_example =
    dispatch-without_hops demo_request_laws hosted (codes "x-secret") (inr (inl refl)) refl
      hosted-hands_over

abbrev without_handlers : World
without_handlers = record demo { handler_view = λ q. none }

abbrev asks_head : Conn without_handlers
asks_head = record (create without_handlers demo_settings) {
  head_request = true;
  request = record blank_request { version = codes "1.1"; is_head = true };
  request_count = 1;
  keep_alive = true;
}

route-head_content_example :
    (route asks_head).log
    ≡ goes_on (no_handler asks_head) (
        sync_write (channel (no_handler asks_head)) (codes "data")
        ∷ sync_write (channel (no_handler asks_head)) (codes "HTTP/1.1 200 OK\r\n\r\n")
        ∷ (no_handler asks_head).log)
unfolding set_server_headers append_stale_directives find_header set_connection_headers stamped
    set_vary vary_value remove_name stock_response
route-head_content_example = route-head_content asks_head refl refl refl refl refl refl

negotiate_lem_example :
    ((negotiate fresh).response_version ≡ http_1_1)
    × ((negotiate fresh).keep_alive ≡ (allows_more fresh && wants_more demo true fresh.request))
unfolding first_index
negotiate_lem_example = negotiate_lem fresh (codes "1") (codes "1") 1 1 refl refl refl refl
