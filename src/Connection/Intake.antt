-- ===== src/Connection/Intake.antt =====
-- A parsed request on its way to the plugin: the headers that it must not bring along, the Host
-- header that it must have, and the number of requests on one connection.
use smartmet_server.World.{
  World, http_1_1, bad_request, close_socket, RequestLaws, Status, Effect, schedule, ErrorCode,
  is_error, not_found, high_load,
}
use smartmet_server.Base.{
  List, arith, none, true, [], refl, inr, some, inl, false, ◌-◌, ◌⊎◌, ◌^◌, ◌≡◌, ◌<◌, ◌∷◌,
  if◌then◌else◌, Option, sym, ap, Option-cases, ltb, not, Bool, ◌&&◌, ◌∙◌,
}
use smartmet_server.Text.{Bytes, same_name, codes, ascii_lower}
use smartmet_server.Connection.Headers.{
  strip_hop_by_hop_headers, hop_by_hop, remove_all, sub_size, listed_in, evaluate_keep_alive,
  set_server_headers,
}
use smartmet_server.Connection.Request.{
  dispatch, convert_head, missing_host, original_method, route, schedule_frontend, schedule_request,
  schedule_backend,
}
use smartmet_server.Connection.Timeout.{send_stock_reply-log, newest}
use smartmet_server.Connection.State.{drop_keep_alive, Conn, close}
use smartmet_server.Connection.Reply.{
  send_simple_reply, send_stock_reply, reply_outcome, after_simple_reply, stock_response,
  finish_response, reply_written,
}
use smartmet_server.Utility.TokenSpec.{listed-elements}
use smartmet_server.Utility.Tokens.{listed}
use smartmet_server.Utility.Elements.{elements}

-- Whether the newest effect hands a task to a thread pool.
abbrev pub hands_over : {V : Type 0} → List (Effect V) → Bool
hands_over [] = false
hands_over (schedule p t ∷ es) = true
hands_over (e ∷ es) = false

module _ {w : World} where
  finish_response-hands_over :
      (c : Conn w) → hands_over c.log ≡ false → hands_over (finish_response c).log ≡ false
  unfolding finish_response
  finish_response-hands_over c h = ground arith

  after_simple_reply-hands_over :
      (e : ErrorCode) (c : Conn w)
      → hands_over c.log ≡ false
      → hands_over (after_simple_reply e c).log ≡ false
  unfolding after_simple_reply close
  after_simple_reply-hands_over e c h =
      let k = if is_error e then false else c.keep_alive in
      ground (arith, finish_response-hands_over (record c { final_status = e; keep_alive = k }))

  send_simple_reply-hands_over : (c : Conn w) → hands_over (send_simple_reply c).log ≡ false
  unfolding send_simple_reply
  send_simple_reply-hands_over c =
      after_simple_reply-hands_over (reply_outcome c) (reply_written c) refl

  send_stock_reply-hands_over :
      (status : Status) (c : Conn w) → hands_over (send_stock_reply status c).log ≡ false
  unfolding send_stock_reply
  send_stock_reply-hands_over status c =
      send_simple_reply-hands_over (set_server_headers (stock_response status c))

  schedule_request-kept :
      (v : w.View) (c : Conn w)
      → hands_over (schedule_request v c).log ≡ true
      → (schedule_request v c).request ≡ c.request
  unfolding schedule_request schedule_frontend schedule_backend
  schedule_request-kept v c h = ground arith

  -- What route hands over is the request that it was given.
  route-kept : (c : Conn w) → hands_over (route c).log ≡ true → (route c).request ≡ c.request
  unfolding route
  route-kept c h = elim (Option-cases (w.handler_view c.request)) [
    | inl e ↦
        let none_handed : hands_over (route c).log ≡ false =
          rw (e, route) (send_stock_reply-hands_over not_found c) in
        absurd (ground arith)
    | inr (v, e) ↦
        let a =
          not (w.is_catch_no_match v)
          && (w.is_admin_query v c.request && ltb 0 w.admin_pool_size) in
        let c1 = record c { admin_query = a } in
        let chosen =
          if not a && w.is_load_high c.log
          then send_stock_reply high_load c1
          else schedule_request v c1 in
        let is_chosen : route c ≡ chosen = rw (e, route) refl in
        rw is_chosen (
          ground (
            arith,
            ap (λ (d : Conn w). hands_over d.log) (sym is_chosen),
            send_stock_reply-hands_over high_load c1,
            schedule_request-kept v c1,
          ))
  ]

  -- A connection is kept for another request only while the limit on requests is not reached, so the
  -- subtraction of the Keep-Alive header's "max" does not wrap around.
  pub evaluate_keep_alive-bound :
      (c : Conn w)
      → evaluate_keep_alive c ≡ true
      → 0 < c.max_keep_alive_requests
      → c.max_keep_alive_requests < 2 ^ 64
      → (c.request_count < c.max_keep_alive_requests)
        × (sub_size c.max_keep_alive_requests c.request_count
            ≡ c.max_keep_alive_requests - c.request_count)
  unfolding evaluate_keep_alive
  evaluate_keep_alive-bound c e p b = ground arith

  -- An HTTP/1.1 request without a Host header never reaches a handler: it is answered and the socket
  -- is closed.
  pub dispatch_without_host :
      (c : Conn w)
      → c.response_version ≡ http_1_1
      → w.request_header c.request (codes "Host") ≡ none
      → (newest (dispatch c).log ≡ some close_socket) × ((dispatch c).keep_alive ≡ false)
  unfolding dispatch
  dispatch_without_host c v h =
      ground (arith, send_stock_reply-log bad_request (drop_keep_alive (missing_host c)) refl)

-- The names of a list, as header names.
abbrev pub Names : List Bytes → Bytes → Type 0
Names [] j = ⊥
Names (n ∷ ns) j = (same_name n j ≡ true) ⊎ Names ns j

-- The headers of a single hop by RFC 2616 13.5.1, with Proxy-Connection and without Transfer-Encoding
-- and Upgrade.
abbrev pub hops : List Bytes
hops =
    codes "TE"
    ∷ codes "Trailer"
    ∷ codes "Keep-Alive"
    ∷ codes "Connection"
    ∷ codes "Proxy-Connection"
    ∷ codes "Proxy-Authenticate"
    ∷ codes "Proxy-Authorization"
    ∷ []

hops-hop_by_hop : (j : Bytes) → Names hops j → Names hop_by_hop j
hops-hop_by_hop j (inl h) = inr (inr (inr (inr (inr (inl h)))))
hops-hop_by_hop j (inr (inl h)) = inr (inr (inr (inr (inr (inr (inl h))))))
hops-hop_by_hop j (inr (inr (inl h))) = inr (inl h)
hops-hop_by_hop j (inr (inr (inr (inl h)))) = inl h
hops-hop_by_hop j (inr (inr (inr (inr (inl h))))) = inr (inr (inl h))
hops-hop_by_hop j (inr (inr (inr (inr (inr (inl h)))))) = inr (inr (inr (inl h)))
hops-hop_by_hop j (inr (inr (inr (inr (inr (inr (inl h))))))) = inr (inr (inr (inr (inl h))))
hops-hop_by_hop j (inr (inr (inr (inr (inr (inr (inr h))))))) = absurd h

abbrev pub elements_in : Option Bytes → List Bytes
elements_in none = []
elements_in (some v) = elements v

module _ {w : World} (laws : RequestLaws w) where
  open laws use {request_header-set, request_header-remove, request_header-set_method_get}

  remove_all-none :
      (ns : List Bytes) (q : w.Request) (j : Bytes)
      → w.request_header q j ≡ none
      → w.request_header (remove_all w ns q) j ≡ none
  unfolding remove_all
  remove_all-none [] q j h = h
  remove_all-none (n ∷ ns) q j h =
      remove_all-none ns (w.remove_request_header q n) j
        (ground (arith, request_header-remove q n j))

  remove_all-Names :
      (ns : List Bytes) (q : w.Request) (j : Bytes)
      → Names ns j
      → w.request_header (remove_all w ns q) j ≡ none
  unfolding remove_all
  remove_all-Names [] q j h = absurd h
  remove_all-Names (n ∷ ns) q j (inl e) =
      remove_all-none ns (w.remove_request_header q n) j
        (ground (arith, request_header-remove q n j))
  remove_all-Names (n ∷ ns) q j (inr h) = remove_all-Names ns (w.remove_request_header q n) j h

  remove_all-hops :
      (j : Bytes) (o : Option Bytes) (q : w.Request)
      → Names hops j ⊎ Names (elements_in o) j
      → w.request_header (remove_all w (listed_in o) (remove_all w hop_by_hop q)) j ≡ none
  remove_all-hops j o q (inl h) =
      remove_all-none (listed_in o) (remove_all w hop_by_hop q) j
        (remove_all-Names hop_by_hop q j (hops-hop_by_hop j h))
  remove_all-hops j none q (inr h) = absurd h
  remove_all-hops j (some v) q (inr h) =
      remove_all-Names (listed v) (remove_all w hop_by_hop q) j (rw (listed-elements v) h)

  strip_hop_by_hop_headers-hops :
      (c : Conn w) (j : Bytes)
      → Names hops j ⊎ Names (elements_in (w.request_header c.request (codes "Connection"))) j
      → w.request_header (strip_hop_by_hop_headers c).request j ≡ none
  unfolding strip_hop_by_hop_headers
  strip_hop_by_hop_headers-hops c j h =
      remove_all-hops j (w.request_header c.request (codes "Connection")) c.request h

  convert_head-none :
      (c : Conn w) (j : Bytes)
      → same_name original_method j ≡ false
      → w.request_header c.request j ≡ none
      → w.request_header (convert_head c).request j ≡ none
  unfolding convert_head
  convert_head-none c j n h =
      let q = w.remove_request_header c.request original_method in
      ground (
        arith,
        request_header-remove c.request original_method j,
        request_header-set_method_get q j,
        request_header-set (w.set_method_get q) original_method (codes "HEAD") j,
      )

  -- No header of the single hop reaches a handler: a request that is handed to a thread pool has none of
  -- Connection, Keep-Alive, Proxy-Connection, Proxy-Authenticate, Proxy-Authorization, TE and Trailer,
  -- and none that is an element of the Connection header it came with. The server's own header of the
  -- original method, which it may set afterwards, is excepted.
  pub dispatch-without_hops :
      (c : Conn w) (j : Bytes)
      → Names hops j ⊎ Names (elements_in (w.request_header c.request (codes "Connection"))) j
      → same_name original_method j ≡ false
      → hands_over (dispatch c).log ≡ true
      → w.request_header (dispatch c).request j ≡ none
  unfolding dispatch
  dispatch-without_hops c j h n s =
      let d = strip_hop_by_hop_headers c in
      let gone : w.request_header (convert_head d).request j ≡ none =
        convert_head-none d j n (strip_hop_by_hop_headers-hops c j h) in
      let kept : hands_over (route (convert_head d)).log ≡ true
          → w.request_header (route (convert_head d)).request j ≡ none =
        λ k. ap (λ q. w.request_header q j) (route-kept (convert_head d) k) ∙ gone in
      let options = record (convert_head d) { response = w.stock_options_response } in
      ground (
        arith,
        gone,
        kept,
        send_stock_reply-hands_over bad_request (drop_keep_alive (missing_host c)),
        send_simple_reply-hands_over (set_server_headers options),
      )

  -- The internal header with the original method comes from the server alone: the handler sees "HEAD"
  -- in it for a HEAD request and no such header otherwise, whatever the client sent.
  pub convert_head-header :
      (c : Conn w)
      → w.request_header (convert_head c).request original_method
        ≡ (if (convert_head c).head_request then some (codes "HEAD") else none)
  unfolding convert_head same_name ascii_lower
  convert_head-header c =
      let q = w.remove_request_header c.request original_method in
      ground (
        arith,
        request_header-remove c.request original_method original_method,
        request_header-set (w.set_method_get q) original_method (codes "HEAD") original_method,
      )
