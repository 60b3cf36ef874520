-- ===== src/Connection/Timeout.antt =====
-- source/AsyncConnection.cpp, handleTimer: theorems about stale and current firings.
use smartmet_server.Base.{
  List, zero, false, suc, arith, some, refl, [], none, ℕ, Option, ◌<◌, ◌+◌, ◌≡◌, ◌^◌, ◌%◌, ◌∷◌,
  true, if◌then◌else◌,
}
use smartmet_server.World.{
  World, close_socket, Status, request_timeout, operation_aborted, ErrorCode, sync_write,
}
use smartmet_server.Connection.Reply.{
  send_simple_reply, after_simple_reply, send_stock_reply, stock_response, finish_response,
}
use smartmet_server.Connection.State.{close, next_generation, Conn, drop_keep_alive, channel}
use smartmet_server.Connection.Timer.{expire, on_expiry, handle_timer}
use smartmet_server.Connection.Headers.{
  set_server_headers, set_connection_headers, stamped, append_stale_directives,
}

abbrev pub newest {ℓ} : {A : Type ℓ} → List A → Option A
newest [] = none
newest (x ∷ xs) = some x

-- `k` times cancelled or armed again.
unfoldable pub generation_after : ℕ → ℕ → ℕ
generation_after zero g = g
generation_after (suc k) g = next_generation (generation_after k g)

generation_after_lem : (k g : ℕ) → g < 2 ^ 64 → generation_after k g ≡ (g + k) % 2 ^ 64
unfolding generation_after
generation_after_lem zero g h = omega arith
generation_after_lem (suc k) g h = omega (arith, generation_after_lem k g h)

module _ {w : World} where
  set_server_headers-off :
      (c : Conn w) → c.keep_alive ≡ false → (set_server_headers c).keep_alive ≡ false
  unfolding set_server_headers stamped set_connection_headers append_stale_directives
  set_server_headers-off c k = ground arith

  -- Without persistence a stock reply writes its header section and its content and closes.
  pub send_stock_reply-log :
      (s : Status) (c : Conn w)
      → c.keep_alive ≡ false
      → (newest (send_stock_reply s c).log ≡ some close_socket)
        × ((send_stock_reply s c).keep_alive ≡ false)
  unfolding send_stock_reply send_simple_reply after_simple_reply close stock_response
  send_stock_reply-log s c k = ground (arith, set_server_headers-off (stock_response s c) k)

  send_stock_reply-timed_out :
      (s : Status) (c : Conn w) → (send_stock_reply s c).has_timed_out ≡ c.has_timed_out
  unfolding send_stock_reply send_simple_reply after_simple_reply close stock_response
      set_server_headers stamped set_connection_headers append_stale_directives finish_response
  send_stock_reply-timed_out s c = ground arith

  -- The response that answers a request which did not arrive in time.
  abbrev pub timeout_response : Conn w → w.Response
  timeout_response c =
      (set_server_headers (stock_response request_timeout (drop_keep_alive (expire c)))).response

  -- What sendStockReply writes without persistence.
  send_stock_reply-trace :
      (s : Status) (c : Conn w)
      → c.keep_alive ≡ false
      → let r = (set_server_headers (stock_response s c)).response in
        (send_stock_reply s c).log
        ≡ close_socket
          ∷ sync_write (channel c) (w.content_to_buffer r)
          ∷ sync_write (channel c) (w.headers_to_buffer r)
          ∷ c.log
  unfolding send_stock_reply send_simple_reply after_simple_reply close stock_response
      set_server_headers stamped set_connection_headers append_stale_directives
  send_stock_reply-trace s c k = ground arith

  -- A firing with the current stamp notes the timeout and closes the socket: at once on an idle
  -- connection, to which nothing is written; and on one that was reading a request behind the header
  -- section and the content of the 408 reply, which are all that is written.
  pub on_expiry_closes :
      (c : Conn w)
      → let d = on_expiry c.timer_generation c in
        let r = timeout_response c in
        (d.has_timed_out ≡ true)
        × (d.log ≡ (
            if c.idle
            then close_socket ∷ c.log
            else close_socket
              ∷ sync_write (channel c) (w.content_to_buffer r)
              ∷ sync_write (channel c) (w.headers_to_buffer r)
              ∷ c.log))
  unfolding on_expiry close
  on_expiry_closes c =
      let d = drop_keep_alive (expire c) in
      (
        ground (arith, send_stock_reply-timed_out request_timeout d),
        ground (arith, send_stock_reply-trace request_timeout d refl),
      )

  -- A firing with a stamp from before the last `k` armings and cancellations, fewer than 2 ^ 64 of
  -- them, changes nothing.
  pub handle_timer_stale :
      (e : ErrorCode) (g k : ℕ) (c : Conn w)
      → g < 2 ^ 64
      → 0 < k
      → k < 2 ^ 64
      → c.timer_generation ≡ generation_after k g
      → handle_timer e g c ≡ c
  unfolding handle_timer on_expiry
  handle_timer_stale operation_aborted g k c hg h0 h e = refl
  handle_timer_stale _ g k c hg h0 h e = ground (arith, generation_after_lem k g hg, e)
