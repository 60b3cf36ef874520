-- ===== src/Connection/HeadReply.antt =====
-- source/AsyncConnection.cpp: the stock reply to a HEAD request for which no handler is found.
use smartmet_server.World.{
  World, success, post_read, at_finish, sync_write, arms, async_read, not_found, Effect,
}
use smartmet_server.Connection.State.{next_generation, Conn, channel}
use smartmet_server.Connection.Reply.{
  reply_written, finish_response, send_simple_reply, send_stock_reply, reply_outcome,
  after_simple_reply, stock_response,
}
use smartmet_server.Base.{false, List, is_empty, none, true, arith, ◌≡◌, ◌∷◌, if◌then◌else◌}
use smartmet_server.Connection.Request.{route}
use smartmet_server.Connection.Headers.{set_server_headers}

module _ {w : World} where
  -- The effects of a connection that goes on to its next request.
  abbrev pub goes_on : Conn w → List (Effect w.View) → List (Effect w.View)
  goes_on c log =
      let g = next_generation c.timer_generation in
      if is_empty c.buffer
      then async_read (channel c) ∷ arms c.keep_alive_timeout g ∷ log
      else post_read ∷ arms c.timeout g ∷ log

  -- The connection when the 404 reply to its request is ready.
  abbrev pub no_handler : Conn w → Conn w
  no_handler c = set_server_headers (stock_response not_found c)

  pub send_simple_reply-log :
      (c : Conn w)
      → c.keep_alive ≡ true
      → c.has_timed_out ≡ false
      → reply_outcome c ≡ success
      → w.shutdown_requested (reply_written c).log at_finish ≡ false
      → (send_simple_reply c).log ≡ goes_on c (reply_written c).log
  unfolding send_simple_reply after_simple_reply finish_response
  send_simple_reply-log c k t o s = ground arith

  -- A HEAD request that no handler takes, on a connection that stays persistent, is answered with the
  -- content of the 404 reply behind its header section, and the connection goes on to the next
  -- request: the trace has the write of the headers, the write of the content, the timer and the read.
  pub route-head_content :
      (c : Conn w)
      → c.head_request ≡ true
      → w.handler_view c.request ≡ none
      → (no_handler c).keep_alive ≡ true
      → (no_handler c).has_timed_out ≡ false
      → reply_outcome (no_handler c) ≡ success
      → w.shutdown_requested (reply_written (no_handler c)).log at_finish ≡ false
      → (route c).log
        ≡ goes_on (no_handler c) (
            sync_write (channel (no_handler c)) (w.content_to_buffer (no_handler c).response)
            ∷ sync_write (channel (no_handler c)) (w.headers_to_buffer (no_handler c).response)
            ∷ (no_handler c).log)
  unfolding route send_stock_reply
  route-head_content c h n k t o s = rw (n, route) (send_simple_reply-log (no_handler c) k t o s)
