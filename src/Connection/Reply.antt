-- ===== src/Connection/Reply.antt =====
-- source/AsyncConnection.cpp: finishResponse, sendStockReply and sendSimpleReply. A write that is
-- made at once has its outcome from the trace before it.
use smartmet_server.Base.{false, not, ◌||◌, [], if◌then◌else◌, is_empty}
use smartmet_server.Text.{Bytes, codes, to_string}
use smartmet_server.World.{
  World, ErrorCode, is_error, Status, http_1_0, service_unavailable, at_finish, sync_write,
  post_read,
}
use smartmet_server.Connection.State.{Conn, emit, channel, close, start_read, arm_timer}
use smartmet_server.Connection.Headers.{set_server_headers}

module _ {w : World} where
  open w use {
    new_request, new_response, set_client_ip, client_ip, set_header, status_code, set_status,
    content_length, headers_to_buffer, content_to_buffer, write, shutdown_requested,
  }

  -- The per-request state reset; the received bytes that are left belong to the next request.
  unfoldable pub next_cycle : Conn w → Conn w
  next_cycle c = record c {
    sent_bytes = 0;
    total_streamed_bytes = 0;
    declared_content_length = 0;
    response_string = [];
    request = set_client_ip new_request (client_ip c.request);
    response = new_response;
    response_version = http_1_0;
    query_is_fast = false;
    admin_query = false;
    keep_alive = false;
    expect_handled = false;
    head_request = false;
    backend_notified = false;
    idle = is_empty c.buffer;
  }

  unfoldable pub finish_response : Conn w → Conn w
  unfolding next_cycle arm_timer start_read
  finish_response c =
      if not c.keep_alive || (c.has_timed_out || shutdown_requested c.log at_finish)
      then c
      else if is_empty c.buffer
      then start_read (arm_timer c.keep_alive_timeout (next_cycle c))
      else emit post_read (arm_timer c.timeout (next_cycle c))

  -- `boost::asio::write` with the connection's channel.
  abbrev pub written : Bytes → Conn w → Conn w
  written b c = emit (sync_write (channel c) b) c

  unfoldable pub after_simple_reply : ErrorCode → Conn w → Conn w
  after_simple_reply err c =
      let c1 = record c {
        final_status = err;
        keep_alive = if is_error err then false else c.keep_alive;
      } in
      if c1.keep_alive then finish_response c1 else close c1

  abbrev pub head_written : Conn w → Conn w
  head_written c = written (headers_to_buffer c.response) c

  abbrev pub reply_written : Conn w → Conn w
  reply_written c = written (content_to_buffer c.response) (head_written c)

  -- The second write overwrites the error code of the first.
  abbrev pub reply_outcome : Conn w → ErrorCode
  reply_outcome c = write (head_written c).log (content_to_buffer c.response)

  unfoldable pub send_simple_reply : Conn w → Conn w
  send_simple_reply c = after_simple_reply (reply_outcome c) (reply_written c)

  -- The response of a stock reply, before the server's headers.
  unfoldable pub stock_response : Status → Conn w → Conn w
  stock_response s c =
      let r = set_status c.response (status_code s) in
      record c { response = set_header r (codes "Content-Length") (to_string (content_length r)) }

  unfoldable pub send_stock_reply : Status → Conn w → Conn w
  send_stock_reply s c = send_simple_reply (set_server_headers (stock_response s c))

  unfoldable pub reject_connection : Conn w → Conn w
  reject_connection c =
      send_stock_reply service_unavailable
        (record c { keep_alive = false; response_version = http_1_0 })
