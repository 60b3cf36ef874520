-- ===== src/Connection/Execution.antt =====
-- source/AsyncConnection.cpp: handleCompletedRead, which calls the plugin from a thread pool, with
-- createCancellationToken and clientHasDisconnected.
use smartmet_server.Base.{Bool, not, ◌&&◌, ◌||◌, ◌++◌, Option, none, some, ltb, if◌then◌else◌}
use smartmet_server.Text.{codes}
use smartmet_server.World.{
  World, CancellationToken, Reason, disconnected, cancel_timer, cancel_socket, started_hook,
  bad_request,
}
use smartmet_server.Limits.{get_request_timeout, get_cancel_on_disconnect}
use smartmet_server.Utility.Files.{dump_request}
use smartmet_server.Connection.State.{Conn, emit, info, next_generation}
use smartmet_server.Connection.Headers.{set_server_headers}
use smartmet_server.Connection.Reply.{send_stock_reply}
use smartmet_server.Connection.Regular.{start_regular_reply}
use smartmet_server.Connection.Stream.{start_gateway_reply, start_chunked_reply, start_stream_reply}

-- What `poll` of the socket returns: whether an event is there, and the flags of `revents`.
pub record PollResult : Type 0 where
  pub ready : Bool
  pub rdhup : Bool
  pub hup : Bool
  pub err : Bool
  pub nval : Bool

pub client_has_disconnected : PollResult → Bool
client_has_disconnected p = p.ready && (p.rdhup || (p.hup || (p.err || p.nval)))

module _ {w : World} where
  open w use {
    View, is_catch_no_match, plugin_name, client_ip, handle, has_stream_content, is_gateway,
    is_chunked, lower, elapsed, reason_text,
  }

  unfoldable pub create_cancellation_token : View → Conn w → CancellationToken
  create_cancellation_token v c =
      let timeout = get_request_timeout lower c.limits (plugin_name v) in
      record {
        deadline =
            if not c.admin_query && not (is_catch_no_match v)
            then if ltb 0 timeout then some timeout else none
            else none;
        probed = get_cancel_on_disconnect lower c.limits (plugin_name v);
      }

  unfoldable pub choose_reply : Conn w → Conn w
  choose_reply c =
      if c.head_request
      then start_regular_reply (set_server_headers c)
      else if has_stream_content c.response
      then if is_gateway c.response
        then start_gateway_reply c
        else if is_chunked c.response
        then start_chunked_reply (set_server_headers c)
        else start_stream_reply (set_server_headers c)
      else start_regular_reply (set_server_headers c)

  -- What the plugin left behind: nobody waits after a disconnect.
  unfoldable pub after_handling : Option Reason → Bool → Conn w → Conn w
  after_handling (some disconnected) succeeded c = c
  after_handling _ succeeded c =
      if succeeded then choose_reply c else send_stock_reply bad_request c

  abbrev pub cancelled_report : View → Option Reason → Conn w → Conn w
  cancelled_report v none c = c
  cancelled_report v (some r) c =
      info
        (reason_text r
          ++ codes ", the "
          ++ plugin_name v
          ++ codes " request was cancelled after "
          ++ elapsed c.log
          ++ codes " seconds")
        c

  unfoldable pub run_plugin : View → Conn w → Conn w
  run_plugin v c =
      let c1 = emit (started_hook (client_ip c.request)) c in
      let c2 = if c1.dump_requests then info (dump_request w c1.request) c1 else c1 in
      let h = handle c2.log (create_cancellation_token v c2) v c2.request c2.response in
      after_handling h.interrupted h.succeeded (
        cancelled_report v h.interrupted (record c2 { request = h.request; response = h.response }))

  unfoldable pub handle_completed_read : View → Conn w → Conn w
  handle_completed_read v c =
      let c1 =
        emit cancel_timer (record c { timer_generation = next_generation c.timer_generation }) in
      if not c1.prematurely_disconnected
      then run_plugin v (emit cancel_socket c1)
      else if is_catch_no_match v
      then c1
      else info
          (codes "Client '"
            ++ client_ip c1.request
            ++ codes "' has already disconnected, not calling the plugin "
            ++ plugin_name v)
          c1
