-- ===== src/Connection/Timer.antt =====
-- source/AsyncConnection.cpp and source/Connection.cpp: the timeout timer, the start and the end of
-- a connection, and the disconnect listener.
use smartmet_server.Base.{ℕ, ◌+◌, ◌-◌, Bool, true, not, ◌==◌, if◌then◌else◌}
use smartmet_server.World.{
  World, ErrorCode, is_error, success, operation_aborted, request_timeout, disable_nagle, handshake,
  disconnect_listen, finished_hook,
}
use smartmet_server.Connection.State.{
  Conn, emit, channel, drop_keep_alive, close, start_read, arm_timer,
}
use smartmet_server.Connection.Reply.{send_stock_reply}

module _ {w : World} where
  abbrev pub expire : Conn w → Conn w
  expire c = record c { has_timed_out = true }

  unfoldable pub on_expiry : ℕ → Conn w → Conn w
  on_expiry generation c =
      if not (generation == c.timer_generation)
      then c
      else if c.idle
      then close (expire c)
      else send_stock_reply request_timeout (drop_keep_alive (expire c))

  unfoldable pub handle_timer : ErrorCode → ℕ → Conn w → Conn w
  handle_timer operation_aborted generation c = c
  handle_timer _ generation c = on_expiry generation c

  -- Connection::registerConnection, with the server's counter.
  unfoldable pub register_connection : ℕ → Conn w → ℕ × Conn w
  register_connection count c = (count + 1, record c { counted = true })

  unfoldable pub start : ℕ → Conn w → ℕ × Conn w
  unfolding register_connection arm_timer start_read
  start count c =
      let (count', c1) = register_connection count c in
      let c2 = arm_timer c1.timeout (emit disable_nagle c1) in
      (count', if c2.encryption_enabled then emit (handshake (channel c2)) c2 else start_read c2)

  unfoldable pub handle_handshake : ErrorCode → Conn w → Conn w
  unfolding start_read close
  handle_handshake e c = if is_error e then close c else start_read c

  -- The destructors, the derived class's first: the counter loses exactly what `start` added.
  unfoldable pub destroy : Bool → ℕ → Conn w → ℕ × Conn w
  unfolding close
  destroy shut_down count c =
      let c1 = if c.has_timed_out then c else close c in
      (
        if c1.counted then count - 1 else count,
        if shut_down then c1 else emit (finished_hook (w.client_ip c1.request) c1.final_status) c1,
      )

  unfoldable pub notify_client_disconnect : ErrorCode → Conn w → Conn w
  notify_client_disconnect success c = emit (disconnect_listen (channel c)) c
  notify_client_disconnect operation_aborted c = c
  notify_client_disconnect _ c = record c { prematurely_disconnected = true }
