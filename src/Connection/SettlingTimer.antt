-- ===== src/Connection/SettlingTimer.antt =====
-- The timer and a read that failed, among the handlers of Settling.
use smartmet_server.World.{
  World, eof, failure, operation_aborted, request_timeout, success, ErrorCode, Effect, close_socket,
}
use smartmet_server.Connection.Awaiting.{awaits}
use smartmet_server.Connection.State.{drop_keep_alive, Conn, close}
use smartmet_server.Base.{ℕ, arith, List, some, refl, true, [], ◌≡◌, ◌∷◌}
use smartmet_server.Connection.Request.{handle_read_error}
use smartmet_server.Connection.Timer.{on_expiry, expire, handle_timer}
use smartmet_server.Connection.Steady.{listens, was_closed}
use smartmet_server.Connection.Settling.{Settles, send_stock_reply-Ends}
use smartmet_server.Connection.Reply.{send_stock_reply}
use smartmet_server.Connection.Timeout.{newest, send_stock_reply-log}

was_closed-newest :
    {V : Type 0} (log : List (Effect V)) → newest log ≡ some close_socket → was_closed log ≡ true
unfolding was_closed
was_closed-newest [] h = cc
was_closed-newest (close_socket ∷ log) h = refl
was_closed-newest (_ ∷ log) h = absurd (cc)

module _ {w : World} where
  pub handle_read_error-Settles : (e : ErrorCode) (c : Conn w) → Settles c (handle_read_error e c)
  unfolding handle_read_error awaits listens was_closed
  handle_read_error-Settles eof c = ground arith
  handle_read_error-Settles operation_aborted c = ground arith
  handle_read_error-Settles success c = ground arith
  handle_read_error-Settles (failure n) c = ground arith

  on_expiry-Settles : (g : ℕ) (c : Conn w) → Settles c (on_expiry g c)
  unfolding on_expiry close awaits listens was_closed
  on_expiry-Settles g c =
      let d = drop_keep_alive (expire c) in
      let closed =
        was_closed-newest (send_stock_reply request_timeout d).log
          (send_stock_reply-log request_timeout d refl).0 in
      ground (arith, send_stock_reply-Ends request_timeout d, closed)

  pub handle_timer-Settles : (e : ErrorCode) (g : ℕ) (c : Conn w) → Settles c (handle_timer e g c)
  unfolding handle_timer
  handle_timer-Settles operation_aborted g c = ground arith
  handle_timer-Settles success g c = on_expiry-Settles g c
  handle_timer-Settles eof g c = on_expiry-Settles g c
  handle_timer-Settles (failure n) g c = on_expiry-Settles g c
