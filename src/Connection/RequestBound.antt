-- ===== src/Connection/RequestBound.antt =====
-- The number of requests that a connection serves (itsMaxKeepAliveRequests), over the histories of
-- events of Session.
use smartmet_server.World.{World, eof, success, ErrorCode, failure, operation_aborted, shutdown}
use smartmet_server.Base.{
  arith, true, inl, inr, ◌≡◌, Bool-cases, refl, ℕ, List, [], false, some, ◌∷◌,
}
use smartmet_server.Connection.Request.{handle_read_error, handle_read}
use smartmet_server.Connection.Settling.{
  send_stock_reply-Ends, get_next_chunk-Settles, Settles-of_Ends, get_next_chunked_chunk-Settles,
}
use smartmet_server.Connection.State.{Conn, Settings, create}
use smartmet_server.Connection.SettlingReplies.{
  write_handler-Settles, handle_completed_read-Settles,
}
use smartmet_server.Connection.Awaiting.{awaits}
use smartmet_server.Connection.Reply.{send_stock_reply}
use smartmet_server.Text.{Bytes}
use smartmet_server.Connection.Session.{
  reads, step, write_handler, runs_next_chunk, runs_request, writes, timer_fires, Event,
  shakes_hands, Reach, runs_next_chunked_chunk, disconnect_seen, completes,
}
use smartmet_server.Connection.Timer.{
  notify_client_disconnect, handle_handshake, start, handle_timer,
}
use smartmet_server.Connection.Stream.{get_next_chunk, get_next_chunked_chunk}
use smartmet_server.Connection.Execution.{handle_completed_read}
use smartmet_server.Connection.RequestCount.{
  Same, IsMetered, receive-IsMetered, IsMetered-Same, may_go_on, IsMetered-Settles,
  IsMetered-of_may_go_on, is_within,
}
use smartmet_server.Connection.SettlingTimer.{handle_read_error-Settles, handle_timer-Settles}
use smartmet_server.Connection.Operations.{passes, is_read, Operation, operations}
use smartmet_server.Connection.Sequential.{Reach-induction}

module _ {w : World} where
  -- A connection that awaits a read is below the limit.
  may_go_on-of_awaits : (c : Conn w) → IsMetered c → awaits c.log ≡ true → may_go_on c ≡ true
  may_go_on-of_awaits c (within, done) a = elim (Bool-cases (may_go_on c)) [
    | inl below ↦ below
    | inr over ↦ absurd (let (off, calm) = done over in cc (calm, a))
  ]

  handle_read-IsMetered :
      (e : ErrorCode) (bytes : Bytes) (c : Conn w)
      → may_go_on c ≡ true
      → IsMetered c
      → IsMetered (handle_read e bytes c)
  unfolding handle_read
  handle_read-IsMetered e bytes c h v =
      let c1 = record c { final_status = e } in
      ground (
        arith,
        IsMetered-Settles c (send_stock_reply shutdown c)
            (Settles-of_Ends c (send_stock_reply shutdown c) (send_stock_reply-Ends shutdown c)) v,
        IsMetered-Settles c1 (handle_read_error e c1) (handle_read_error-Settles e c1) v,
        receive-IsMetered bytes c1 h,
      )

  notify_client_disconnect-IsMetered :
      (e : ErrorCode) (c : Conn w) → IsMetered c → IsMetered (notify_client_disconnect e c)
  unfolding notify_client_disconnect awaits
  notify_client_disconnect-IsMetered success c v = ground arith
  notify_client_disconnect-IsMetered operation_aborted c v = v
  notify_client_disconnect-IsMetered eof c v = v
  notify_client_disconnect-IsMetered (failure n) c v = v

  handle_handshake-Same : (e : ErrorCode) (c : Conn w) → Same c (handle_handshake e c)
  unfolding handle_handshake
  handle_handshake-Same e c = ground arith

  -- The count is within the limit, and below it while a read is outstanding.
  abbrev pub IsLimited : List (Operation w.View) → Conn w → Type 0
  IsLimited os c = IsMetered c × (passes is_read os ≡ true → may_go_on c ≡ true)

  handle_timer-IsLimited :
      (os : List (Operation w.View)) (c : Conn w) (e : ErrorCode) (g : ℕ)
      → IsLimited os c
      → IsLimited os (handle_timer e g c)
  handle_timer-IsLimited os c e g (v, below) =
      let (s, n, m, h) = handle_timer-Settles e g c in
      (
        IsMetered-Settles c (handle_timer e g c) (handle_timer-Settles e g c) v,
        λ due. let b = below due in cc,
      )

  step-IsMetered :
      (o : Operation w.View) (c : Conn w) (e : Event w)
      → completes e ≡ some o
      → IsLimited (o ∷ []) c
      → IsMetered (step e c)
  unfolding step completes
  step-IsMetered o c (reads e bytes) d (v, below) =
      handle_read-IsMetered e bytes c (ground (arith, below)) v
  step-IsMetered o c (timer_fires e g) d (v, below) = absurd (cc)
  step-IsMetered o c (runs_request p) d (v, below) =
      IsMetered-Settles c (handle_completed_read p c) (handle_completed_read-Settles p c) v
  step-IsMetered o c runs_next_chunk d (v, below) =
      IsMetered-Settles c (get_next_chunk c) (get_next_chunk-Settles c) v
  step-IsMetered o c runs_next_chunked_chunk d (v, below) =
      IsMetered-Settles c (get_next_chunked_chunk c) (get_next_chunked_chunk-Settles c) v
  step-IsMetered o c (writes k e n) d (v, below) =
      IsMetered-Settles c (write_handler k e n c) (write_handler-Settles k e n c) v
  step-IsMetered o c (shakes_hands e) d (v, below) =
      IsMetered-Same c (handle_handshake e c) (handle_handshake-Same e c) (ground (arith, below))
  step-IsMetered o c (disconnect_seen e) d (v, below) = notify_client_disconnect-IsMetered e c v

  start-Same : (count : ℕ) (c : Conn w) → Same c (start count c).1
  unfolding start
  start-Same count c = ground arith

  start-may_go_on :
      (count : ℕ) (c : Conn w) → c.request_count ≡ 0 → may_go_on (start count c).1 ≡ true
  start-may_go_on count c z = let (n, m) = start-Same count c in ground arith

  start-IsLimited :
      (os : List (Operation w.View)) (count : ℕ) (c : Conn w)
      → c.request_count ≡ 0
      → IsLimited os (start count c).1
  start-IsLimited os count c z =
      let below = start-may_go_on count c z in
      (IsMetered-of_may_go_on (start count c).1 below, λ _. below)

  -- Whatever events arrive in whatever order, a connection never counts more requests than
  -- itsMaxKeepAliveRequests, where 0 is no limit; and one that has reached the limit is not persistent,
  -- and has no read outstanding.
  pub Reach-IsMetered :
      {s : Settings} {os : List (Operation w.View)} {c : Conn w}
      → Reach s os c
      → (is_within c ≡ true)
        × (may_go_on c ≡ false → (c.keep_alive ≡ false) × (passes is_read os ≡ false))
  Reach-IsMetered {s} {os} {c} r =
      let (v, below) =
        Reach-induction s IsLimited
          (λ count.
            start-IsLimited (operations (start count (create w s)).1.log) count (create w s) refl)
          handle_timer-IsLimited (λ o c e d h. (step-IsMetered o c e d h, λ due. absurd (cc due)))
          (λ o o' c e d h f a.
            let v = step-IsMetered o c e d h in
            (v, λ due. may_go_on-of_awaits (step e c) v (cc (a, due))))
          r in
      (v.0, λ over. ((v.1 over).0, ground (arith, below)))
