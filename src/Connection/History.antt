-- ===== src/Connection/History.antt =====
-- What no event of a connection changes, over the histories of Session: the configuration, the place in
-- the server's count of connections, that nobody listens for a disconnect, and that a connection which
-- has timed out has closed its socket.
use smartmet_server.World.{
  World, incomplete, request_header_fields_too_large, expectation_failed, failed, Parsed,
  request_entity_too_large, ErrorCode, bad_request, complete, shutdown, cancel_timer, cancel_socket,
}
use smartmet_server.Connection.Timer.{handle_handshake, start, destroy, handle_timer}
use smartmet_server.Connection.Session.{
  Event, runs_next_chunked_chunk, step, Reach, shakes_hands, disconnect_seen, runs_request,
  runs_next_chunk, timer_fires, reads, writes, completes,
}
use smartmet_server.Base.{
  true, arith, ℕ, length, false, drop, ◌+◌, ◌++◌, ◌∙◌, ◌≡◌, Bool, List, some, refl,
}
use smartmet_server.Connection.Request.{
  handle_expect_continue, answer_expect, handle_read, handle_parsed_request, too_large, negotiate,
  wake, receive, take_parsed, too_long, answer_continue, unmet, handle_incomplete_request,
  resolve_ip,
}
use smartmet_server.Connection.State.{
  start_read, create, Conn, Settings, drop_keep_alive, next_generation, emit,
}
use smartmet_server.Utility.Head.{peek_request_head}
use smartmet_server.Text.{Bytes}
use smartmet_server.Connection.Execution.{handle_completed_read, run_plugin}
use smartmet_server.Connection.Steady.{IsSteady, listens, was_closed, is_sealed}
use smartmet_server.Connection.Settling.{
  get_next_chunked_chunk-Settles, get_next_chunk-Settles, send_stock_reply-Ends,
}
use smartmet_server.Connection.SettlingReplies.{
  write_handler-Settles, handle_completed_read-Settles,
}
use smartmet_server.Connection.RequestCount.{dispatch-Ends}
use smartmet_server.Connection.Operations.{Operation, may_follow, passes, listening, operations}
use smartmet_server.Connection.SettlingTimer.{handle_timer-Settles, handle_read_error-Settles}
use smartmet_server.Connection.Sequential.{Reach-induction}

abbrev is_listening : {V : Type 0} → Operation V → Bool
is_listening listening = true
is_listening _ = false

-- Only a read that listens for a disconnect is followed by another one.
may_follow-listening :
    {V : Type 0} (o o' : Operation V)
    → may_follow o o' ≡ true
    → is_listening o ≡ false
    → is_listening o' ≡ false
unfolding may_follow
may_follow-listening o o' f l = ground arith

module _ {w : World} where
  handle_parsed_request-IsSteady : (c : Conn w) → IsSteady c (handle_parsed_request c)
  unfolding handle_parsed_request resolve_ip negotiate listens was_closed
  handle_parsed_request-IsSteady c = ground (arith, dispatch-Ends (negotiate (resolve_ip c).0))

  handle_expect_continue-IsSteady : (c : Conn w) → IsSteady c (handle_expect_continue c).0
  unfolding handle_expect_continue answer_expect answer_continue listens was_closed
  handle_expect_continue-IsSteady c =
      let head = peek_request_head w.lower c.buffer in
      let d = drop_keep_alive (unmet head (record c { expect_handled = true })) in
      ground (arith, send_stock_reply-Ends expectation_failed d)

  handle_incomplete_request-IsSteady : (c : Conn w) → IsSteady c (handle_incomplete_request c)
  unfolding handle_incomplete_request start_read listens was_closed
  handle_incomplete_request-IsSteady c = ground (
    arith,
    handle_expect_continue-IsSteady c,
    send_stock_reply-Ends request_header_fields_too_large (drop_keep_alive (too_long c)),
  )

  take_parsed-IsSteady : (r : Parsed w.Request) (c : Conn w) → IsSteady c (take_parsed r c)
  unfolding take_parsed
  take_parsed-IsSteady (complete q n) c = handle_parsed_request-IsSteady (record c {
    request = q;
    buffer = drop n c.buffer;
    received_bytes = length (drop n c.buffer);
  })
  take_parsed-IsSteady failed c = (send_stock_reply-Ends bad_request c).0.0
  take_parsed-IsSteady incomplete c = handle_incomplete_request-IsSteady c

  receive-IsSteady : (bytes : Bytes) (c : Conn w) → IsSteady c (receive bytes c)
  unfolding receive wake listens was_closed
  receive-IsSteady bytes c =
      let c2 = record (wake c) { received_bytes = (wake c).received_bytes + length bytes } in
      let c3 = record c2 { buffer = c2.buffer ++ bytes } in
      ground (
        arith,
        send_stock_reply-Ends request_entity_too_large (too_large c2),
        take_parsed-IsSteady (w.parse_one_request c3.buffer) c3,
      )

  handle_read-IsSteady :
      (e : ErrorCode) (bytes : Bytes) (c : Conn w) → IsSteady c (handle_read e bytes c)
  unfolding handle_read
  handle_read-IsSteady e bytes c =
      let c1 = record c { final_status = e } in
      ground (
        arith,
        send_stock_reply-Ends shutdown c,
        handle_read_error-Settles e c1,
        receive-IsSteady bytes c1,
      )

  handle_handshake-IsSteady : (e : ErrorCode) (c : Conn w) → IsSteady c (handle_handshake e c)
  unfolding handle_handshake listens was_closed
  handle_handshake-IsSteady e c = ground arith

  -- The events but that of a read which listens for a disconnect.
  step-IsSteady :
      (o : Operation w.View) (c : Conn w) (e : Event w)
      → completes e ≡ some o
      → is_listening o ≡ false
      → IsSteady c (step e c)
  unfolding step completes
  step-IsSteady o c (reads e bytes) d l = handle_read-IsSteady e bytes c
  step-IsSteady o c (timer_fires e g) d l = (handle_timer-Settles e g c).0.0
  step-IsSteady o c (runs_request p) d l = (handle_completed_read-Settles p c).0.0
  step-IsSteady o c runs_next_chunk d l = (get_next_chunk-Settles c).0.0
  step-IsSteady o c runs_next_chunked_chunk d l = (get_next_chunked_chunk-Settles c).0.0
  step-IsSteady o c (writes k e n) d l = (write_handler-Settles k e n c).0.0
  step-IsSteady o c (shakes_hands e) d l = handle_handshake-IsSteady e c
  step-IsSteady o c (disconnect_seen e) d l = absurd (ground (arith, d, l))

  -- The configuration is the one that the connection was accepted with, it is counted, it never learns
  -- of a disconnect, and it has closed its socket if it has timed out.
  pub record IsFaithful (s : Settings) (c : Conn w) : Type 0 where
    pub configured : c.settings ≡ s
    pub is_counted : c.counted ≡ true
    pub unaware : c.prematurely_disconnected ≡ false
    pub deaf : listens c.log ≡ false
    pub sealed : is_sealed c ≡ true

  start-IsFaithful : (s : Settings) (count : ℕ) → IsFaithful s (start count (create w s)).1
  unfolding start listens was_closed
  start-IsFaithful s count = record {
    configured = ground arith;
    is_counted = ground arith;
    unaware = ground arith;
    deaf = ground arith;
    sealed = ground arith;
  }

  IsFaithful-IsSteady :
      (s : Settings) (c d : Conn w) → IsSteady c d → IsFaithful s c → IsFaithful s d
  IsFaithful-IsSteady s c d (k, (n, (p, (l, h)))) v = record {
    configured = k ∙ v.configured;
    is_counted = n ∙ v.is_counted;
    unaware = p ∙ v.unaware;
    deaf = l ∙ v.deaf;
    sealed = h v.sealed;
  }

  -- No read that listens for a disconnect is outstanding.
  abbrev IsDeaf : Settings → List (Operation w.View) → Conn w → Type 0
  IsDeaf s os c = IsFaithful s c × (passes is_listening os ≡ false)

  -- Whatever events arrive in whatever order: a connection keeps the configuration that it was accepted
  -- with and stays counted, one that has timed out has closed its socket, no code ever starts a read
  -- that listens for a disconnect of the client, and so itsPrematurelyDisconnected is never set.
  pub Reach-IsFaithful :
      {s : Settings} {os : List (Operation w.View)} {c : Conn w} → Reach s os c → IsFaithful s c
  unfolding start operations
  Reach-IsFaithful {s} r =
      (Reach-induction s (IsDeaf s) (λ count. (start-IsFaithful s count, ground arith))
        (λ os c e g (v, l).
          (IsFaithful-IsSteady s c (handle_timer e g c) (handle_timer-Settles e g c).0.0 v, l))
        (λ o c e d (v, l). (IsFaithful-IsSteady s c (step e c) (step-IsSteady o c e d l) v, refl))
        (λ o o' c e d (v, l) f a. (
          IsFaithful-IsSteady s c (step e c) (step-IsSteady o c e d l) v,
          may_follow-listening o o' f l,
        ))
        r).0

  -- Hence, in each reachable state, a request that a thread pool runs is given to its plugin, whatever
  -- the client did meanwhile; and the destructor leaves the socket closed, and takes back from the server's count
  -- exactly the one that start has added.
  pub Reach-completes :
      {s : Settings} {os : List (Operation w.View)} {c : Conn w}
      → Reach s os c
      → (v : w.View) (shut_down : Bool) (count : ℕ)
      → (handle_completed_read v c
          ≡ run_plugin v (
              emit cancel_socket (
                emit cancel_timer
                  (record c { timer_generation = next_generation c.timer_generation }))))
        × (was_closed (destroy shut_down count c).1.log ≡ true)
        × ((destroy shut_down (start count (create w s)).0 c).0 ≡ count)
  unfolding handle_completed_read destroy start was_closed
  Reach-completes {c} r v shut_down count =
      let f = Reach-IsFaithful r in
      (ground (arith, f.unaware), ground (arith, f.sealed), ground (arith, f.is_counted))
