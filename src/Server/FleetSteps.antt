-- ===== src/Server/FleetSteps.antt =====
-- The accept loop with its connections (Fleet) keeps in step with the one that counts them (Accept).

use smartmet_server.Connection.Session.{accepted, after, step, started_since, Reach}
use smartmet_server.Server.Fleet.{
  empty, accepts, progresses, loses, stops, admit_socket, refuse_socket, accept_socket, Grows,
  drop_connection, Fleet,
}
use smartmet_server.Server.Accept.{
  server_run, Server, IsCounted, handle_accept, reject, ends_connection, requests_shutdown,
  accepts_socket, start_accept, admit, connection_ends, is_full, ServerEvent, server_run-IsCounted,
  server_step,
}
use smartmet_server.World.{World, http_1_0, service_unavailable}
use smartmet_server.Connection.State.{Settings, Conn, create}
use smartmet_server.Base.{
  length, not, [], false, sym, ℕ, Bool, length-append, arith, true, ap, List, refl, ◌∙◌, ◌++◌, ◌≡◌,
  ◌&&◌, ◌∷◌, if◌then◌else◌,
}
use smartmet_server.Connection.History.{Reach-IsFaithful}
use smartmet_server.Connection.Operations.{Operation, operations}
use smartmet_server.Connection.Timer.{destroy, start}
use smartmet_server.Connection.Settling.{send_stock_reply-Ends}
use smartmet_server.Connection.Reply.{reject_connection}

server_run-append :
    (es : List ServerEvent) (e : ServerEvent) (t : Server)
    → server_run (es ++ e ∷ []) t ≡ server_step e (server_run es t)
unfolding server_run
server_run-append [] e t = refl
server_run-append (x ∷ es) e t = server_run-append es e (server_step x t)

module _ {w : World} where
  -- Each connection has its history.
  abbrev pub HasHistories : Settings → List (List (Operation w.View) × Conn w) → Type 0
  HasHistories s [] = Unit
  HasHistories s (x ∷ xs) = Reach s x.0 x.1 × HasHistories s xs

  HasHistories-middle :
      (s : Settings) (ahead behind : List (List (Operation w.View) × Conn w))
      (x : List (Operation w.View) × Conn w)
      → HasHistories s (ahead ++ x ∷ behind)
      → Reach s x.0 x.1 × HasHistories s (ahead ++ behind)
  HasHistories-middle s [] behind x h = h
  HasHistories-middle s (y ∷ ahead) behind x (r, h) =
      let (q, k) = HasHistories-middle s ahead behind x h in (q, (r, k))

  HasHistories-insert :
      (s : Settings) (ahead behind : List (List (Operation w.View) × Conn w))
      (x : List (Operation w.View) × Conn w)
      → Reach s x.0 x.1
      → HasHistories s (ahead ++ behind)
      → HasHistories s (ahead ++ x ∷ behind)
  HasHistories-insert s [] behind x q h = (q, h)
  HasHistories-insert s (y ∷ ahead) behind x q (r, h) =
      (r, HasHistories-insert s ahead behind x q h)

  reject_connection-counted : (c : Conn w) → (reject_connection c).counted ≡ c.counted
  unfolding reject_connection
  reject_connection-counted c =
      (send_stock_reply-Ends service_unavailable
        (record c { keep_alive = false; response_version = http_1_0 })).0.0.1.0

  accept_socket-server :
      (in_error : Bool) (s : Settings) (f : Fleet w)
      → (accept_socket in_error s f).server ≡ handle_accept in_error f.server
  unfolding accept_socket refuse_socket admit_socket handle_accept destroy start
  accept_socket-server in_error s f = ground (arith, reject_connection-counted (create w s))

  -- The server and the list of connections agree.
  pub record IsInStep (s : Settings) (t : Server) (es : List ServerEvent) (f : Fleet w)
      : Type 0 where
    pub refined : f.server ≡ server_run es t
    pub counted : f.server.open_connections ≡ length f.live
    pub exact : f.server.connection_count ≡ length f.live
    pub histories : HasHistories s f.live

  -- The list of connections after an accept.
  admits : Bool → Fleet w → Bool
  admits in_error f = not f.server.shutdown_requested && (not in_error && not (is_full f.server))

  abbrev newcomer : ℕ → Settings → List (Operation w.View) × Conn w
  newcomer count s = (operations (start count (create w s)).1.log, (start count (create w s)).1)

  accept_socket-live :
      (in_error : Bool) (s : Settings) (f : Fleet w)
      → (accept_socket in_error s f).live
        ≡ (if admits in_error f then newcomer f.server.connection_count s ∷ f.live else f.live)
  unfolding accept_socket refuse_socket admit_socket admits
  accept_socket-live in_error s f = ground arith

  HasHistories-if :
      (b : Bool) (s : Settings) (x : List (Operation w.View) × Conn w)
      (xs : List (List (Operation w.View) × Conn w))
      → Reach s x.0 x.1
      → HasHistories s xs
      → HasHistories s (if b then x ∷ xs else xs)
  HasHistories-if true s x xs r h = (r, h)
  HasHistories-if false s x xs r h = h

  accept_socket-histories :
      (in_error : Bool) (s : Settings) (f : Fleet w)
      → HasHistories s f.live
      → HasHistories s (accept_socket in_error s f).live
  accept_socket-histories in_error s f h = rw (accept_socket-live in_error s f) (
      HasHistories-if (admits in_error f) s (newcomer f.server.connection_count s) f.live
        (accepted f.server.connection_count) h)

  accept_socket-length :
      (in_error : Bool) (s : Settings) (f : Fleet w)
      → f.server.open_connections ≡ length f.live
      → f.server.connection_count ≡ length f.live
      → ((accept_socket in_error s f).server.open_connections
          ≡ length (accept_socket in_error s f).live)
        × ((accept_socket in_error s f).server.connection_count
            ≡ length (accept_socket in_error s f).live)
  unfolding accept_socket refuse_socket admit_socket destroy start start_accept reject admit
  accept_socket-length in_error s f o e = ground (arith, reject_connection-counted (create w s))

  accept_socket-IsInStep :
      (s : Settings) (t : Server) (es : List ServerEvent) (f : Fleet w) (in_error : Bool)
      → IsInStep s t es f
      → IsInStep s t (es ++ accepts_socket in_error ∷ []) (accept_socket in_error s f)
  unfolding server_step
  accept_socket-IsInStep s t es f in_error v =
      let (o, e) = accept_socket-length in_error s f v.counted v.exact in
      record {
        refined =
            accept_socket-server in_error s f
            ∙ (ap (handle_accept in_error) v.refined
                ∙ sym (server_run-append es (accepts_socket in_error) t));
        counted = o;
        exact = e;
        histories = accept_socket-histories in_error s f v.histories;
      }

  -- The destructor of a live connection takes it from the count.
  drop_connection-IsInStep :
      (s : Settings) (t : Server) (es : List ServerEvent) (f : Fleet w)
      (ahead behind : List (List (Operation w.View) × Conn w)) (os : List (Operation w.View))
      (c : Conn w)
      → f.live ≡ ahead ++ (os, c) ∷ behind
      → IsInStep s t es f
      → IsInStep s t (es ++ ends_connection ∷ []) (drop_connection c (ahead ++ behind) f)
  unfolding server_step drop_connection destroy connection_ends
  drop_connection-IsInStep s t es f ahead behind os c q v =
      let (r, h) = HasHistories-middle s ahead behind (os, c) (rw q at v.histories) in
      let is_counted = (Reach-IsFaithful r).is_counted in
      let long = ap length q ∙ length-append ahead ((os, c) ∷ behind) in
      let short = length-append ahead behind in
      let same : (drop_connection c (ahead ++ behind) f).server ≡ connection_ends f.server =
        ground (arith, is_counted, long, v.counted) in
      record {
        refined =
            same ∙ (ap connection_ends v.refined ∙ sym (server_run-append es ends_connection t));
        counted = ground (arith, long, short, v.counted);
        exact = ground (arith, long, short, v.exact, is_counted);
        histories = h;
      }

  progress-IsInStep :
      (s : Settings) (t : Server) (es : List ServerEvent) (f : Fleet w)
      (ahead behind : List (List (Operation w.View) × Conn w))
      (x y : List (Operation w.View) × Conn w)
      → f.live ≡ ahead ++ x ∷ behind
      → (Reach s x.0 x.1 → Reach s y.0 y.1)
      → IsInStep s t es f
      → IsInStep s t es (record f { live = ahead ++ y ∷ behind })
  progress-IsInStep s t es f ahead behind x y q goes v =
      let (r, h) = HasHistories-middle s ahead behind x (rw q at v.histories) in
      let long =
        ap length q ∙ (length-append ahead (x ∷ behind) ∙ sym (length-append ahead (y ∷ behind))) in
      record {
        refined = v.refined;
        counted = v.counted ∙ long;
        exact = v.exact ∙ long;
        histories = HasHistories-insert s ahead behind y (goes r) h;
      }

  Grows-IsInStep :
      {s : Settings} {t : Server} {es : List ServerEvent} {f : Fleet w}
      → Grows s t es f
      → t.open_connections ≡ 0
      → t.connection_count ≡ 0
      → IsInStep s t es f
  unfolding server_run server_step
  Grows-IsInStep empty o e = record { refined = refl; counted = o; exact = e; histories = tt }
  Grows-IsInStep {s} {t} (accepts {es} {f} g in_error) o e =
      accept_socket-IsInStep s t es f in_error (Grows-IsInStep g o e)
  Grows-IsInStep {s} {t} (progresses {es} {f} g ahead behind os before rest c x q p) o e =
      progress-IsInStep s t es f ahead behind (os, c)
        (started_since c (step x c) ++ before ++ rest, step x c) q (λ r. after r x before rest p)
        (Grows-IsInStep g o e)
  Grows-IsInStep {s} {t} (loses {es} {f} g ahead behind os c q) o e =
      drop_connection-IsInStep s t es f ahead behind os c q (Grows-IsInStep g o e)
  Grows-IsInStep {s} {t} (stops {es} {f} g) o e =
      let v = Grows-IsInStep g o e in
      record {
        refined =
            ap (server_step requests_shutdown) v.refined
            ∙ sym (server_run-append es requests_shutdown t);
        counted = v.counted;
        exact = v.exact;
        histories = v.histories;
      }

  -- However sockets arrive, connections go on and end, and a shutdown comes: the server that starts,
  -- refuses and destroys real connections is, event by event, the one that Accept describes; its count
  -- is the number of the live connections, and never passes a positive limit; and each of them has a
  -- history of its own.
  pub Grows-refines :
      {s : Settings} {t : Server} {es : List ServerEvent} {f : Fleet w}
      → Grows s t es f
      → t.open_connections ≡ 0
      → t.connection_count ≡ 0
      → IsInStep s t es f × IsCounted f.server
  Grows-refines {s} {t} {es} {f} g o e =
      let v = Grows-IsInStep g o e in
      let c =
        server_run-IsCounted es t (record { exact = e ∙ sym o; within = λ h. omega (arith, e) }) in
      (v, rw v.refined c)
