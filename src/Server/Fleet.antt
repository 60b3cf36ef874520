-- ===== src/Server/Fleet.antt =====
-- source/AsyncServer.cpp with source/AsyncConnection.cpp: the accept loop together with the connections
-- that it starts, each with a history of its own, against the accept loop of Accept, which only
-- counts them.
use smartmet_server.World.{World}
use smartmet_server.Server.Accept.{
  start_accept, reject, is_full, ends_connection, ServerEvent, Server, requests_shutdown, admit,
  accepts_socket,
}
use smartmet_server.Base.{List, false, [], Bool, true, ◌++◌, ◌-◌, ◌≡◌, ◌∷◌, if◌then◌else◌}
use smartmet_server.Connection.Session.{completes, Event, step, started_since, and_then}
use smartmet_server.Connection.Reply.{reject_connection}
use smartmet_server.Connection.Timer.{destroy, start}
use smartmet_server.Connection.Operations.{operations, Operation}
use smartmet_server.Connection.State.{Conn, create, Settings}

-- The server and its live connections, each with the operations that are outstanding.
pub record Fleet (w : World) : Type 0 where
  pub server : Server
  pub live : List (List (Operation w.View) × Conn w)

module _ {w : World} where
  -- A refused connection is destroyed when startAccept makes the next one.
  unfoldable pub refuse_socket : Settings → Fleet w → Fleet w
  refuse_socket s f =
      let c = reject_connection (create w s) in
      let n = (destroy f.server.shutdown_requested f.server.connection_count c).0 in
      record f { server = start_accept (record (reject f.server) { connection_count = n }) }

  unfoldable pub admit_socket : Settings → Fleet w → Fleet w
  admit_socket s f =
      let (n, c) = start f.server.connection_count (create w s) in
      record f {
        server = start_accept (record (admit f.server) { connection_count = n });
        live = (operations c.log, c) ∷ f.live;
      }

  unfoldable pub accept_socket : Bool → Settings → Fleet w → Fleet w
  accept_socket in_error s f =
      if f.server.shutdown_requested
      then record f { server = record f.server { accepting = false } }
      else if in_error
      then record f { server = start_accept f.server }
      else if is_full f.server
      then refuse_socket s f
      else admit_socket s f

  -- The end of one of the connections; `others` are left.
  unfoldable pub drop_connection :
      Conn w → List (List (Operation w.View) × Conn w) → Fleet w → Fleet w
  drop_connection c others f =
      let n = (destroy f.server.shutdown_requested f.server.connection_count c).0 in
      let s = f.server in
      record f {
        server = record s { connection_count = n; open_connections = s.open_connections - 1 };
        live = others;
      }

  -- The states of a server that begins with `t` and no connection, and the events that Accept sees.
  pub data Grows (s : Settings) (t : Server) : List ServerEvent → Fleet w → Type 0 where
    empty : Grows s t [] (record { server = t; live = [] })
    accepts :
        {es : List ServerEvent} {f : Fleet w}
        → Grows s t es f
        → (in_error : Bool)
        → Grows s t (es ++ accepts_socket in_error ∷ []) (accept_socket in_error s f)
    progresses :
        {es : List ServerEvent} {f : Fleet w}
        → Grows s t es f
        → (ahead behind : List (List (Operation w.View) × Conn w))
          (os before rest : List (Operation w.View)) (c : Conn w) (e : Event w)
        → f.live ≡ ahead ++ (os, c) ∷ behind
        → os ≡ before ++ and_then (completes e) rest
        → Grows s t es (record f {
          live = ahead ++ (started_since c (step e c) ++ before ++ rest, step e c) ∷ behind;
        })
    loses :
        {es : List ServerEvent} {f : Fleet w}
        → Grows s t es f
        → (ahead behind : List (List (Operation w.View) × Conn w)) (os : List (Operation w.View))
          (c : Conn w)
        → f.live ≡ ahead ++ (os, c) ∷ behind
        → Grows s t (es ++ ends_connection ∷ []) (drop_connection c (ahead ++ behind) f)
    stops :
        {es : List ServerEvent} {f : Fleet w}
        → Grows s t es f
        → Grows s t
            (es ++ requests_shutdown ∷ [])
            (record f { server = record f.server { shutdown_requested = true } })
