-- ===== src/Server/Accept.antt =====
-- source/AsyncServer.cpp: handleAccept and startAccept, with the counter of source/Connection.cpp, and
-- source/Server.cpp: defaultMaxConnections. A connection is known by whether `start` counted it.
-- The soft limit of RLIMIT_NOFILE; `none` where getrlimit fails or the limit is infinite. The product
-- is one of std::size_t.
use smartmet_server.Base.{
  Bool, true, max, zero, suc, [], leb, ltb, none, List, arith, ℕ, refl, false, some, Option, ◌∷◌,
  ◌≤◌, ◌≡◌, ◌<◌, ◌==◌, ◌*◌, ◌-◌, ◌%◌, ◌^◌, ◌/◌, ◌+◌, ◌&&◌, if◌then◌else◌,
}

unfoldable pub default_max_connections : Option ℕ → ℕ
default_max_connections none = 4000
default_max_connections (some soft) = max ((soft * 3) % 2 ^ 64 / 4) 64

pub record Server : Type 0 where
  pub shutdown_requested : Bool
  pub max_connections : ℕ
  pub connection_count : ℕ
  pub limit_reported : Bool
  -- the connections that were started and not yet destroyed
  pub open_connections : ℕ
  -- the lines on standard output about the limit
  pub reports : ℕ
  pub rejected : ℕ
  pub accepting : Bool

unfoldable pub start_accept : Server → Server
start_accept s =
    if s.shutdown_requested then record s { accepting = false } else record s { accepting = true }

unfoldable pub is_full : Server → Bool
is_full s = ltb 0 s.max_connections && leb s.max_connections s.connection_count

-- `rejectConnection`: the connection was not counted.
unfoldable pub reject : Server → Server
reject s = record s {
  limit_reported = true;
  reports = if s.limit_reported then s.reports else s.reports + 1;
  rejected = s.rejected + 1;
}

-- `start`, whose registerConnection counts the connection.
unfoldable pub admit : Server → Server
admit s = record s {
  limit_reported = false;
  connection_count = s.connection_count + 1;
  open_connections = s.open_connections + 1;
}

unfoldable pub handle_accept : Bool → Server → Server
unfolding start_accept is_full reject admit
handle_accept in_error s =
    if s.shutdown_requested
    then record s { accepting = false }
    else if in_error
    then start_accept s
    else start_accept (if is_full s then reject s else admit s)

-- The destructor of a counted connection.
unfoldable pub connection_ends : Server → Server
connection_ends s = if s.open_connections == 0 then s else record s {
  connection_count = s.connection_count - 1;
  open_connections = s.open_connections - 1;
}

pub data ServerEvent : Type 0 where
  accepts_socket : Bool → ServerEvent
  ends_connection requests_shutdown : ServerEvent

unfoldable pub server_step : ServerEvent → Server → Server
unfolding handle_accept connection_ends
server_step (accepts_socket in_error) s = handle_accept in_error s
server_step ends_connection s = connection_ends s
server_step requests_shutdown s = record s { shutdown_requested = true }

unfoldable pub server_run : List ServerEvent → Server → Server
server_run [] s = s
server_run (e ∷ es) s = server_run es (server_step e s)

-- The counter counts the open connections, and stays within the limit if there is one.
pub record IsCounted (s : Server) : Type 0 where
  pub exact : s.connection_count ≡ s.open_connections
  pub within : 0 < s.max_connections → s.connection_count ≤ s.max_connections

server_step-IsCounted : (e : ServerEvent) (s : Server) → IsCounted s → IsCounted (server_step e s)
unfolding server_step
server_step-IsCounted (accepts_socket in_error) s v = ground arith
server_step-IsCounted ends_connection s v = ground arith
server_step-IsCounted requests_shutdown s v = ground arith

-- Over any history of accepts, ends of connections and a shutdown the counter is the number of
-- connections that were started and not yet destroyed, and it never passes a positive limit.
pub server_run-IsCounted :
    (es : List ServerEvent) (s : Server) → IsCounted s → IsCounted (server_run es s)
unfolding server_run
server_run-IsCounted [] s v = v
server_run-IsCounted (e ∷ es) s v =
    server_run-IsCounted es (server_step e s) (server_step-IsCounted e s v)

-- Sockets that arrive while the limit is reached are all refused, with one line of report at most.
abbrev pub arrivals : ℕ → List ServerEvent
arrivals zero = []
arrivals (suc n) = accepts_socket false ∷ arrivals n

refused_run :
    (n : ℕ) (s : Server)
    → s.shutdown_requested ≡ false
    → is_full s ≡ true
    → s.limit_reported ≡ true
    → let t = server_run (arrivals n) s in
      (t.rejected ≡ s.rejected + n)
      × (t.reports ≡ s.reports)
      × (t.connection_count ≡ s.connection_count)
unfolding server_run server_step
refused_run zero s d f r = (omega arith, refl, refl)
refused_run (suc n) s d f r = ground (arith, refused_run n (server_step (accepts_socket false) s))

-- While the limit is reached every further socket is refused, none is counted, and one report at most
-- is written for the whole episode.
pub arrivals-refused :
    (n : ℕ) (s : Server)
    → s.shutdown_requested ≡ false
    → is_full s ≡ true
    → let t = server_run (arrivals n) s in
      (t.rejected ≡ s.rejected + n)
      × (t.reports ≤ s.reports + 1)
      × (t.connection_count ≡ s.connection_count)
unfolding server_run server_step
arrivals-refused zero s d f = (omega arith, omega arith, refl)
arrivals-refused (suc n) s d f =
    ground (arith, refused_run n (server_step (accepts_socket false) s))
