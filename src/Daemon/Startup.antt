-- ===== src/Daemon/Startup.antt =====
-- main/smartmetd.cpp: get_server_threads, and main up to its loop. The option parser and the reactor
-- are parameters: whether they succeed.
use smartmet_server.Server.Construction.{
  Environment, construct, Setup, ok, Outcome, throws, Options,
}
use smartmet_server.Base.{
  ℕ, Bool, true, none, false, not, ltb, some, if◌then◌else◌, is_some, inr, refl, arith, inl,
  Option-cases, ◌&&◌, ◌≡◌,
}
use smartmet_server.Server.Configuration.{Config}
use smartmet_server.Daemon.NewHandler.{NewHandler, set_new_handler}
use smartmet_server.Text.{Bytes, codes}
use smartmet_server.Limits.{value_or}
use smartmet_server.Server.Workers.{thread_count}
use smartmet_server.Server.Readiness.{
  encryption_ready, is_ok, acceptor_ready, memory_log_ready, construct-is_ok,
}

abbrev pub default_async_thread_size : ℕ
default_async_thread_size = 6

abbrev pub at_least_one : ℕ → ℕ
at_least_one n = if ltb n 1 then default_async_thread_size else n

unfoldable pub get_server_threads : Config → ℕ
get_server_threads c =
    if c.exists (codes "server_threads")
    then at_least_one
        (value_or (c.lookup_unsigned (codes "server_threads")) default_async_thread_size)
    else default_async_thread_size

pub data Started (F : Type 0) : Type 0 where
  -- the loop of main, with a server
  runs : NewHandler → ℕ → Setup F → Started F
  exits : ℕ → Started F
  -- the exception is printed, and main returns -1
  fails : Started F

abbrev pub is_running : {F : Type 0} → Started F → Bool
is_running (runs h n s) = true
is_running (exits code) = false
is_running fails = false

abbrev pub server_or_fail : {F : Type 0} → NewHandler → ℕ → Outcome (Setup F) → Started F
server_or_fail h n (ok s) = runs h n s
server_or_fail h n (throws e) = fails

module _ (env : Environment) where
  unfoldable pub start_daemon : Bool → Bytes → Bool → Options → Started env.Filter
  start_daemon parsed handler_name reactor_ready o =
      if not parsed then exits 1 else elim (set_new_handler handler_name) [
        | none ↦ fails
        | some h ↦
            if reactor_ready
            then server_or_fail h (thread_count (get_server_threads o.config)) (construct env o)
            else fails
      ]

  server_or_fail-is_running :
      (h : NewHandler) (n : ℕ) (m : Outcome (Setup env.Filter))
      → is_running (server_or_fail h n m) ≡ is_ok m
  server_or_fail-is_running h n (ok s) = refl
  server_or_fail-is_running h n (throws e) = refl

  -- The daemon comes to its loop exactly when the options parse, the name of the new handler is known,
  -- the reactor starts and the server can be constructed.
  pub start_daemon-is_running :
      (parsed reactor_ready : Bool) (name : Bytes) (o : Options)
      → is_running (start_daemon parsed name reactor_ready o) ≡ (
          parsed
          && (is_some (set_new_handler name)
              && (reactor_ready
                  && (encryption_ready env o
                      && (acceptor_ready env o
                          && (memory_log_ready env o.config
                              && is_some (env.filter_from_config o.config)))))))
  unfolding start_daemon
  start_daemon-is_running parsed reactor_ready name o = elim (Option-cases (set_new_handler name)) [
    | inl unknown ↦ rw unknown (ground arith)
    | inr (h, known) ↦
        let runs =
          server_or_fail-is_running h (thread_count (get_server_threads o.config))
            (construct env o) in
        rw known (ground (arith, runs, construct-is_ok env o))
  ]
