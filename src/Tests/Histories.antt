-- ===== src/Tests/Histories.antt =====
-- The properties of the histories of a connection at concrete inputs, in the small world of Demo.
use smartmet_server.Server.Fleet.{
  empty, accepts, progresses, loses, Fleet, accept_socket, admit_socket, drop_connection,
}
use smartmet_server.Connection.Operations.{Starts, operations, is_read, passes, reading, IsStill}
use smartmet_server.Connection.Timer.{start, destroy}
use smartmet_server.Connection.Session.{
  after, accepted, step, started_since, completes, reads, additions,
}
use smartmet_server.Demo.{demo_settings, fresh, demo}
use smartmet_server.Base.{true, length, [], false, refl, ◌≤◌, ◌≡◌, ◌++◌, ◌∷◌, some, ◌⊎◌}
use smartmet_server.Connection.State.{create, next_generation, emit, start_read, Conn, Settings}
use smartmet_server.Connection.Protocol.{step-Starts, allowed}
use smartmet_server.Text.{starts_with, codes, find, first_match, contains}
use smartmet_server.Connection.Request.{
  handle_incomplete_request, wake, take_parsed, handle_read, handle_expect_continue, receive,
}
use smartmet_server.Connection.RequestCount.{may_go_on, is_within}
use smartmet_server.World.{cancel_socket, cancel_timer, success, is_error, close_socket}
use smartmet_server.Connection.Persistence.{Reach-IsQuiet}
use smartmet_server.Connection.Execution.{run_plugin, handle_completed_read}
use smartmet_server.Connection.History.{IsFaithful, Reach-completes, Reach-IsFaithful}
use smartmet_server.Connection.RequestBound.{Reach-IsMetered}
use smartmet_server.Utility.Head.{peek_request_head}
use smartmet_server.Connection.Sequential.{Reach-sequential}
use smartmet_server.Server.Accept.{ends_connection, is_full, accepts_socket, IsCounted}
use smartmet_server.Server.FleetSteps.{Grows-refines, IsInStep}
use smartmet_server.Tests.Servers.{idle_server}
use smartmet_server.Connection.Steady.{was_closed}
use smartmet_server.Connection.Pipelining.{takes}
use smartmet_server.Connection.RefusedRead.{Reach-refused}
use smartmet_server.Connection.Timeout.{newest}

abbrev pub started : Conn demo
unfolding start
started = (start 0 fresh).1

Reach-IsQuiet_example : (step (reads success (codes "he")) started).keep_alive ≡ false
unfolding started started_since additions operations completes step handle_read receive wake
    take_parsed handle_incomplete_request handle_expect_continue peek_request_head find first_match
    starts_with contains start_read
Reach-IsQuiet_example =
    Reach-IsQuiet {s = demo_settings} {c = step (reads success (codes "he")) started}
      (after (accepted 0) (reads success (codes "he")) [] [] refl) refl

Reach-IsMetered_example :
    (is_within (step (reads success (codes "GET")) started) ≡ true)
    × (may_go_on (step (reads success (codes "GET")) started) ≡ false
        → ((step (reads success (codes "GET")) started).keep_alive ≡ false)
          × (passes is_read
                (started_since started (step (reads success (codes "GET")) started) ++ [] ++ [])
              ≡ false))
unfolding started operations completes
Reach-IsMetered_example =
    Reach-IsMetered {s = demo_settings} {c = step (reads success (codes "GET")) started}
      (after (accepted 0) (reads success (codes "GET")) [] [] refl)

Reach-IsFaithful_example : IsFaithful demo_settings (step (reads success (codes "GET")) started)
unfolding started operations completes
Reach-IsFaithful_example =
    Reach-IsFaithful {s = demo_settings} {c = step (reads success (codes "GET")) started}
      (after (accepted 0) (reads success (codes "GET")) [] [] refl)

abbrev begun : Conn demo
unfolding started step
begun = step (reads success (codes "GET")) started

Reach-completes_example :
    (handle_completed_read tt begun
      ≡ run_plugin tt (
          emit cancel_socket (
            emit cancel_timer
              (record begun { timer_generation = next_generation begun.timer_generation }))))
    × (was_closed (destroy false 3 begun).1.log ≡ true)
    × ((destroy false (start 3 (create demo demo_settings)).0 begun).0 ≡ 3)
unfolding started operations completes begun
Reach-completes_example =
    Reach-completes {s = demo_settings} {c = step (reads success (codes "GET")) started}
      (after (accepted 0) (reads success (codes "GET")) [] [] refl) tt false 3

Reach-sequential_example : length (started_since started begun ++ [] ++ []) ≤ 1
unfolding started operations completes begun
Reach-sequential_example =
    Reach-sequential {s = demo_settings} {c = begun}
      (after (accepted 0) (reads success (codes "GET")) [] [] refl)

step-Starts_example : Starts (allowed {w = demo} (reads success (codes "GET"))) started begun
unfolding begun
step-Starts_example = step-Starts (reads success (codes "GET")) started

-- A server with one connection, before and after its first read.
abbrev one_connection : Fleet demo
one_connection = accept_socket false demo_settings (record { server = idle_server; live = [] })

abbrev one_request : Fleet demo
one_request = record one_connection { live = (started_since started begun ++ [] ++ [], begun) ∷ [] }

Grows-refines_example :
    IsInStep demo_settings idle_server
      (accepts_socket false ∷ ends_connection ∷ [])
      (drop_connection begun [] one_request)
    × IsCounted (drop_connection begun [] one_request).server
unfolding accept_socket admit_socket is_full started operations completes begun
Grows-refines_example =
    Grows-refines
      (loses
        (progresses (accepts empty false) [] [] (reading ∷ []) [] [] started
          (reads success (codes "GET")) refl refl)
        [] [] (started_since started begun ++ [] ++ []) begun refl)
      refl refl

-- A client that sends more than itsMaxRequestSize in its first read.
abbrev small_limit : Settings
small_limit = record demo_settings { max_request_size = 2 }

abbrev limited : Conn demo
unfolding start
limited = (start 0 (create demo small_limit)).1

Reach-refused_example :
    let d = step (reads success (codes "GET")) limited in
    IsStill limited d
    × ((newest d.log ≡ some close_socket) ⊎ (is_error success ≡ true))
    × (d.buffer ≡ [])
unfolding start takes operations
Reach-refused_example =
    Reach-refused {s = small_limit} {c = limited} success (codes "GET") (accepted 0) refl refl
