-- ===== src/LoadTest/Run.antt =====
-- loadtest/Tester.cpp: the class Tester from its constructor to the end of run, with the threads of its
-- pool, its timer and its signals as events, and main. The options parser, the file system and the
-- network are parameters.
use smartmet_server.Base.{
  ℕ, Bool, List, [], none, Option, some, not, ltb, false, suc, zero, get_elem?, ◌++◌, ◌∷◌,
  if◌then◌else◌, leb, ◌&&◌,
}
use smartmet_server.Text.{Bytes, codes}
use smartmet_server.LoadTest.Requests.{
  perform_request, Interrupted, handle_tester_signal, read_req_file, Result, TesterSignal, Request,
  Network,
}
use smartmet_server.LoadTest.Progress.{
  progress_step, Progress, timer_expires, add_result, begin_progress,
}
use smartmet_server.World.{ErrorCode}

pub record Tester : Type 0 where
  -- the tasks of the pool that no thread has taken
  pub queue : List Request
  -- those that the threads work on
  pub running : List Request
  pub progress : Progress
  pub interrupted : Interrupted

abbrev pub no_interrupt : Interrupted
no_interrupt = record { io_stopped = false; pool_shut_down = false; print_results = false }

-- The constructor, for a request file that exists: a task for each request, in the shuffled order. The
-- timer is armed by `run`.
abbrev pub create_tester : (List Request → List Request) → Bytes → ℕ → Option Bytes → Tester
create_tester shuffle host port content = record {
  queue = read_req_file shuffle host port content;
  running = [];
  progress = begin_progress;
  interrupted = no_interrupt;
}

pub data TesterEvent : Type 0 where
  -- a thread of the pool takes the oldest task
  takes_task : TesterEvent
  -- the thread that works on the request at a position ends its task
  ends_task : ℕ → Network → TesterEvent
  timer_ends : ErrorCode → TesterEvent
  signals : TesterSignal → TesterEvent

abbrev pub erase_at : List Request → ℕ → List Request
erase_at [] i = []
erase_at (q ∷ qs) zero = qs
erase_at (q ∷ qs) (suc i) = q ∷ erase_at qs i

abbrev pub take_task : List Request → Tester → Tester
take_task [] d = d
take_task (q ∷ qs) d = record d { queue = qs; running = d.running ++ q ∷ [] }

unfoldable pub end_task : ℕ → Network → Tester → Tester
unfolding perform_request
end_task i net d = elim (get_elem? d.running i) [
  | none ↦ d
  | some q ↦ record d {
    running = erase_at d.running i;
    progress = add_result (perform_request net q) d.progress;
  }
]

-- The io context runs the handlers of the timer and of the one wait for a signal, until it is stopped.
unfoldable pub tester_step : TesterEvent → Tester → Tester
unfolding end_task handle_tester_signal progress_step
tester_step takes_task d = take_task d.queue d
tester_step (ends_task i net) d = end_task i net d
tester_step (timer_ends e) d =
    if d.interrupted.io_stopped
    then d
    else record d { progress = progress_step (timer_expires e) d.progress }
tester_step (signals s) d =
    if d.interrupted.io_stopped
    then d
    else record d { interrupted = handle_tester_signal s d.interrupted }

unfoldable pub tester_run : List TesterEvent → Tester → Tester
tester_run [] d = d
tester_run (e ∷ es) d = tester_run es (tester_step e d)

pub record TesterOptions : Type 0 where
  pub help : Bool
  pub host : Bytes
  pub port : ℕ
  pub suite : Option Bytes
  -- seconds, 0 for no limit
  pub timeout : ℕ

-- What the program prints and calls, in order.
pub data TesterCall : Type 0 where
  prints_usage asks_for_suite probes probed : TesterCall
  sets_alarm : ℕ → TesterCall
  runs_pool concludes : TesterCall
  prints_results : List Result → TesterCall

pub data TesterEnd : Type 0 where
  returns_code : ℕ → TesterEnd
  -- an exception that nothing catches
  uncaught : TesterEnd

-- The connection of the probe: `received` bytes come before its end.
pub record Probe : Type 0 where
  pub connects : Bool
  pub sends : Bytes → Bool
  pub received : ℕ

-- A read of less than eight bytes throws, as does what fails before it.
unfoldable pub probe_remote : Probe → Bool
probe_remote p = p.connects && (p.sends (codes "GET / HTTP/1.0\r\n\r\n") && leb 8 p.received)

pub record TesterWorld : Type 0 where
  pub exists : Bytes → Bool
  -- `none` for a file that cannot be opened
  pub content : Bytes → Option Bytes
  pub shuffle : List Request → List Request
  pub probe : Bytes → ℕ → Probe
  -- what happens until the pool is joined
  pub events : List TesterEvent

abbrev pub alarm_calls : ℕ → List TesterCall
alarm_calls timeout = if ltb 0 timeout then sets_alarm timeout ∷ [] else []

abbrev pub result_calls : Tester → List TesterCall
result_calls d = if d.interrupted.print_results then prints_results d.progress.results ∷ [] else []

unfoldable pub run_suite : TesterWorld → TesterOptions → Bytes → List TesterCall × TesterEnd
unfolding tester_run tester_step
run_suite w o file =
    let d = tester_run w.events (create_tester w.shuffle o.host o.port (w.content file)) in
    if not (w.exists file)
    then ([], uncaught)
    else if not (probe_remote (w.probe o.host o.port))
    then (probes ∷ [], uncaught)
    else (
      probes
          ∷ probed
          ∷ (alarm_calls o.timeout ++ (runs_pool ∷ (result_calls d ++ (concludes ∷ [])))),
      returns_code 0,
    )

unfoldable pub tester_main : TesterWorld → TesterOptions → List TesterCall × TesterEnd
unfolding run_suite
tester_main w o = if o.help then (prints_usage ∷ [], returns_code 1) else elim o.suite [
  | none ↦ (asks_for_suite ∷ prints_usage ∷ [], returns_code 1)
  | some file ↦ run_suite w o file
]
