-- ===== src/Daemon/Signals.antt =====
-- main/smartmetd.cpp: signal_handler, handle_signal and the loop of main, with the signals that arrive
-- in between. The loop reads last_signal once in a round, and writes it when it has handled the value.
use smartmet_server.Base.{
  Bool, some, if◌then◌else◌, List, ℕ, Option, none, [], is_some, ◌≡◌, ◌∷◌, inl, Option-cases, arith,
  ap, true, false, inr, ◌∙◌, refl,
}

pub data Signal : Type 0 where
  sigbus sigwinch sigterm sighup sigint : Signal
  other_signal : ℕ → Signal

pub data DaemonCall : Type 0 where
  stop_tasks shutdown_server wait_for_tasks : DaemonCall
  start_shutdown_timer cancel_shutdown_timer : DaemonCall

pub record Daemon : Type 0 where
  -- `none` is 0
  pub last_signal : Option Signal
  -- the value that the loop has read and not yet handled
  pub observed : Option Signal
  pub exit_code : Option ℕ
  -- the calls, newest first
  pub calls : List DaemonCall

-- `stop_server`
abbrev pub stop_calls : List DaemonCall → List DaemonCall
stop_calls log = wait_for_tasks ∷ shutdown_server ∷ stop_tasks ∷ log

unfoldable pub stop_server : ℕ → Daemon → Daemon
stop_server code d = record d { exit_code = some code; calls = stop_calls d.calls }

unfoldable pub handle_signal : Signal → Daemon → Daemon
unfolding stop_server
handle_signal sigbus d = record d { last_signal = none }
handle_signal sigwinch d = record d { last_signal = none }
handle_signal sigterm d = stop_server 0 d
handle_signal sighup d = stop_server 0 d
handle_signal sigint d = record d {
  last_signal = none;
  exit_code = some 0;
  calls = cancel_shutdown_timer ∷ stop_calls (start_shutdown_timer ∷ d.calls);
}
handle_signal (other_signal n) d = stop_server 1 d

-- The first half of a round: last_signal is read, and the reactor may have shut down by itself.
unfoldable pub observe : Bool → Daemon → Daemon
unfolding stop_server
observe finished d = if finished then stop_server 0 d else record d { observed = d.last_signal }

-- The second half.
unfoldable pub react : Daemon → Daemon
unfolding handle_signal
react d = elim d.observed [ none ↦ d | some sig ↦ handle_signal sig (record d { observed = none }) ]

pub data DaemonEvent : Type 0 where
  receives : Signal → DaemonEvent
  observes : Bool → DaemonEvent
  reacts fails_task : DaemonEvent

-- `fails_task` is what tasks->handle_finished does with a task that has failed, before a round reads
-- last_signal: it calls the function of on_task_error.
abbrev pub daemon_event : DaemonEvent → Daemon → Daemon
daemon_event (receives sig) d = record d { last_signal = some sig }
daemon_event (observes finished) d = if is_some d.observed then d else observe finished d
daemon_event reacts d = react d
daemon_event fails_task d =
    if is_some d.observed then d else record d { calls = shutdown_server ∷ d.calls }

-- Nothing happens once main has returned.
unfoldable pub daemon_step : DaemonEvent → Daemon → Daemon
unfolding observe react
daemon_step e d = if is_some d.exit_code then d else daemon_event e d

unfoldable pub daemon_run : List DaemonEvent → Daemon → Daemon
daemon_run [] d = d
daemon_run (e ∷ es) d = daemon_run es (daemon_step e d)

-- main when it enters the loop.
abbrev pub launched : Daemon
launched = record { last_signal = none; observed = none; exit_code = none; calls = [] }

-- The calls of on_task_error's function, and no other.
abbrev pub OnlyShutdowns : List DaemonCall → Type 0
OnlyShutdowns [] = Unit
OnlyShutdowns (shutdown_server ∷ log) = OnlyShutdowns log
OnlyShutdowns (call ∷ log) = ⊥

-- The signal that the step handles; `none` for a reactor that has shut down by itself.
abbrev pub reason : DaemonEvent → Daemon → Option Signal
reason reacts d = d.observed
reason _ d = none

-- The calls of a stop for a reason, and the exit code.
abbrev pub stop_for : Option Signal → List DaemonCall → List DaemonCall
stop_for (some sigint) log =
    cancel_shutdown_timer ∷ wait_for_tasks ∷ shutdown_server ∷ stop_tasks ∷ start_shutdown_timer
    ∷ log
stop_for _ log = wait_for_tasks ∷ shutdown_server ∷ stop_tasks ∷ log

abbrev pub code_for : Option Signal → ℕ
code_for (some (other_signal n)) = 1
code_for _ = 0

-- The step has not returned, and has called on_task_error's function at most, or it has stopped for the
-- reason, and returned its code.
abbrev Stops : Option Signal → List DaemonCall → Daemon → Type 0
Stops why log d = elim d.exit_code [
  | none ↦ OnlyShutdowns d.calls
  | some code ↦ (d.calls ≡ stop_for why log) × (code ≡ code_for why)
]

pub either {ℓ κ} :
    {A : Type ℓ} (P : A → Type κ) (b : Bool) (x y : A) → P x → P y → P (if b then x else y)
either P true x y h k = h
either P false x y h k = k

handle_signal-Stops :
    (sig : Signal) (d : Daemon)
    → d.exit_code ≡ none
    → OnlyShutdowns d.calls
    → Stops (some sig) d.calls (handle_signal sig d)
unfolding handle_signal
handle_signal-Stops sigbus d e c = rw e c
handle_signal-Stops sigwinch d e c = rw e c
handle_signal-Stops sigterm d e c = (refl, refl)
handle_signal-Stops sighup d e c = (refl, refl)
handle_signal-Stops sigint d e c = (refl, refl)
handle_signal-Stops (other_signal n) d e c = (refl, refl)

react-Stops :
    (d : Daemon) → d.exit_code ≡ none → OnlyShutdowns d.calls → Stops d.observed d.calls (react d)
unfolding react
react-Stops d e c = elim (Option-cases d.observed) [
  | inl n ↦ rw (n, react, e) c
  | inr (sig, o) ↦ rw (o, react) (handle_signal-Stops sig (record d { observed = none }) e c)
]

observe-Stops :
    (finished : Bool) (d : Daemon)
    → d.exit_code ≡ none
    → OnlyShutdowns d.calls
    → Stops none d.calls (observe finished d)
unfolding observe
observe-Stops true d e c = (refl, refl)
observe-Stops false d e c = rw e c

runs-Stops :
    (why : Option Signal) (d : Daemon)
    → d.exit_code ≡ none
    → OnlyShutdowns d.calls
    → Stops why d.calls d
runs-Stops why d e c = rw e c

daemon_event-Stops :
    (e : DaemonEvent) (d : Daemon)
    → d.exit_code ≡ none
    → OnlyShutdowns d.calls
    → Stops (reason e d) d.calls (daemon_event e d)
daemon_event-Stops (receives sig) d n c = rw n c
daemon_event-Stops (observes finished) d n c =
    either (Stops none d.calls) (is_some d.observed) d (observe finished d) (runs-Stops none d n c)
      (observe-Stops finished d n c)
daemon_event-Stops reacts d n c = react-Stops d n c
daemon_event-Stops fails_task d n c =
    either (Stops none d.calls) (is_some d.observed) d
      (record d { calls = shutdown_server ∷ d.calls }) (runs-Stops none d n c) (rw n c)

daemon_step-runs :
    (e : DaemonEvent) (d : Daemon) → d.exit_code ≡ none → daemon_step e d ≡ daemon_event e d
unfolding daemon_step
daemon_step-runs e d n = ap (λ o. if is_some o then d else daemon_event e d) n

daemon_step-Stops :
    (e : DaemonEvent) (d : Daemon)
    → d.exit_code ≡ none
    → OnlyShutdowns d.calls
    → Stops (reason e d) d.calls (daemon_step e d)
daemon_step-Stops e d n c = rw (daemon_step-runs e d n) (daemon_event-Stops e d n c)

Stops-runs :
    (why : Option Signal) (log : List DaemonCall) (d : Daemon)
    → Stops why log d
    → d.exit_code ≡ none
    → OnlyShutdowns d.calls
Stops-runs why log d s n = rw n at s

Stops-returns :
    (why : Option Signal) (log : List DaemonCall) (d : Daemon) (code : ℕ)
    → Stops why log d
    → d.exit_code ≡ some code
    → (d.calls ≡ stop_for why log) × (code ≡ code_for why)
Stops-returns why log d code s k = rw k at s

daemon_step-returned :
    (e : DaemonEvent) (d : Daemon) (code : ℕ) → d.exit_code ≡ some code → daemon_step e d ≡ d
unfolding daemon_step
daemon_step-returned e d code n = ap (λ o. if is_some o then d else daemon_event e d) n

daemon_run-returned :
    (es : List DaemonEvent) (d : Daemon) (code : ℕ) → d.exit_code ≡ some code → daemon_run es d ≡ d
unfolding daemon_run
daemon_run-returned [] d code n = refl
daemon_run-returned (e ∷ es) d code n =
    let stays = daemon_step-returned e d code n in
    daemon_run-returned es (daemon_step e d) code (ap (λ (x : Daemon). x.exit_code) stays ∙ n)
    ∙ stays

-- While main runs, nothing is called but on_task_error's function.
daemon_run-OnlyShutdowns :
    (es : List DaemonEvent) (d : Daemon)
    → OnlyShutdowns d.calls
    → d.exit_code ≡ none
    → (daemon_run es d).exit_code ≡ none
    → OnlyShutdowns (daemon_run es d).calls
unfolding daemon_run
daemon_run-OnlyShutdowns [] d c n k = c
daemon_run-OnlyShutdowns (e ∷ es) d c n k = elim (Option-cases (daemon_step e d).exit_code) [
  | inl m ↦
      daemon_run-OnlyShutdowns es (daemon_step e d)
        (Stops-runs (reason e d) d.calls (daemon_step e d) (daemon_step-Stops e d n c) m) m k
  | inr (code, m) ↦
      let stays = daemon_run-returned es (daemon_step e d) code m in
      absurd (ground (arith, ap (λ (x : Daemon). x.exit_code) stays))
]

-- However signals, failing tasks and rounds interleave: until main returns it has called nothing but
-- shutdownServer; the step at which it returns stops the tasks, shuts the server
-- down and awaits the tasks, in this order, between the start and the end of the watchdog exactly if
-- the signal that it handles is SIGINT, and returns 1 for a signal that is not expected, otherwise 0;
-- nothing is called afterwards.
pub daemon_run-stops :
    (es fs : List DaemonEvent) (e : DaemonEvent) (code : ℕ)
    → (daemon_run es launched).exit_code ≡ none
    → (daemon_step e (daemon_run es launched)).exit_code ≡ some code
    → let d = daemon_run es launched in
      OnlyShutdowns d.calls
      × (code ≡ code_for (reason e d))
      × ((daemon_run fs (daemon_step e d)).calls ≡ stop_for (reason e d) d.calls)
daemon_run-stops es fs e code n k =
    let d = daemon_run es launched in
    let c = daemon_run-OnlyShutdowns es launched tt refl n in
    let (calls, exit) =
      Stops-returns (reason e d) d.calls (daemon_step e d) code (daemon_step-Stops e d n c) k in
    let stays = daemon_run-returned fs (daemon_step e d) code k in
    (c, exit, ap (λ (x : Daemon). x.calls) stays ∙ calls)
