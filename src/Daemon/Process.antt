-- ===== src/Daemon/Process.antt =====
-- main/smartmetd.cpp: the process of the daemon over histories of threads, signals and rounds of main's
-- loop.
use smartmet_server.Daemon.Masks.{
  Process, init_actions, deliver, records_signal, init_signals, stack_trace, core_signals,
  same_signal, Actions, default_action, start_thread, set_action, take_signal, take_default,
  reports_crash, uri_lines, Action, ruler,
}
use smartmet_server.Daemon.Signals.{
  Signal, handle_signal, DaemonEvent, launched, sigterm, sigint, sighup, other_signal, sigbus,
  daemon_step, Daemon, receives, sigwinch, observe, react, reacts, observes, daemon_event, either,
  fails_task, shutdown_server,
}
use smartmet_server.Base.{
  Option, ℕ, Bool, is_some, false, true, none, refl, suc, zero, arith, List, [], some, ◌≡◌, ◌∷◌,
  ◌&&◌, ◌≢◌, ◌||◌, if◌then◌else◌, Option-cases, inr, inl, Bool-cases, ◌++◌, get_elem?,
}
use smartmet_server.Text.{Bytes}

pub data ProcessEvent : Type 0 where
  starts_thread enters_task : ℕ → ProcessEvent
  takes_signal : ℕ → Signal → Bytes → List Bytes → ProcessEvent
  loops : DaemonEvent → ProcessEvent

-- main takes no part in init_signals: the tasks call it.
abbrev pub enter_task : ℕ → Process → Process
enter_task zero p = p
enter_task (suc i) p = init_signals (suc i) p

-- The rounds of the loop; the signals come by `takes_signal` alone.
abbrev pub loop_round : DaemonEvent → Process → Process
loop_round (receives s) p = p
loop_round e p = record p { daemon = daemon_step e p.daemon }

module _ (is_fatal : Signal → Bool) where
  abbrev pub process_event : ProcessEvent → Process → Process
  process_event (starts_thread i) p = start_thread i p
  process_event (enters_task i) p = enter_task i p
  process_event (takes_signal i s going_down uris) p = deliver is_fatal i s going_down uris p
  process_event (loops e) p = loop_round e p

  -- Nothing happens once the process has ended.
  unfoldable pub process_step : ProcessEvent → Process → Process
  unfolding deliver
  process_step e p = if is_some p.killed || is_some p.daemon.exit_code then p else process_event e p

  unfoldable pub process_run : List ProcessEvent → Process → Process
  process_run [] p = p
  process_run (e ∷ es) p = process_run es (process_step e p)

-- The process when main starts its loop: main blocks nothing, and with --stacktrace the core signals
-- have the handler of include/backward.h.
abbrev pub one_of_signals : Signal → List Signal → Bool
one_of_signals s [] = false
one_of_signals s (t ∷ ts) = same_signal t s || one_of_signals s ts

abbrev pub first_actions : Bool → Actions
first_actions stacktrace s =
    if stacktrace && one_of_signals s core_signals then stack_trace else default_action

abbrev pub booted : Bool → Process
booted stacktrace = record {
  masks = (λ s. false) ∷ [];
  actions = first_actions stacktrace;
  daemon = launched;
  killed = none;
  printed = [];
}

abbrev pub is_control : Signal → Bool
is_control (other_signal n) = false
is_control _ = true

abbrev pub is_noted : Option Signal → Bool
is_noted none = true
is_noted (some s) = is_control s

-- Only control signals reach the loop, which has not returned 1.
pub record IsControlled (d : Daemon) : Type 0 where
  pub noted : is_noted d.last_signal ≡ true
  pub seen : is_noted d.observed ≡ true
  pub code : d.exit_code ≢ some 1

abbrev pub IsExpected : Process → Type 0
IsExpected p =
    ((s : Signal) → p.actions s ≡ records_signal → is_control s ≡ true) × IsControlled p.daemon

booted-IsExpected : (stacktrace : Bool) → IsExpected (booted stacktrace)
booted-IsExpected stacktrace =
    (λ s e. absurd (ground arith), record { noted = refl; seen = refl; code = λ e. cc })

handle_signal-IsControlled :
    (s : Signal) (d : Daemon)
    → is_control s ≡ true
    → IsControlled d
    → IsControlled (handle_signal s d)
unfolding handle_signal
handle_signal-IsControlled sigbus d c v = record { noted = refl; seen = v.seen; code = v.code }
handle_signal-IsControlled sigwinch d c v = record { noted = refl; seen = v.seen; code = v.code }
handle_signal-IsControlled sigterm d c v = record { noted = v.noted; seen = v.seen; code = λ e. cc }
handle_signal-IsControlled sighup d c v = record { noted = v.noted; seen = v.seen; code = λ e. cc }
handle_signal-IsControlled sigint d c v = record { noted = refl; seen = v.seen; code = λ e. cc }
handle_signal-IsControlled (other_signal n) d c v = cc

observe-IsControlled :
    (finished : Bool) (d : Daemon) → IsControlled d → IsControlled (observe finished d)
unfolding observe
observe-IsControlled true d v = record { noted = v.noted; seen = v.seen; code = λ e. cc }
observe-IsControlled false d v = record { noted = v.noted; seen = v.noted; code = v.code }

react-IsControlled : (d : Daemon) → IsControlled d → IsControlled (react d)
unfolding react
react-IsControlled d v = elim (Option-cases d.observed) [
  | inl n ↦ rw (n, react) v
  | inr (s, o) ↦
      let c : is_control s ≡ true = ground (arith, v.seen) in
      rw (o, react)
        (handle_signal-IsControlled s (record d { observed = none }) c
          (record { noted = v.noted; seen = refl; code = v.code }))
]

daemon_step-IsControlled :
    (e : DaemonEvent) (d : Daemon)
    → IsControlled d
    → IsControlled (daemon_event e d)
    → IsControlled (daemon_step e d)
unfolding daemon_step
daemon_step-IsControlled e d v w =
    either IsControlled (is_some d.exit_code) d (daemon_event e d) v w

loop_round-IsControlled :
    (e : DaemonEvent) (p : Process) → IsControlled p.daemon → IsControlled (loop_round e p).daemon
loop_round-IsControlled (receives s) p v = v
loop_round-IsControlled (observes finished) p v =
    let d = p.daemon in
    daemon_step-IsControlled (observes finished) d v (
      either IsControlled (is_some d.observed) d (observe finished d) v
        (observe-IsControlled finished d v))
loop_round-IsControlled fails_task p v =
    let d = p.daemon in
    daemon_step-IsControlled fails_task d v (
      either IsControlled (is_some d.observed) d (record d { calls = shutdown_server ∷ d.calls }) v
        (record { noted = v.noted; seen = v.seen; code = v.code }))
loop_round-IsControlled reacts p v =
    daemon_step-IsControlled reacts p.daemon v (react-IsControlled p.daemon v)

init_actions-control :
    (f : Actions) (s : Signal)
    → (f s ≡ records_signal → is_control s ≡ true)
    → init_actions f s ≡ records_signal
    → is_control s ≡ true
unfolding init_actions
init_actions-control f sigbus h e = refl
init_actions-control f sigwinch h e = refl
init_actions-control f sigterm h e = refl
init_actions-control f sighup h e = refl
init_actions-control f sigint h e = refl
init_actions-control f (other_signal n) h e = ground arith

init_signals-IsExpected : (i : ℕ) (p : Process) → IsExpected p → IsExpected (init_signals i p)
init_signals-IsExpected i p (h, v) = elim (Option-cases (get_elem? p.masks i)) [
  | inl n ↦ rw (n, init_signals) (h, v)
  | inr (m, q) ↦ rw (q, init_signals) (λ s e. init_actions-control p.actions s (h s) e, v)
]

start_thread-IsExpected : (i : ℕ) (p : Process) → IsExpected p → IsExpected (start_thread i p)
start_thread-IsExpected i p (h, v) = elim (Option-cases (get_elem? p.masks i)) [
  | inl n ↦ rw (n, start_thread) (h, v)
  | inr (m, q) ↦ rw (q, start_thread) (h, v)
]

set_action-control :
    (t : Signal) (f : Actions)
    → ((s : Signal) → f s ≡ records_signal → is_control s ≡ true)
    → (s : Signal) → set_action t default_action f s ≡ records_signal
    → is_control s ≡ true
set_action-control t f h s e = elim (Bool-cases (same_signal t s)) [
  | inl y ↦ absurd (ground arith)
  | inr n ↦ h s (ground arith)
]

module _ (is_fatal : Signal → Bool) where
  take_default-IsExpected :
      (s : Signal) (p : Process) → IsExpected p → IsExpected (take_default is_fatal s p)
  take_default-IsExpected s p (h, v) =
      either IsExpected (is_fatal s) (record p { killed = some s }) p (h, v) (h, v)

  take_signal-IsExpected :
      (a : Action) (s : Signal) (going_down : Bytes) (uris : List Bytes) (p : Process)
      → (a ≡ records_signal → is_control s ≡ true)
      → IsExpected p
      → IsExpected (take_signal is_fatal a s going_down uris p)
  unfolding take_signal
  take_signal-IsExpected default_action s going_down uris p c x = take_default-IsExpected s p x
  take_signal-IsExpected records_signal s going_down uris p c (h, v) =
      (h, record { noted = c refl; seen = v.seen; code = v.code })
  take_signal-IsExpected reports_crash s going_down uris p c (h, v) =
      take_default-IsExpected s
        (record p {
          printed = p.printed ++ ruler ∷ going_down ∷ ruler ∷ uri_lines uris;
          actions = set_action s default_action p.actions;
        })
        (set_action-control s p.actions h, v)
  take_signal-IsExpected stack_trace s going_down uris p c x = x

  deliver-IsExpected :
      (i : ℕ) (s : Signal) (going_down : Bytes) (uris : List Bytes) (p : Process)
      → IsExpected p
      → IsExpected (deliver is_fatal i s going_down uris p)
  unfolding deliver
  deliver-IsExpected i s going_down uris p (h, v) = elim (Option-cases (get_elem? p.masks i)) [
    | inl n ↦ rw (n, deliver) (h, v)
    | inr (m, q) ↦
        let taken = take_signal is_fatal (p.actions s) s going_down uris p in
        rw (q, deliver)
          (either IsExpected (m s) p taken (h, v)
            (take_signal-IsExpected (p.actions s) s going_down uris p (h s) (h, v)))
  ]

  process_event-IsExpected :
      (e : ProcessEvent) (p : Process) → IsExpected p → IsExpected (process_event is_fatal e p)
  process_event-IsExpected (starts_thread i) p x = start_thread-IsExpected i p x
  process_event-IsExpected (enters_task zero) p x = x
  process_event-IsExpected (enters_task (suc i)) p x = init_signals-IsExpected (suc i) p x
  process_event-IsExpected (takes_signal i s going_down uris) p x =
      deliver-IsExpected i s going_down uris p x
  process_event-IsExpected (loops (receives s)) p x = x
  process_event-IsExpected (loops (observes b)) p (h, v) =
      (h, loop_round-IsControlled (observes b) p v)
  process_event-IsExpected (loops fails_task) p (h, v) = (h, loop_round-IsControlled fails_task p v)
  process_event-IsExpected (loops reacts) p (h, v) = (h, loop_round-IsControlled reacts p v)

  process_step-IsExpected :
      (e : ProcessEvent) (p : Process) → IsExpected p → IsExpected (process_step is_fatal e p)
  unfolding process_step
  process_step-IsExpected e p x =
      either IsExpected (is_some p.killed || is_some p.daemon.exit_code) p
        (process_event is_fatal e p) x (process_event-IsExpected e p x)

  process_run-IsExpected :
      (es : List ProcessEvent) (p : Process) → IsExpected p → IsExpected (process_run is_fatal es p)
  unfolding process_run
  process_run-IsExpected [] p x = x
  process_run-IsExpected (e ∷ es) p x =
      process_run-IsExpected es (process_step is_fatal e p) (process_step-IsExpected e p x)

  -- "Not expected: only the signals above are handled": whatever signals the threads of the process
  -- take in whatever order, main does not return 1, the exit code for a signal that it does not know.
  pub process_run-code :
      (stacktrace : Bool) (es : List ProcessEvent)
      → (process_run is_fatal es (booted stacktrace)).daemon.exit_code ≢ some 1
  process_run-code stacktrace es =
      (process_run-IsExpected es (booted stacktrace) (booted-IsExpected stacktrace)).1.code
