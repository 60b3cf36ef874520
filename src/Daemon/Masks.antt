-- ===== src/Daemon/Masks.antt =====
-- main/smartmetd.cpp: block_signals, init_signals and crash_signal_handler, over the threads of the
-- process. A signal is taken by a thread that does not block it; what its default action does is the
-- system's, as signal(7) says, and a parameter.
use smartmet_server.Base.{
  List, ℕ, true, false, Option, none, [], Bool, some, ◌||◌, ◌++◌, ◌∷◌, ◌==◌, if◌then◌else◌,
  get_elem?, set, not, ◌&&◌,
}
use smartmet_server.Daemon.Signals.{
  sigint, Signal, sighup, other_signal, sigwinch, Daemon, sigterm, daemon_event, receives, sigbus,
}
use smartmet_server.Text.{Bytes, codes}

abbrev pub sigill : Signal
sigill = other_signal 4

abbrev pub sigabrt : Signal
sigabrt = other_signal 6

abbrev pub sigfpe : Signal
sigfpe = other_signal 8

abbrev pub sigsegv : Signal
sigsegv = other_signal 11

abbrev pub sigkill : Signal
sigkill = other_signal 9

abbrev pub sigstop : Signal
sigstop = other_signal 19

abbrev pub sigxcpu : Signal
sigxcpu = other_signal 24

abbrev pub sigxfsz : Signal
sigxfsz = other_signal 25

abbrev pub sigprof : Signal
sigprof = other_signal 27

abbrev pub sigsys : Signal
sigsys = other_signal 31

abbrev pub core_signals : List Signal
core_signals = sigill ∷ sigabrt ∷ sigfpe ∷ sigsys ∷ sigsegv ∷ sigxcpu ∷ sigxfsz ∷ []

abbrev pub same_signal : Signal → Signal → Bool
same_signal sigbus sigbus = true
same_signal sigwinch sigwinch = true
same_signal sigterm sigterm = true
same_signal sighup sighup = true
same_signal sigint sigint = true
same_signal (other_signal m) (other_signal n) = m == n
same_signal _ _ = false

-- The signals that a thread blocks.
abbrev pub Mask : Type 0
Mask = Signal → Bool

abbrev pub delete_signal : Signal → Mask → Mask
delete_signal s m t = if same_signal s t then false else m t

abbrev pub delete_signals : List Signal → Mask → Mask
delete_signals [] m = m
delete_signals (s ∷ ss) m = delete_signals ss (delete_signal s m)

-- `sigfillset`, and `sigdelset` of SIGPROF and of the core signals.
abbrev pub blocked_set : Mask
blocked_set = delete_signals core_signals (delete_signal sigprof (λ s. true))

-- SIGKILL and SIGSTOP cannot be blocked: the system leaves them out of every mask.
abbrev pub is_blockable : Signal → Bool
is_blockable s = not (same_signal sigkill s || same_signal sigstop s)

-- `pthread_sigmask(SIG_BLOCK, ...)`.
unfoldable pub block_signals : Mask → Mask
block_signals m s = m s || (blocked_set s && is_blockable s)

-- What the process does with a signal that a thread takes: signal_handler and crash_signal_handler,
-- or the handler of include/backward.h, which prints the stack and ends the process.
pub data Action : Type 0 where
  default_action records_signal reports_crash stack_trace : Action

abbrev pub Actions : Type 0
Actions = Signal → Action

-- `sigaction(s, ...)`.
abbrev pub set_action : Signal → Action → Actions → Actions
set_action s a f t = if same_signal s t then a else f t

-- The actions that init_signals sets, in its order.
unfoldable pub init_actions : Actions → Actions
init_actions f = set_action sigsegv reports_crash (
    set_action sigint records_signal (
      set_action sighup records_signal (
        set_action sigwinch records_signal
          (set_action sigterm records_signal (set_action sigbus records_signal f)))))

pub record Process : Type 0 where
  -- the masks of the threads, main's first
  pub masks : List Mask
  pub actions : Actions
  pub daemon : Daemon
  pub killed : Option Signal
  -- the lines that crash_signal_handler has printed
  pub printed : List Bytes

abbrev pub ruler : Bytes
ruler = codes "---------------------------------------------------------"

abbrev pub uri_lines : List Bytes → List Bytes
uri_lines [] = []
uri_lines (u ∷ us) = u ∷ ruler ∷ uri_lines us

-- A thread that enters init_signals: main itself never does.
abbrev pub init_signals : ℕ → Process → Process
init_signals i p = elim (get_elem? p.masks i) [
  | none ↦ p
  | some m ↦ record p { masks = set p.masks i (block_signals m); actions = init_actions p.actions }
]

-- A new thread has the mask of the one that starts it.
abbrev pub start_thread : ℕ → Process → Process
start_thread i p = elim (get_elem? p.masks i) [
  | none ↦ p
  | some m ↦ record p { masks = p.masks ++ m ∷ [] }
]

module _ (is_fatal : Signal → Bool) where
  abbrev pub take_default : Signal → Process → Process
  take_default s p = if is_fatal s then record p { killed = some s } else p

  -- `raise` waits for the end of the handler, which blocks its own signal; then the default action,
  -- which the handler has restored, is taken.
  unfoldable pub crash_signal_handler : Signal → Bytes → List Bytes → Process → Process
  crash_signal_handler s going_down uris p = take_default s (record p {
    printed = p.printed ++ ruler ∷ going_down ∷ ruler ∷ uri_lines uris;
    actions = set_action s default_action p.actions;
  })

  unfoldable pub take_signal : Action → Signal → Bytes → List Bytes → Process → Process
  unfolding crash_signal_handler
  take_signal default_action s going_down uris p = take_default s p
  take_signal records_signal s going_down uris p = record p {
    daemon = daemon_event (receives s) p.daemon;
  }
  take_signal reports_crash s going_down uris p = crash_signal_handler s going_down uris p
  take_signal stack_trace s going_down uris p = record p { killed = some s }

  -- A thread that blocks the signal does not take it.
  unfoldable pub deliver : ℕ → Signal → Bytes → List Bytes → Process → Process
  unfolding take_signal
  deliver i s going_down uris p = elim (get_elem? p.masks i) [
    | none ↦ p
    | some m ↦ if m s then p else take_signal (p.actions s) s going_down uris p
  ]
