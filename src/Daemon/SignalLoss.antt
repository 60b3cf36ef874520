-- ===== src/Daemon/SignalLoss.antt =====
-- main/smartmetd.cpp: the signals that the loop of main acts on, and those that it loses. The one
-- variable last_signal holds the newest, and the loop reads it once a second.
use smartmet_server.Base.{
  Option, List, [], false, true, refl, none, Bool, some, ℕ, ◌++◌, ◌≡◌, ◌∷◌, ap, ◌∙◌,
}
use smartmet_server.Daemon.Signals.{
  daemon_run, reacts, other_signal, sigint, observes, daemon_step, sighup, Daemon, sigbus, receives,
  DaemonEvent, DaemonCall, sigwinch, sigterm, Signal,
}

abbrev pub arrivals_of : List Signal → List DaemonEvent
arrivals_of [] = []
arrivals_of (sig ∷ sigs) = receives sig ∷ arrivals_of sigs

abbrev pub last_of_signals : Option Signal → List Signal → Option Signal
last_of_signals o [] = o
last_of_signals o (sig ∷ sigs) = last_of_signals (some sig) sigs

-- The signals between two rounds, and the round that follows.
abbrev pub round_of : List Signal → List DaemonEvent
round_of sigs = arrivals_of sigs ++ observes false ∷ reacts ∷ []

abbrev pub is_ignored : Option Signal → Bool
is_ignored none = true
is_ignored (some sigbus) = true
is_ignored (some sigwinch) = true
is_ignored (some _) = false

-- The exit code of main for a signal.
abbrev pub exit_code_of : Option Signal → Option ℕ
exit_code_of none = none
exit_code_of (some sigbus) = none
exit_code_of (some sigwinch) = none
exit_code_of (some (other_signal n)) = some 1
exit_code_of (some _) = some 0

-- main in its sleep, with a signal noted or not.
abbrev pub sleeping : Option Signal → List DaemonCall → Daemon
sleeping o log = record { last_signal = o; observed = none; exit_code = none; calls = log }

daemon_run-arrivals :
    (sigs : List Signal) (es : List DaemonEvent) (o : Option Signal) (log : List DaemonCall)
    → daemon_run (arrivals_of sigs ++ es) (sleeping o log)
      ≡ daemon_run es (sleeping (last_of_signals o sigs) log)
unfolding daemon_run daemon_step
daemon_run-arrivals [] es o log = refl
daemon_run-arrivals (sig ∷ sigs) es o log = daemon_run-arrivals sigs es (some sig) log

last_round :
    (o : Option Signal) (log : List DaemonCall)
    → (daemon_run (observes false ∷ reacts ∷ []) (sleeping o log)).exit_code ≡ exit_code_of o
unfolding daemon_run daemon_step
last_round none log = refl
last_round (some sigbus) log = refl
last_round (some sigwinch) log = refl
last_round (some sigterm) log = refl
last_round (some sighup) log = refl
last_round (some sigint) log = refl
last_round (some (other_signal n)) log = refl

-- A round acts on the newest signal only: whatever arrives between two rounds, whether main returns,
-- and its exit code, are decided by the last of the signals alone, so that a SIGTERM, SIGINT or SIGHUP
-- before a SIGWINCH or SIGBUS of the same second has no effect.
pub round_of-last :
    (sigs : List Signal) (o : Option Signal) (log : List DaemonCall)
    → (daemon_run (round_of sigs) (sleeping o log)).exit_code
      ≡ exit_code_of (last_of_signals o sigs)
round_of-last sigs o log =
    ap (λ (d : Daemon). d.exit_code) (daemon_run-arrivals sigs (observes false ∷ reacts ∷ []) o log)
    ∙ last_round (last_of_signals o sigs) log

-- A signal that arrives while main handles one that it ignores is erased: main does not return, and
-- sleeps again with no signal noted.
pub react-erases :
    (sig late : Signal) (log : List DaemonCall)
    → is_ignored (some sig) ≡ true
    → daemon_run (observes false ∷ receives late ∷ reacts ∷ []) (sleeping (some sig) log)
      ≡ sleeping none log
unfolding daemon_run daemon_step
react-erases sigbus late log i = refl
react-erases sigwinch late log i = refl
react-erases sigterm late log i = absurd (cc i)
react-erases sighup late log i = absurd (cc i)
react-erases sigint late log i = absurd (cc i)
react-erases (other_signal n) late log i = absurd (cc i)
