-- ===== src/Tests/Daemons.antt =====
-- The properties of the daemon at concrete inputs.
use smartmet_server.Daemon.Watchdog.{Counter, watch, cancelled, too_many}
use smartmet_server.Daemon.RateSpec.{spec_answers, answers, spec_check, answers-refines}
use smartmet_server.Daemon.EventRate.{checks, idle_rate, checks_limit, count_since}
use smartmet_server.Daemon.Signals.{
  daemon_run, reacts, launched, receives, DaemonEvent, sigint, observes, sigterm, sigwinch,
  fails_task, daemon_step, stop_for, shutdown_server, observe, daemon_run-stops, OnlyShutdowns,
  handle_signal, react,
}
use smartmet_server.Base.{
  List, some, ℕ, refl, ltb, false, arith, length, none, true, [], ◌≡◌, ◌≤◌, ◌+◌, ◌-◌, ◌==◌, ◌∷◌,
  ◌≢◌,
}
use smartmet_server.Daemon.NewHandler.{
  set_new_handler, out_of_memory, bad_alloc_handler, out_of_memory-terminates, terminates,
}
use smartmet_server.Text.{same_bytes, codes}
use smartmet_server.Daemon.SignalLoss.{round_of, sleeping, round_of-last}
use smartmet_server.Daemon.Process.{
  ProcessEvent, process_run, starts_thread, takes_signal, booted, enters_task, process_run-code,
  loops,
}

checks_limit_example :
    let (r, passed) = checks (1 ∷ 2 ∷ 70 ∷ []) (idle_rate 2 60) [] in
    (length r.times ≤ 2) × (count_since (70 - 60) passed ≤ 2)
checks_limit_example =
    checks_limit 2 60 (1 ∷ 2 ∷ 70 ∷ []) (omega arith, (omega arith, (omega arith, tt)))

answers-refines_example :
    answers (1 ∷ 2 ∷ 3 ∷ 70 ∷ []) (idle_rate 2 60) ≡ false ∷ false ∷ true ∷ false ∷ []
unfolding spec_answers spec_check count_since
answers-refines_example =
    answers-refines 2 60 (1 ∷ 2 ∷ 3 ∷ 70 ∷ [])
      (omega arith, (omega arith, (omega arith, (omega arith, tt))))

out_of_memory-terminates_example :
    (out_of_memory bad_alloc_handler 7 true (idle_rate 10 60)).1 ≡ terminates
unfolding set_new_handler same_bytes
out_of_memory-terminates_example =
    out_of_memory-terminates (codes "default") bad_alloc_handler 7 true (idle_rate 10 60) refl

abbrev history : List DaemonEvent
history =
    receives sigwinch ∷ observes false ∷ reacts ∷ fails_task ∷ receives sigint ∷ observes false ∷ []

daemon_run-stops_example :
    OnlyShutdowns (daemon_run history launched).calls
    × ◌≡◌ {A = ℕ} 0 0
    × ((daemon_run
          (receives sigterm ∷ reacts ∷ [])
          (daemon_step reacts (daemon_run history launched))).calls
        ≡ stop_for (some sigint) (shutdown_server ∷ []))
unfolding daemon_run daemon_step observe react handle_signal
daemon_run-stops_example =
    daemon_run-stops history (receives sigterm ∷ reacts ∷ []) reacts 0 refl refl

round_of-last_example :
    (daemon_run (round_of (sigterm ∷ sigwinch ∷ [])) (sleeping none [])).exit_code ≡ none
round_of-last_example = round_of-last (sigterm ∷ sigwinch ∷ []) none []

-- The counter in twentieths.
abbrev twentieths : Counter
twentieths = record {
  Double = ℕ;
  increment = λ n. n + 20;
  decay = λ n. n - 1;
  above_five = λ n. ltb 100 n;
}

-- The watchdog is cancelled in its fourth sleep; a SIGINT in every sleep aborts in the sixth round.
watch-cancelled : watch twentieths (λ i. i == 3) (λ i. none) 10 0 none 0 ≡ cancelled 3
unfolding watch
watch-cancelled = refl

watch-too_many : watch twentieths (λ i. false) (λ i. some sigint) 10 0 none 0 ≡ too_many 5
unfolding watch
watch-too_many = refl

-- A task enters init_signals, and takes a SIGTERM that it blocks; main takes it, and goes round.
abbrev evening : List ProcessEvent
evening =
    starts_thread 0
    ∷ enters_task 1
    ∷ takes_signal 1 sigterm [] []
    ∷ takes_signal 0 sigterm [] []
    ∷ loops (observes false)
    ∷ loops reacts
    ∷ []

process_run-code_example : (process_run (λ s. true) evening (booted true)).daemon.exit_code ≢ some 1
process_run-code_example = process_run-code (λ s. true) true evening
