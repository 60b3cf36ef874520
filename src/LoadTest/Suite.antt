-- ===== src/LoadTest/Suite.antt =====
-- loadtest/Tester.cpp: what main prints at the end, against the first signal of the run.
use smartmet_server.LoadTest.Run.{
  tester_run, signals, Tester, tester_step, TesterEvent, tester_main, TesterCall, TesterWorld,
  end_task, no_interrupt, run_suite, timer_ends, takes_task, prints_results, ends_task,
  TesterOptions, concludes, take_task, create_tester, probe_remote,
}
use smartmet_server.Base.{
  Option, List, true, false, Bool, [], some, none, ◌≡◌, ◌∷◌, ap, ℕ, not, get_elem?, inr, holds,
  Option-cases, refl, inl, arith, ◌∙◌, ◌&&◌, if◌then◌else◌,
}
use smartmet_server.LoadTest.Requests.{
  TesterSignal, sigquit, Request, Interrupted, Result, Network, handle_tester_signal, sigalrm,
}

abbrev pub first_signal : List TesterEvent → Option TesterSignal
first_signal [] = none
first_signal (signals s ∷ es) = some s
first_signal (_ ∷ es) = first_signal es

-- Whether the results are printed: the first signal was SIGQUIT.
abbrev pub wants_results : Option TesterSignal → Bool
wants_results (some sigquit) = true
wants_results _ = false

take_task-interrupted :
    (qs : List Request) (d : Tester) → (take_task qs d).interrupted ≡ d.interrupted
take_task-interrupted [] d = refl
take_task-interrupted (q ∷ qs) d = refl

end_task-interrupted :
    (i : ℕ) (net : Network) (d : Tester) → (end_task i net d).interrupted ≡ d.interrupted
unfolding end_task
end_task-interrupted i net d = elim (Option-cases (get_elem? d.running i)) [
  | inl n ↦ rw (n, end_task) refl
  | inr (q, e) ↦ rw (e, end_task) refl
]

-- A stopped io context handles no signal any more.
tester_step-stopped :
    (e : TesterEvent) (d : Tester)
    → d.interrupted.io_stopped ≡ true
    → (tester_step e d).interrupted ≡ d.interrupted
unfolding tester_step
tester_step-stopped takes_task d h = take_task-interrupted d.queue d
tester_step-stopped (ends_task i net) d h = end_task-interrupted i net d
tester_step-stopped (timer_ends e) d h = ground arith
tester_step-stopped (signals s) d h = ground arith

tester_run-stopped :
    (es : List TesterEvent) (d : Tester)
    → d.interrupted.io_stopped ≡ true
    → (tester_run es d).interrupted ≡ d.interrupted
unfolding tester_run
tester_run-stopped [] d h = refl
tester_run-stopped (e ∷ es) d h =
    let s = tester_step-stopped e d h in
    tester_run-stopped es (tester_step e d) (ap (λ (x : Interrupted). x.io_stopped) s ∙ h) ∙ s

-- While it runs, the first signal decides.
tester_run-print_results :
    (es : List TesterEvent) (d : Tester)
    → d.interrupted ≡ no_interrupt
    → (tester_run es d).interrupted.print_results ≡ wants_results (first_signal es)
unfolding tester_run tester_step handle_tester_signal
tester_run-print_results [] d h = ap (λ (x : Interrupted). x.print_results) h
tester_run-print_results (takes_task ∷ es) d h =
    tester_run-print_results es (take_task d.queue d) (take_task-interrupted d.queue d ∙ h)
tester_run-print_results (ends_task i net ∷ es) d h =
    tester_run-print_results es (end_task i net d) (end_task-interrupted i net d ∙ h)
tester_run-print_results (timer_ends e ∷ es) d h =
    tester_run-print_results es (tester_step (timer_ends e) d) (ground arith)
tester_run-print_results (signals sigquit ∷ es) d h =
    let d1 = record d { interrupted = handle_tester_signal sigquit d.interrupted } in
    ground (arith, tester_run-stopped es d1 refl)
tester_run-print_results (signals sigalrm ∷ es) d h =
    let d1 = record d { interrupted = handle_tester_signal sigalrm d.interrupted } in
    ground (arith, tester_run-stopped es d1 refl)

-- What the calls print, and whether they conclude.
abbrev pub printed_results : List TesterCall → Option (List Result)
printed_results [] = none
printed_results (prints_results rs ∷ cs) = some rs
printed_results (_ ∷ cs) = printed_results cs

abbrev pub concluded : List TesterCall → Bool
concluded [] = false
concluded (concludes ∷ cs) = true
concluded (_ ∷ cs) = concluded cs

-- Whether main comes to the end of the suite.
abbrev pub is_complete : TesterWorld → TesterOptions → Bool
is_complete w o =
    not o.help && holds o.suite (λ file. w.exists file && probe_remote (w.probe o.host o.port))

abbrev pub run_results : TesterWorld → TesterOptions → List Result
run_results w o = elim o.suite [
  | none ↦ []
  | some file ↦
      (tester_run w.events
        (create_tester w.shuffle o.host o.port (w.content file))).progress.results
]

-- main comes to its end exactly where no help is wanted, a suite is named whose file exists, and the
-- probe succeeds; and it prints the results of the run there, exactly if the first signal of the run
-- was SIGQUIT.
pub tester_main-results :
    (w : TesterWorld) (o : TesterOptions)
    → (concluded (tester_main w o).0 ≡ is_complete w o)
      × (printed_results (tester_main w o).0 ≡ (
          if is_complete w o && wants_results (first_signal w.events)
          then some (run_results w o)
          else none))
unfolding tester_main run_suite
tester_main-results w o = elim (Option-cases o.suite) [
  | inl n ↦ rw (n, tester_main) (ground arith)
  | inr (file, e) ↦
      let d = create_tester w.shuffle o.host o.port (w.content file) in
      let p = tester_run-print_results w.events d refl in rw (e, tester_main) (ground (arith, p))
]
