-- ===== src/Tests/LoadTests.antt =====
-- The properties of the load tester at concrete inputs.
use smartmet_server.LoadTest.Requests.{Network, sigquit, encode_spaces}
use smartmet_server.Base.{
  List, [], none, some, ◌≡◌, ◌∷◌, ◌++◌, arith, refl, false, true, map, ◌&&◌, ◌+◌, if◌then◌else◌,
}
use smartmet_server.Text.{codes}
use smartmet_server.LoadTest.Status.{parse_status, flatten}
use smartmet_server.LoadTest.StatusSpec.{parse_status_lem, status_line}
use smartmet_server.Utility.HeadLines.{wire}
use smartmet_server.LoadTest.Suite.{
  concluded, printed_results, first_signal, is_complete, run_results, tester_main-results,
  wants_results,
}
use smartmet_server.LoadTest.Run.{
  TesterEvent, create_tester, TesterOptions, TesterWorld, takes_task, tester_run, ends_task,
  signals, tester_main,
}
use smartmet_server.LoadTest.Conservation.{held, count, lost, tester_run-accounts}
use smartmet_server.Server.MemoryStatus.{get_lines}

parse_status_lem_example :
    parse_status (
      status_line (codes "HTTP/1.1") (codes "200") (codes "Very OK")
      ++ 13 ∷ 10 ∷ wire (codes "Server: a" ∷ codes "Date: b" ∷ []) (codes "two\nlines"))
    ≡ (codes "200", flatten (codes "two\nlines"))
parse_status_lem_example =
    parse_status_lem (codes "HTTP/1.1") (codes "200") (codes "Very OK")
      (codes "Server: a" ∷ codes "Date: b" ∷ []) (codes "two\nlines") refl refl (omega arith) refl
      ((refl, omega arith), ((refl, omega arith), tt))

abbrev reached : Network
reached = record {
  connects = λ q. true;
  sends = λ q b. true;
  answer = λ q. codes "HTTP/1.0 200 OK\r\n\r\nok";
  before = 1;
  after = 3;
}

-- Two requests are taken, one is answered, one fails, and SIGQUIT ends the run.
abbrev short_run : List TesterEvent
short_run =
    takes_task
    ∷ takes_task
    ∷ ends_task 1 reached
    ∷ ends_task 0 (record reached { connects = λ q. false })
    ∷ signals sigquit
    ∷ []

tester_run-accounts_example :
    let d = create_tester (λ qs. qs) (codes "h") 80 (some (codes "/a\n/b c\n")) in
    held (λ u. true) (tester_run short_run d) + lost (λ u. true) short_run d
    ≡ count (λ u. true) (map encode_spaces (get_lines (codes "/a\n/b c\n")))
tester_run-accounts_example =
    tester_run-accounts (λ qs. qs) (codes "h") 80 (codes "/a\n/b c\n") (λ t qs. refl) (λ u. true)
      short_run

abbrev test_host : TesterWorld
test_host = record {
  exists = λ f. true;
  content = λ f. some (codes "/a\n");
  shuffle = λ qs. qs;
  probe = λ h p. record { connects = true; sends = λ b. true; received = 8 };
  events = short_run;
}

abbrev wanted : TesterOptions
wanted = record {
  help = false;
  host = codes "h";
  port = 80;
  suite = some (codes "suite");
  timeout = 5;
}

tester_main-results_example :
    (concluded (tester_main test_host wanted).0 ≡ is_complete test_host wanted)
    × (printed_results (tester_main test_host wanted).0 ≡ (
        if is_complete test_host wanted && wants_results (first_signal test_host.events)
        then some (run_results test_host wanted)
        else none))
tester_main-results_example = tester_main-results test_host wanted
