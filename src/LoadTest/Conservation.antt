-- ===== src/LoadTest/Conservation.antt =====
-- loadtest/Tester.cpp: what becomes of the requests of the file, over the histories of events of Run.
use smartmet_server.Text.{Bytes}
use mathlib.Core.List.{map-append}
use smartmet_server.Base.{
  List, zero, map, get_elem?, suc, refl, ◌∷◌, ℕ, arith, Bool, [], some, ◌≡◌, ◌+◌, ◌++◌,
  if◌then◌else◌, inl, inr, Option-cases, false, not, ap, none, true, ◌&&◌, ◌⊎◌, ◌∙◌,
}
use smartmet_server.LoadTest.Requests.{
  Result, Request, perform_request, Network, encode_spaces, read_req_file, request_text,
}
use smartmet_server.LoadTest.Run.{
  take_task, Tester, erase_at, end_task, tester_step, takes_task, TesterEvent, signals, timer_ends,
  ends_task, tester_run, create_tester,
}
use smartmet_server.LoadTest.Progress.{add_result, Progress, progress_step, timer_expires}
use smartmet_server.World.{operation_aborted, failure, eof, success, ErrorCode}
use smartmet_server.Server.MemoryStatus.{get_lines}

-- How many texts pass a test.
abbrev pub count : (Bytes → Bool) → List Bytes → ℕ
count t [] = 0
count t (u ∷ us) = (if t u then 1 else 0) + count t us

abbrev pub request_uris : List Request → List Bytes
request_uris = map (λ q. q.uri)

abbrev pub result_uris : List Result → List Bytes
result_uris = map (λ r. r.uri)

-- The requests that pass, by where they are: answered, in work, and waiting.
abbrev pub held : (Bytes → Bool) → Tester → ℕ
held t d =
    count t (result_uris d.progress.results)
    + (count t (request_uris d.running) + count t (request_uris d.queue))

count-append : (t : Bytes → Bool) (a b : List Bytes) → count t (a ++ b) ≡ count t a + count t b
count-append t [] b = omega arith
count-append t (u ∷ a) b = omega (arith, count-append t a b)

count-erase_at :
    (t : Bytes → Bool) (qs : List Request) (i : ℕ) (q : Request)
    → get_elem? qs i ≡ some q
    → count t (request_uris qs)
      ≡ (if t q.uri then 1 else 0) + count t (request_uris (erase_at qs i))
count-erase_at t [] i q e = cc
count-erase_at t (k ∷ qs) zero q e = let s : k ≡ q = cc in rw s refl
count-erase_at t (k ∷ qs) (suc i) q e = omega (arith, count-erase_at t qs i q e)

take_task-held :
    (t : Bytes → Bool) (qs : List Request) (d : Tester)
    → d.queue ≡ qs
    → held t (take_task qs d) ≡ held t d
take_task-held t [] d e = refl
take_task-held t (q ∷ qs) d e =
    let moved = count-append t (request_uris d.running) (q.uri ∷ []) in
    rw (e, map-append (λ (r : Request). r.uri) d.running (q ∷ [])) (omega (arith, moved))

-- Whether the request is sent, so that its answer is read.
abbrev pub answered : Network → Request → Bool
answered net q = net.connects q && net.sends q (request_text q.uri)

-- The requests that pass and end without a result, at an event and in a history.
abbrev pub lost_at : (Bytes → Bool) → TesterEvent → Tester → ℕ
lost_at t (ends_task i net) d = elim (get_elem? d.running i) [
  | none ↦ 0
  | some q ↦ if t q.uri && not (answered net q) then 1 else 0
]
lost_at t _ d = 0

unfoldable pub lost : (Bytes → Bool) → List TesterEvent → Tester → ℕ
lost t [] d = 0
lost t (e ∷ es) d = lost_at t e d + lost t es (tester_step e d)

perform_request-uri :
    (net : Network) (q : Request)
    → (answered net q ≡ false) × (perform_request net q ≡ none)
      ⊎ ((answered net q ≡ true)
          × ((r : Result) × (perform_request net q ≡ some r) × (r.uri ≡ q.uri)))
unfolding perform_request
perform_request-uri net q = elim (Option-cases (perform_request net q)) [
  | inl n ↦ inl (ground arith, n)
  | inr (r, e) ↦ inr (ground arith, (r, e, ground arith))
]

add_result-count :
    (t : Bytes → Bool) (net : Network) (q : Request) (p : Progress)
    → count t (result_uris (add_result (perform_request net q) p).results)
        + (if t q.uri && not (answered net q) then 1 else 0)
      ≡ count t (result_uris p.results) + (if t q.uri then 1 else 0)
add_result-count t net q p = elim (perform_request-uri net q) [
  | inl (a, n) ↦ rw (n, a) (ground arith)
  | inr (a, (r, e, u)) ↦
      let added = count-append t (result_uris p.results) (q.uri ∷ []) in
      rw (e, a, map-append (λ (x : Result). x.uri) p.results (r ∷ []), u) (ground (arith, added))
]

progress_step-results :
    (e : ErrorCode) (p : Progress) → (progress_step (timer_expires e) p).results ≡ p.results
unfolding progress_step
progress_step-results operation_aborted p = ground arith
progress_step-results success p = ground arith
progress_step-results eof p = ground arith
progress_step-results (failure n) p = ground arith

end_task-held :
    (t : Bytes → Bool) (i : ℕ) (net : Network) (d : Tester)
    → held t (end_task i net d) + lost_at t (ends_task i net) d ≡ held t d
unfolding end_task
end_task-held t i net d = elim (Option-cases (get_elem? d.running i)) [
  | inl n ↦ rw (n, end_task, lost_at) (omega arith)
  | inr (q, e) ↦
      rw (e, end_task, lost_at)
        (omega (arith, count-erase_at t d.running i q e, add_result-count t net q d.progress))
]

tester_step-held :
    (t : Bytes → Bool) (e : TesterEvent) (d : Tester)
    → held t (tester_step e d) + lost_at t e d ≡ held t d
unfolding tester_step
tester_step-held t takes_task d = omega (arith, take_task-held t d.queue d refl)
tester_step-held t (ends_task i net) d = end_task-held t i net d
tester_step-held t (timer_ends e) d = ground (arith, progress_step-results e d.progress)
tester_step-held t (signals s) d = ground arith

tester_run-held :
    (t : Bytes → Bool) (es : List TesterEvent) (d : Tester)
    → held t (tester_run es d) + lost t es d ≡ held t d
unfolding tester_run lost
tester_run-held t [] d = omega arith
tester_run-held t (e ∷ es) d =
    omega (arith, tester_run-held t es (tester_step e d), tester_step-held t e d)

read_req_file-uris :
    (host : Bytes) (port : ℕ) (lines : List Bytes)
    → request_uris
        (map (λ line. record { host_name = host; port = port; uri = encode_spaces line }) lines)
      ≡ map encode_spaces lines
read_req_file-uris host port [] = refl
read_req_file-uris host port (l ∷ lines) =
    ap (◌∷◌ (encode_spaces l)) (read_req_file-uris host port lines)

-- However the threads, the timer and the signals interleave, each line of the request file, its spaces
-- encoded, is accounted for as often as it stands in the file: as a result, as a request that is in
-- work or waits, or as one whose connection or write failed. The shuffle is taken to lose nothing.
pub tester_run-accounts :
    (shuffle : List Request → List Request) (host : Bytes) (port : ℕ) (content : Bytes)
    → ((t : Bytes → Bool) (qs : List Request)
        → count t (request_uris (shuffle qs)) ≡ count t (request_uris qs))
    → (t : Bytes → Bool) (es : List TesterEvent)
    → let d = create_tester shuffle host port (some content) in
      held t (tester_run es d) + lost t es d ≡ count t (map encode_spaces (get_lines content))
unfolding read_req_file
tester_run-accounts shuffle host port content fair t es =
    let d = create_tester shuffle host port (some content) in
    let lines = get_lines content in
    let qs : List Request =
      map (λ line. record { host_name = host; port = port; uri = encode_spaces line }) lines in
    tester_run-held t es d
    ∙ omega (arith, fair t qs)
    ∙ ap (count t) (read_req_file-uris host port lines)
