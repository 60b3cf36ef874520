-- ===== src/LoadTest/Progress.antt =====
-- loadtest/Tester.cpp: the results and their reports every five seconds (printProgress), with workers
-- that add results in between.
use mathlib.Core.Path.{ap₂}
use smartmet_server.World.{ErrorCode, operation_aborted}
use smartmet_server.Base.{
  ℕ, Option, if◌then◌else◌, List, [], refl, sym, arith, drop, ◌++◌, some, ap, zero, append-nil,
  length-append, append_assoc, take, suc, length, none, ◌∷◌, ◌-◌, ◌==◌, ◌≡◌, ◌/◌, ◌+◌, ◌≤◌, ◌∙◌,
  take-append-drop, Bool-cases, inr, inl,
}
use smartmet_server.LoadTest.Requests.{Result}

-- A report: the requests that were completed, and their average time.
pub data Report : Type 0 where
  completed_requests : List Result → ℕ → Report
  no_requests : Report

pub record Progress : Type 0 where
  pub results : List Result
  -- itsCurrentResultInd
  pub current_result : ℕ
  -- the oldest first
  pub reports : List Report
  -- the waits of the timer that are pending
  pub timer_waits : ℕ

abbrev pub total_duration : List Result → ℕ
total_duration [] = 0
total_duration (r ∷ rs) = r.duration + total_duration rs

unfoldable pub report_on : List Result → Report
report_on [] = no_requests
report_on (r ∷ rs) = completed_requests (r ∷ rs) (total_duration (r ∷ rs) / length (r ∷ rs))

-- `run` arms the timer first.
abbrev pub begin_progress : Progress
begin_progress = record { results = []; current_result = 0; reports = []; timer_waits = 1 }

unfoldable pub print_progress : ErrorCode → Progress → Progress
unfolding report_on
print_progress operation_aborted p = p
print_progress _ p = record p {
  current_result = length p.results;
  reports = p.reports ++ report_on (drop p.current_result p.results) ∷ [];
  timer_waits = p.timer_waits + 1;
}

pub data ProgressEvent : Type 0 where
  finishes_request : Option Result → ProgressEvent
  timer_expires : ErrorCode → ProgressEvent

abbrev pub add_result : Option Result → Progress → Progress
add_result none p = p
add_result (some r) p = record p { results = p.results ++ r ∷ [] }

unfoldable pub progress_step : ProgressEvent → Progress → Progress
unfolding print_progress
progress_step (finishes_request r) p = add_result r p
progress_step (timer_expires e) p =
    if p.timer_waits == 0
    then p
    else print_progress e (record p { timer_waits = p.timer_waits - 1 })

unfoldable pub progress_run : List ProgressEvent → Progress → Progress
progress_run [] p = p
progress_run (e ∷ es) p = progress_run es (progress_step e p)

-- The requests that a report, and that all reports together, name.
abbrev pub reported_by : Report → List Result
reported_by (completed_requests rs average) = rs
reported_by no_requests = []

unfoldable pub reported : List Report → List Result
reported [] = []
reported (r ∷ rs) = reported_by r ++ reported rs

reported-append :
    (rs : List Report) (r : Report) → reported (rs ++ r ∷ []) ≡ reported rs ++ reported_by r
unfolding reported
reported-append [] r = append-nil (reported_by r)
reported-append (s ∷ rs) r =
    ap (◌++◌ (reported_by s)) (reported-append rs r)
    ∙ sym (append_assoc (reported_by s) (reported rs) (reported_by r))

report_on-reported : (rs : List Result) → reported_by (report_on rs) ≡ rs
unfolding report_on
report_on-reported [] = refl
report_on-reported (r ∷ rs) = refl

-- The reports name the results before the index, and no more.
record IsAccounted (p : Progress) : Type 0 where
  named : reported p.reports ≡ take p.current_result p.results
  in_range : p.current_result ≤ length p.results

take-append : (n : ℕ) (xs ys : List Result) → n ≤ length xs → take n (xs ++ ys) ≡ take n xs
take-append zero xs ys h = refl
take-append (suc n) [] ys h = absurd (omega arith)
take-append (suc n) (x ∷ xs) ys h = ap (◌∷◌ x) (take-append n xs ys (omega arith))

take_all : (xs : List Result) → take (length xs) xs ≡ xs
take_all [] = refl
take_all (x ∷ xs) = ap (◌∷◌ x) (take_all xs)

add_result-IsAccounted :
    (r : Option Result) (p : Progress) → IsAccounted p → IsAccounted (add_result r p)
add_result-IsAccounted none p v = v
add_result-IsAccounted (some r) p v = record {
  named = v.named ∙ sym (take-append p.current_result p.results (r ∷ []) v.in_range);
  in_range = omega (arith, v.in_range, length-append p.results (r ∷ []));
}

print_progress-IsAccounted :
    (e : ErrorCode) (p : Progress) → IsAccounted p → IsAccounted (print_progress e p)
unfolding print_progress
print_progress-IsAccounted operation_aborted p v = v
print_progress-IsAccounted e p v = record {
  named =
      reported-append p.reports (report_on (drop p.current_result p.results))
      ∙ ap₂ ◌++◌ v.named (report_on-reported (drop p.current_result p.results))
      ∙ take-append-drop p.current_result p.results
      ∙ sym (take_all p.results);
  in_range = omega arith;
}

progress_step-IsAccounted :
    (e : ProgressEvent) (p : Progress) → IsAccounted p → IsAccounted (progress_step e p)
unfolding progress_step
progress_step-IsAccounted (finishes_request r) p v = add_result-IsAccounted r p v
progress_step-IsAccounted (timer_expires e) p v = elim (Bool-cases (p.timer_waits == 0)) [
  | inl none_pending ↦ rw none_pending v
  | inr pending ↦ rw pending (
      print_progress-IsAccounted e (record p { timer_waits = p.timer_waits - 1 })
        (record { named = v.named; in_range = v.in_range }))
]

progress_run-IsAccounted :
    (es : List ProgressEvent) (p : Progress) → IsAccounted p → IsAccounted (progress_run es p)
unfolding progress_run
progress_run-IsAccounted [] p v = v
progress_run-IsAccounted (e ∷ es) p v =
    progress_run-IsAccounted es (progress_step e p) (progress_step-IsAccounted e p v)

-- However the workers and the timer interleave, the reports name every result once and in order, up to
-- those that were added since the last report.
pub progress_run-reported :
    (es : List ProgressEvent)
    → let p = progress_run es begin_progress in
      reported p.reports ++ drop p.current_result p.results ≡ p.results
unfolding reported
progress_run-reported es =
    let p = progress_run es begin_progress in
    let v =
      progress_run-IsAccounted es begin_progress
        (record { named = refl; in_range = omega arith }) in
    rw v.named (take-append-drop p.current_result p.results)
