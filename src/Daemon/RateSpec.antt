-- ===== src/Daemon/RateSpec.antt =====
-- main/smartmetd.cpp: MaxEventFreq against a specification that keeps every event and counts those of
-- the window, where the class keeps an array of at most `max_count` times.
use mathlib.Core.Path.{ap₂}
use smartmet_server.Base.{
  List, ℕ, leb, ltb, true, arith, Bool-cases, refl, Bool, ◌∷◌, inl, inr, false, ap, suc, [], length,
  ◌++◌, ◌-◌, ◌≡◌, ◌≤◌, if◌then◌else◌, sym, ◌∙◌,
}
use smartmet_server.Daemon.EventRate.{
  count_since, expire_before, Tracks, last_of, EventRate, Ascending, idle_rate, check, kept,
  check-window, check-Tracks, kept-Tracks,
}

-- The specification's state is the list of all events that passed, and its answer whether it refuses.
unfoldable pub spec_check : ℕ → ℕ → ℕ → List ℕ → List ℕ × Bool
spec_check max_count window now passed =
    if leb max_count (count_since (now - window) passed)
    then (passed, true)
    else (passed ++ now ∷ [], false)

-- The answers at a sequence of times.
unfoldable pub spec_answers : ℕ → ℕ → List ℕ → List ℕ → List Bool
spec_answers max_count window [] passed = []
spec_answers max_count window (now ∷ ts) passed =
    let (passed', refuses) = spec_check max_count window now passed in
    refuses ∷ spec_answers max_count window ts passed'

unfoldable pub answers : List ℕ → EventRate → List Bool
answers [] r = []
answers (now ∷ ts) r = let (r', threw) = check now r in threw ∷ answers ts r'

count_since-all :
    (oldest lo : ℕ) (ts : List ℕ)
    → oldest ≤ lo
    → Ascending lo ts
    → count_since oldest ts ≡ length ts
unfolding count_since
count_since-all oldest lo [] h a = refl
count_since-all oldest lo (t ∷ ts) h (le, a) =
    ground (arith, count_since-all oldest t ts (omega arith) a)

-- In a list in order the events of the window are the ones that are kept.
count_since-length :
    (oldest lo : ℕ) (ts : List ℕ)
    → Ascending lo ts
    → count_since oldest ts ≡ length (expire_before oldest ts)
unfolding count_since expire_before
count_since-length oldest lo [] a = refl
count_since-length oldest lo (t ∷ ts) (le, a) = elim (Bool-cases (ltb t oldest)) [
  | inl old ↦ rw old (count_since-length oldest t ts a)
  | inr new ↦ let e : oldest ≤ t = grind arith in rw new (ap suc (count_since-all oldest t ts e a))
]

Ascending-append :
    (lo now : ℕ) (ts : List ℕ)
    → Ascending lo ts
    → last_of lo ts ≤ now
    → Ascending lo (ts ++ now ∷ []) × (last_of lo (ts ++ now ∷ []) ≡ now)
Ascending-append lo now [] a h = ((h, tt), refl)
Ascending-append lo now (t ∷ ts) (le, a) h =
    let (b, e) = Ascending-append t now ts a h in ((le, b), e)

-- The array has what the specification's list has in the window, and the list is in order.
record Simulates (max_count window last : ℕ) (r : EventRate) (passed : List ℕ) : Type 0 where
  tracks : Tracks r last passed
  capacity : r.max_count ≡ max_count
  same_window : r.window ≡ window
  in_order : Ascending 0 passed
  not_later : last_of 0 passed ≤ last

if_either :
    (P : List ℕ → Type 0) (b : Bool) (xs ys : List ℕ) → P xs → P ys → P (if b then xs else ys)
if_either P true xs ys h k = h
if_either P false xs ys h k = k

module _ {max_count window : ℕ} where
  -- Both refuse, or both let the event pass.
  check-agrees :
      (now last : ℕ) (r : EventRate) (passed : List ℕ)
      → Simulates max_count window last r passed
      → last ≤ now
      → (check now r).1 ≡ (spec_check max_count window now passed).1
  unfolding check spec_check
  check-agrees now last r passed v h =
      let e : length (kept r now) ≡ count_since (now - window) passed =
        ap length (kept-Tracks now last r passed v.tracks h)
        ∙ ap (λ k. length (expire_before (now - k) passed)) v.same_window
        ∙ sym (count_since-length (now - window) 0 passed v.in_order) in
      ground (arith, e, v.capacity)

  check-Simulates :
      (now last : ℕ) (r : EventRate) (passed : List ℕ)
      → Simulates max_count window last r passed
      → last ≤ now
      → Simulates max_count window now (check now r).0 (spec_check max_count window now passed).0
  unfolding spec_check
  check-Simulates now last r passed v h =
      let (same, most) = check-window now r in
      let (order, latest) = Ascending-append 0 now passed v.in_order (omega (arith, v.not_later)) in
      let joint = check-agrees now last r passed v h in
      let t = check-Tracks now last r passed v.tracks h in
      let passes = λ (b : Bool). if b then passed else passed ++ now ∷ [] in
      let step : (spec_check max_count window now passed).0 ≡ passes (check now r).1 =
        ground (arith, joint) in
      rw step (record {
        tracks = t;
        capacity = most ∙ v.capacity;
        same_window = same ∙ v.same_window;
        in_order =
            if_either (Ascending 0) (check now r).1 passed (passed ++ now ∷ []) v.in_order order;
        not_later =
            if_either (λ l. last_of 0 l ≤ now) (check now r).1 passed (passed ++ now ∷ [])
              (omega (arith, v.not_later)) (omega (arith, latest));
      })

  answers-spec :
      (ts : List ℕ) (last : ℕ) (r : EventRate) (passed : List ℕ)
      → Simulates max_count window last r passed
      → Ascending last ts
      → answers ts r ≡ spec_answers max_count window ts passed
  unfolding answers spec_answers
  answers-spec [] last r passed v a = refl
  answers-spec (now ∷ ts) last r passed v (le, a) = ap₂ ◌∷◌ (check-agrees now last r passed v le) (
      answers-spec ts now (check now r).0 (spec_check max_count window now passed).0
        (check-Simulates now last r passed v le) a)

-- At ascending times the class answers every check as the specification does: it throws exactly when
-- at least `max_count` of all the events that have passed lie in the window.
pub answers-refines :
    (max_count window : ℕ) (ts : List ℕ)
    → Ascending 0 ts
    → answers ts (idle_rate max_count window) ≡ spec_answers max_count window ts []
unfolding expire_before
answers-refines max_count window ts a =
    answers-spec ts 0 (idle_rate max_count window) []
      (record {
        tracks = record { recent = refl; bounded = omega arith };
        capacity = refl;
        same_window = refl;
        in_order = tt;
        not_later = omega arith;
      })
      a
