-- ===== src/Daemon/EventRate.antt =====
-- main/smartmetd.cpp: MaxEventFreq, which lets an event pass only while fewer than `max_count` passed in
-- the time window. The array is the list of its first itsCount entries, the oldest first; times are
-- those of a steady clock.
use smartmet_server.Base.{
  leb, ltb, false, [], length, true, ℕ, Bool, List, ◌∷◌, ◌++◌, ◌-◌, if◌then◌else◌, suc, arith,
  length-append, refl, ◌≤◌, ◌≡◌, ap, ◌∙◌,
}

pub record EventRate : Type 0 where
  pub max_count : ℕ
  pub window : ℕ
  pub times : List ℕ

-- The first loop, and the second, which moves the rest to the front.
unfoldable pub expire_before : ℕ → List ℕ → List ℕ
expire_before oldest [] = []
expire_before oldest (t ∷ ts) = if ltb t oldest then expire_before oldest ts else t ∷ ts

-- `now - window`, on a clock that may have started less than the window ago: nothing is older then.
abbrev pub oldest_kept : EventRate → ℕ → ℕ
oldest_kept r now = now - r.window

abbrev pub kept : EventRate → ℕ → List ℕ
kept r now = expire_before (oldest_kept r now) r.times

-- `check`: the new state, and whether it threw.
unfoldable pub check : ℕ → EventRate → EventRate × Bool
unfolding expire_before
check now r =
    if leb r.max_count (length (kept r now))
    then (record r { times = kept r now }, true)
    else (record r { times = kept r now ++ now ∷ [] }, false)

-- A run of checks at given times, with all the times that passed so far.
unfoldable pub checks : List ℕ → EventRate → List ℕ → EventRate × List ℕ
checks [] r passed = (r, passed)
checks (now ∷ ts) r passed =
    let (r', threw) = check now r in checks ts r' (if threw then passed else passed ++ now ∷ [])

-- The clock does not run backwards.
abbrev pub Ascending : ℕ → List ℕ → Type 0
Ascending last [] = Unit
Ascending last (t ∷ ts) = (last ≤ t) × Ascending t ts

abbrev pub last_of : ℕ → List ℕ → ℕ
last_of last [] = last
last_of last (t ∷ ts) = last_of t ts

-- How many of the times are not older than `oldest`.
unfoldable pub count_since : ℕ → List ℕ → ℕ
count_since oldest [] = 0
count_since oldest (t ∷ ts) =
    if ltb t oldest then count_since oldest ts else suc (count_since oldest ts)

expire_before-expire_before :
    (a b : ℕ) (ts : List ℕ) → a ≤ b → expire_before b (expire_before a ts) ≡ expire_before b ts
unfolding expire_before
expire_before-expire_before a b [] h = refl
expire_before-expire_before a b (t ∷ ts) h = ground (arith, expire_before-expire_before a b ts h)

length-expire_before-le : (a : ℕ) (ts : List ℕ) → length (expire_before a ts) ≤ length ts
unfolding expire_before
length-expire_before-le a [] = omega arith
length-expire_before-le a (t ∷ ts) = ground (arith, length-expire_before-le a ts)

expire_before-append :
    (a now : ℕ) (ts : List ℕ)
    → a ≤ now
    → expire_before a (ts ++ now ∷ []) ≡ expire_before a ts ++ now ∷ []
unfolding expire_before
expire_before-append a now [] h = ground arith
expire_before-append a now (t ∷ ts) h = ground (arith, expire_before-append a now ts h)

count_since-le : (a : ℕ) (ts : List ℕ) → count_since a ts ≤ length ts
unfolding count_since
count_since-le a [] = omega arith
count_since-le a (t ∷ ts) = ground (arith, count_since-le a ts)

count_since-expire_before : (a : ℕ) (ts : List ℕ) → count_since a ts ≤ length (expire_before a ts)
unfolding count_since expire_before
count_since-expire_before a [] = omega arith
count_since-expire_before a (t ∷ ts) =
    ground (arith, count_since-expire_before a ts, count_since-le a ts)

-- The array holds what passed within the window, and does not overflow.
pub record Tracks (r : EventRate) (last : ℕ) (passed : List ℕ) : Type 0 where
  pub recent : r.times ≡ expire_before (last - r.window) passed
  pub bounded : length r.times ≤ r.max_count

-- What check keeps is what it would keep of all the events.
pub kept-Tracks :
    (now last : ℕ) (r : EventRate) (passed : List ℕ)
    → Tracks r last passed
    → last ≤ now
    → kept r now ≡ expire_before (now - r.window) passed
kept-Tracks now last r passed v h =
    rw v.recent
      (expire_before-expire_before (last - r.window) (now - r.window) passed (omega arith))

pub check-Tracks :
    (now last : ℕ) (r : EventRate) (passed : List ℕ)
    → Tracks r last passed
    → last ≤ now
    → Tracks (check now r).0 now (if (check now r).1 then passed else passed ++ now ∷ [])
unfolding check
check-Tracks now last r passed v h =
    let b = now - r.window in
    let e = kept-Tracks now last r passed v h in
    ground (
      arith,
      e,
      length-expire_before-le b r.times,
      expire_before-append b now passed,
      length-append (kept r now) (now ∷ []),
    )

checks-Tracks :
    (ts : List ℕ) (last : ℕ) (r : EventRate) (passed : List ℕ)
    → Tracks r last passed
    → Ascending last ts
    → Tracks (checks ts r passed).0 (last_of last ts) (checks ts r passed).1
unfolding checks
checks-Tracks [] last r passed v h = v
checks-Tracks (now ∷ ts) last r passed v (le, h) =
    checks-Tracks ts now (check now r).0 (if (check now r).1 then passed else passed ++ now ∷ [])
      (check-Tracks now last r passed v le) h

pub check-window :
    (now : ℕ) (r : EventRate)
    → ((check now r).0.window ≡ r.window) × ((check now r).0.max_count ≡ r.max_count)
unfolding check
check-window now r = ground arith

checks-window :
    (ts : List ℕ) (r : EventRate) (passed : List ℕ)
    → ((checks ts r passed).0.window ≡ r.window) × ((checks ts r passed).0.max_count ≡ r.max_count)
unfolding checks
checks-window [] r passed = (refl, refl)
checks-window (now ∷ ts) r passed = ground (
  arith,
  check-window now r,
  checks-window ts (check now r).0 (if (check now r).1 then passed else passed ++ now ∷ []),
)

-- The limiter before the first event.
abbrev pub idle_rate : ℕ → ℕ → EventRate
idle_rate max_count window = record { max_count = max_count; window = window; times = [] }

-- At ascending times, starting from no event: the array never holds more entries than it has room for,
-- and among the events that passed at most `max_count` lie within the window before the last check.
pub checks_limit :
    (max_count window : ℕ) (ts : List ℕ)
    → Ascending 0 ts
    → let (r, passed) = checks ts (idle_rate max_count window) [] in
      (length r.times ≤ max_count) × (count_since (last_of 0 ts - window) passed ≤ max_count)
unfolding expire_before
checks_limit max_count window ts h =
    let r = (checks ts (idle_rate max_count window) []).0 in
    let passed = (checks ts (idle_rate max_count window) []).1 in
    let v =
      checks-Tracks ts 0 (idle_rate max_count window) []
        (record { recent = refl; bounded = omega arith }) h in
    let same = checks-window ts (idle_rate max_count window) [] in
    let held = count_since-expire_before (last_of 0 ts - window) passed in
    let recent : r.times ≡ expire_before (last_of 0 ts - window) passed =
      v.recent ∙ ap (λ n. expire_before (last_of 0 ts - n) passed) same.0 in
    let sizes : length r.times ≡ length (expire_before (last_of 0 ts - window) passed) =
      ap length recent in
    (omega (arith, v.bounded, same.1), omega (arith, v.bounded, same.1, held, sizes))
