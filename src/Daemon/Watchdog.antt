-- ===== src/Daemon/Watchdog.antt =====
-- main/smartmetd.cpp: sigint_watchdog. Its counter is a double: what the code does with it is a
-- parameter, since 0.05 is no exact double.
use smartmet_server.Base.{
  Option, ℕ, Bool, suc, false, some, none, true, zero, ◌+◌, if◌then◌else◌, ◌&&◌,
}
use smartmet_server.Daemon.Signals.{Signal, sigint, sigterm}

pub record Counter : Type 1 where
  pub Double : Type 0
  pub increment : Double → Double
  -- `std::max(0.0, x - 0.05)`
  pub decay : Double → Double
  -- `x > 5`
  pub above_five : Double → Bool

-- How the thread ends: by the cancellation, which interrupts a sleep, or by abort().
pub data WatchEnd : Type 0 where
  cancelled too_many : ℕ → WatchEnd
  gives_up : WatchEnd

abbrev pub is_request : Option Signal → Bool
is_request none = false
is_request (some sigint) = true
is_request (some sigterm) = true
is_request (some _) = false

-- last_signal after a signal has arrived, or none has.
abbrev pub newer_signal : Option Signal → Option Signal → Option Signal
newer_signal none old = old
newer_signal (some sig) old = some sig

module _ (counter : Counter) where
  open counter use {Double, increment, decay, above_five}

  -- The rounds from round `i` on; `cancel` and `arrives` say what happens in the sleep of a round.
  unfoldable pub watch :
      (ℕ → Bool) → (ℕ → Option Signal) → ℕ → ℕ → Option Signal → Double → WatchEnd
  watch cancel arrives zero i last count = gives_up
  watch cancel arrives (suc rounds) i last count =
      let sig = newer_signal (arrives i) last in
      let requested = is_request sig in
      let count' = if requested then increment count else decay count in
      let rest = watch cancel arrives rounds (i + 1) (if requested then none else sig) count' in
      if cancel i then cancelled i else if requested && above_five count' then too_many i else rest

  unfoldable pub sigint_watchdog :
      (ℕ → Bool) → (ℕ → Option Signal) → Option Signal → Double → WatchEnd
  sigint_watchdog cancel arrives last count = watch cancel arrives 1200 0 last count
