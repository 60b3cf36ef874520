-- ===== src/Server/MemoryTimer.antt =====
-- source/Server.cpp: scheduleMemoryLogging and handleMemoryLogTimer.
use smartmet_server.Base.{
  ℕ, List, Option, if◌then◌else◌, none, arith, [], true, some, Bool, false, refl, ltb, ◌==◌, ◌≤◌,
  ◌∷◌, ◌-◌, ◌||◌, ◌<◌, ◌++◌, ◌≡◌, ◌+◌, ap, ◌∙◌,
}
use smartmet_server.World.{ErrorCode, failure, success, eof, operation_aborted, is_error}
use smartmet_server.Text.{Bytes}

pub record MemoryTimer : Type 0 where
  pub period : ℕ
  pub shutdown_requested : Bool
  -- the waits that were started and not completed
  pub waiting : ℕ
  -- the waits that were ever started
  pub started : ℕ
  -- the lines of the log, newest first
  pub lines : List Bytes

-- `scheduleMemoryLogging`
unfoldable pub schedule_logging : MemoryTimer → MemoryTimer
schedule_logging s = record s { waiting = s.waiting + 1; started = s.started + 1 }

-- What the constructor does about the log.
unfoldable pub start_logging : MemoryTimer → MemoryTimer
start_logging s = if ltb 0 s.period then schedule_logging s else s

abbrev pub written_line : Option Bytes → MemoryTimer → MemoryTimer
written_line none s = s
written_line (some l) s = record s { lines = l ∷ s.lines }

-- `handleMemoryLogTimer`, where `line` is what readAndLogMemoryUsage writes; `none` also where it
-- throws.
unfoldable pub handle_memory_log_timer : ErrorCode → Option Bytes → MemoryTimer → MemoryTimer
unfolding schedule_logging
handle_memory_log_timer ec line s =
    if is_error ec || s.shutdown_requested then s else schedule_logging (written_line line s)

pub data TimerEvent : Type 0 where
  expires : ErrorCode → Option Bytes → TimerEvent
  shuts_down : TimerEvent

-- A wait completes only if one was started.
unfoldable pub timer_step : TimerEvent → MemoryTimer → MemoryTimer
unfolding handle_memory_log_timer
timer_step (expires ec line) s =
    if s.waiting == 0
    then s
    else handle_memory_log_timer ec line (record s { waiting = s.waiting - 1 })
timer_step shuts_down s = record s { shutdown_requested = true }

unfoldable pub timer_run : List TimerEvent → MemoryTimer → MemoryTimer
timer_run [] s = s
timer_run (e ∷ es) s = timer_run es (timer_step e s)

abbrev pub new_timer : ℕ → MemoryTimer
new_timer period = record {
  period = period;
  shutdown_requested = false;
  waiting = 0;
  started = 0;
  lines = [];
}

-- Every completion so far was without an error, and no shutdown was requested.
abbrev pub undisturbed : List TimerEvent → Bool
undisturbed [] = true
undisturbed (expires success line ∷ es) = undisturbed es
undisturbed (_ ∷ es) = false

-- The lines that the completions give, newest first, in front of those before.
abbrev pub lines_of : List TimerEvent → List Bytes → List Bytes
lines_of [] ls = ls
lines_of (expires ec (some l) ∷ es) ls = lines_of es (l ∷ ls)
lines_of (_ ∷ es) ls = lines_of es ls

timer_run-undisturbed :
    (es : List TimerEvent) (s : MemoryTimer)
    → undisturbed es ≡ true
    → s.waiting ≡ 1
    → s.shutdown_requested ≡ false
    → ((timer_run es s).lines ≡ lines_of es s.lines) × ((timer_run es s).waiting ≡ 1)
unfolding timer_run timer_step
timer_run-undisturbed [] s u one d = (refl, one)
timer_run-undisturbed (expires success none ∷ es) s u one d =
    ground (arith, timer_run-undisturbed es (timer_step (expires success none) s))
timer_run-undisturbed (expires success (some l) ∷ es) s u one d =
    ground (arith, timer_run-undisturbed es (timer_step (expires success (some l)) s))
timer_run-undisturbed (expires eof line ∷ es) s u one d = absurd (cc u)
timer_run-undisturbed (expires operation_aborted line ∷ es) s u one d = absurd (cc u)
timer_run-undisturbed (expires (failure n) line ∷ es) s u one d = absurd (cc u)
timer_run-undisturbed (shuts_down ∷ es) s u one d = absurd (cc u)

timer_run-stopped :
    (es : List TimerEvent) (s : MemoryTimer)
    → s.shutdown_requested ≡ true
    → ((timer_run es s).lines ≡ s.lines)
      × ((timer_run es s).waiting ≤ s.waiting)
      × ((timer_run es s).started ≡ s.started)
unfolding timer_run timer_step
timer_run-stopped [] s d = (refl, omega arith, refl)
timer_run-stopped (expires ec line ∷ es) s d =
    ground (arith, timer_run-stopped es (timer_step (expires ec line) s))
timer_run-stopped (shuts_down ∷ es) s d =
    ground (arith, timer_run-stopped es (timer_step shuts_down s))

timer_run-append :
    (es fs : List TimerEvent) (s : MemoryTimer)
    → timer_run (es ++ fs) s ≡ timer_run fs (timer_run es s)
unfolding timer_run
timer_run-append [] fs s = refl
timer_run-append (e ∷ es) fs s = timer_run-append es fs (timer_step e s)

-- With a period the log is written at every expiry until the shutdown and never after it: as long as
-- nothing disturbs the timer one wait is pending and each expiry has added its line, and whatever
-- happens after the shutdown adds no line and starts no wait.
pub timer_run-until_shutdown :
    (period : ℕ) (es fs : List TimerEvent)
    → 0 < period
    → undisturbed es ≡ true
    → let s = start_logging (new_timer period) in
      let t = timer_run (es ++ shuts_down ∷ fs) s in
      (t.lines ≡ lines_of es [])
      × (t.waiting ≤ 1)
      × (t.started ≡ (timer_run es s).started)
      × ((timer_run es s).waiting ≡ 1)
unfolding start_logging schedule_logging timer_run timer_step
timer_run-until_shutdown period es fs p u =
    let s = start_logging (new_timer period) in
    let (lines, one) = timer_run-undisturbed es s u (ground arith) (ground arith) in
    let (same, fewer, none_started) =
      timer_run-stopped fs (timer_step shuts_down (timer_run es s)) refl in
    let none_yet : s.lines ≡ [] = ground arith in
    rw (timer_run-append es (shuts_down ∷ fs) s)
      (same ∙ lines ∙ ap (lines_of es) none_yet, omega (arith, fewer, one), none_started, one)
