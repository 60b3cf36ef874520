-- ===== src/Server/Shutdown.antt =====
-- source/AsyncServer.cpp: the sections of run and shutdown, with shutdownServer of source/Server.cpp,
-- as steps of threads that interleave: run starts the pools under the executor lock, shutdown tears
-- them down under the same lock, and the reactor unloads the plugins at its end.
use smartmet_server.Base.{
  zero, suc, refl, not, ltb, Bool, false, [], List, arith, true, ℕ, ◌<◌, ◌≡◌, ◌==◌, ◌&&◌, ◌∷◌, ◌-◌,
  ◌+◌, if◌then◌else◌, ◌≤◌, Bool-cases, inr, inl, ◌⊎◌,
}
use smartmet_server.World.{Pool, fast, slow, admin}

pub data PoolCall : Type 0 where
  start_pool set_graceful stop_pool destroy_pool : PoolCall

pub data ServerCall : Type 0 where
  close_acceptor stop_io shutdown_reactor : ServerCall
  on_pool : PoolCall → Pool → ServerCall

pub record Running : Type 0 where
  pub shutdown_requested : Bool
  -- itsAdminExecutor is not null: the three are created and destroyed together
  pub has_executors : Bool
  -- the threads that left the locked section of shutdown and did not call the reactor yet
  pub leaving : ℕ
  -- the calls, newest first
  pub calls : List ServerCall

abbrev pub calls_on : PoolCall → List ServerCall → List ServerCall
calls_on k log = on_pool k fast ∷ on_pool k slow ∷ on_pool k admin ∷ log

-- The locked section of run.
unfoldable pub start_executors : Running → Running
start_executors s =
    if not s.shutdown_requested && s.has_executors
    then record s { calls = calls_on start_pool s.calls }
    else s

-- shutdownServer up to the wait for the workers.
unfoldable pub begin_shutdown : Running → Running
begin_shutdown s = record s {
  shutdown_requested = true;
  calls = stop_io ∷ close_acceptor ∷ s.calls;
}

-- The locked section of shutdown.
unfoldable pub tear_down : Running → Running
tear_down s =
    if s.has_executors
    then record s {
      has_executors = false;
      leaving = s.leaving + 1;
      calls = calls_on destroy_pool (calls_on stop_pool (calls_on set_graceful s.calls));
    }
    else record s { leaving = s.leaving + 1 }

-- The end of shutdown, in a thread that has left the locked section.
unfoldable pub finish_shutdown : Running → Running
finish_shutdown s =
    if s.leaving == 0
    then s
    else record s { leaving = s.leaving - 1; calls = shutdown_reactor ∷ s.calls }

pub data Section : Type 0 where
  starts begins tears_down finishes : Section

unfoldable pub run_section : Section → Running → Running
unfolding start_executors begin_shutdown tear_down finish_shutdown
run_section starts s = start_executors s
run_section begins s = begin_shutdown s
run_section tears_down s = tear_down s
run_section finishes s = finish_shutdown s

unfoldable pub run_sections : List Section → Running → Running
run_sections [] s = s
run_sections (x ∷ xs) s = run_sections xs (run_section x s)

-- The server when its constructor returns.
abbrev pub constructed : Running
constructed = record { shutdown_requested = false; has_executors = true; leaving = 0; calls = [] }

-- Whether a call on a pool was made.
abbrev same_call : PoolCall → PoolCall → Bool
same_call start_pool start_pool = true
same_call set_graceful set_graceful = true
same_call stop_pool stop_pool = true
same_call destroy_pool destroy_pool = true
same_call _ _ = false

abbrev same_pool : Pool → Pool → Bool
same_pool admin admin = true
same_pool slow slow = true
same_pool fast fast = true
same_pool _ _ = false

unfoldable pub was_called : PoolCall → Pool → List ServerCall → Bool
was_called k p [] = false
was_called k p (on_pool j q ∷ log) =
    if same_call k j && same_pool p q then true else was_called k p log
was_called k p (_ ∷ log) = was_called k p log

-- What a call may follow: no pool is used after its destruction, a pool is stopped gracefully, and
-- destroyed when it is stopped, and the reactor unloads the plugins when no pool is left.
unfoldable pub Allowed : ServerCall → List ServerCall → Type 0
Allowed close_acceptor log = Unit
Allowed stop_io log = Unit
Allowed shutdown_reactor log = (p : Pool) → was_called destroy_pool p log ≡ true
Allowed (on_pool start_pool p) log = was_called destroy_pool p log ≡ false
Allowed (on_pool set_graceful p) log = was_called destroy_pool p log ≡ false
Allowed (on_pool stop_pool p) log =
    (was_called destroy_pool p log ≡ false) × (was_called set_graceful p log ≡ true)
Allowed (on_pool destroy_pool p) log =
    (was_called destroy_pool p log ≡ false) × (was_called stop_pool p log ≡ true)

unfoldable pub IsLawful : List ServerCall → Type 0
IsLawful [] = Unit
IsLawful (call ∷ log) = Allowed call log × IsLawful log

record IsRunning (s : Running) : Type 0 where
  lawful : IsLawful s.calls
  destroyed : (p : Pool) → was_called destroy_pool p s.calls ≡ not s.has_executors
  leaves_none : 0 < s.leaving → s.has_executors ≡ false

start_executors-IsRunning : (s : Running) → IsRunning s → IsRunning (start_executors s)
unfolding start_executors IsLawful Allowed was_called
start_executors-IsRunning s v = record {
  lawful = grind (arith, v.lawful, v.destroyed admin, v.destroyed slow, v.destroyed fast);
  destroyed = λ p. grind (arith, v.destroyed p);
  leaves_none = grind (arith, v.leaves_none);
}

begin_shutdown-IsRunning : (s : Running) → IsRunning s → IsRunning (begin_shutdown s)
unfolding begin_shutdown IsLawful Allowed was_called
begin_shutdown-IsRunning s v = record {
  lawful = (tt, (tt, v.lawful));
  destroyed = v.destroyed;
  leaves_none = v.leaves_none;
}

was_called-calls_on :
    (p : Pool) (log : List ServerCall)
    → was_called destroy_pool p (calls_on destroy_pool log) ≡ true
unfolding was_called
was_called-calls_on admin log = refl
was_called-calls_on slow log = refl
was_called-calls_on fast log = refl

tear_down-IsRunning : (s : Running) → IsRunning s → IsRunning (tear_down s)
unfolding tear_down IsLawful Allowed was_called
tear_down-IsRunning s v = record {
  lawful = ground (arith, v.lawful, v.destroyed admin, v.destroyed slow, v.destroyed fast);
  destroyed = λ p. ground (
    arith,
    v.destroyed p,
    was_called-calls_on p (calls_on stop_pool (calls_on set_graceful s.calls)),
  );
  leaves_none = ground (arith, v.leaves_none);
}

finish_shutdown-IsRunning : (s : Running) → IsRunning s → IsRunning (finish_shutdown s)
unfolding finish_shutdown IsLawful Allowed was_called
finish_shutdown-IsRunning s v = ground (arith, v.lawful, v.destroyed, v.leaves_none)

run_section-IsRunning : (x : Section) (s : Running) → IsRunning s → IsRunning (run_section x s)
unfolding run_section
run_section-IsRunning starts s v = start_executors-IsRunning s v
run_section-IsRunning begins s v = begin_shutdown-IsRunning s v
run_section-IsRunning tears_down s v = tear_down-IsRunning s v
run_section-IsRunning finishes s v = finish_shutdown-IsRunning s v

run_sections-IsRunning :
    (xs : List Section) (s : Running) → IsRunning s → IsRunning (run_sections xs s)
unfolding run_sections
run_sections-IsRunning [] s v = v
run_sections-IsRunning (x ∷ xs) s v =
    run_sections-IsRunning xs (run_section x s) (run_section-IsRunning x s v)

-- In every interleaving of run with any number of shutdowns, no pool is started, stopped or destroyed
-- after its destruction, each is stopped gracefully before it is destroyed, and the reactor unloads
-- the plugins only when every pool is destroyed.
pub run_sections-IsLawful : (xs : List Section) → IsLawful (run_sections xs constructed).calls
unfolding IsLawful was_called
run_sections-IsLawful xs =
    (run_sections-IsRunning xs constructed (record {
      lawful = tt;
      destroyed = λ p. refl;
      leaves_none = λ h. absurd (omega arith);
    })).lawful

-- `for (waited = 0; running > 0 && waited < 2000; ++waited) sleep(5 ms)`: the sleeps, where `running`
-- gives the count of the workers at each test. The rounds are what is left of the 2000.
unfoldable pub sleeps_from : (ℕ → ℕ) → ℕ → ℕ → ℕ
sleeps_from running zero waited = waited
sleeps_from running (suc rounds) waited =
    let rest = sleeps_from running rounds (waited + 1) in
    if ltb 0 (running waited) then rest else waited

unfoldable pub await_workers : (ℕ → ℕ) → ℕ
await_workers running = sleeps_from running 2000 0

sleeps_from-bound :
    (running : ℕ → ℕ) (rounds waited : ℕ)
    → let n = sleeps_from running rounds waited in
      (waited ≤ n) × (n ≤ rounds + waited) × (n < rounds + waited → running n ≡ 0)
unfolding sleeps_from
sleeps_from-bound running zero waited = (omega arith, omega arith, λ h. absurd (omega (arith, h)))
sleeps_from-bound running (suc rounds) waited =
    ground (arith, sleeps_from-bound running rounds (waited + 1))

sleeps_from-busy :
    (running : ℕ → ℕ) (rounds waited i : ℕ)
    → waited ≤ i
    → i < sleeps_from running rounds waited
    → 0 < running i
unfolding sleeps_from
sleeps_from-busy running zero waited i a b = absurd (omega arith)
sleeps_from-busy running (suc rounds) waited i a b = elim (Bool-cases (i == waited)) [
  | inl same ↦ grind arith
  | inr other ↦ ground (arith, sleeps_from-busy running rounds (waited + 1) i)
]

-- Workers run at each of the first `n` tests.
unfoldable pub all_busy : (ℕ → ℕ) → ℕ → Bool
all_busy running zero = true
all_busy running (suc n) = ltb 0 (running n) && all_busy running n

all_busy_lem :
    (running : ℕ → ℕ) (n : ℕ) → ((i : ℕ) → i < n → 0 < running i) → all_busy running n ≡ true
unfolding all_busy
all_busy_lem running zero h = refl
all_busy_lem running (suc n) h =
    ground (arith, h n (omega arith), all_busy_lem running n (λ i lt. h i (omega arith)))

-- The wait for the workers ends, after 2000 sleeps at the latest: either no worker is left at the last
-- test, or it has slept 2000 times; and it has slept only while a worker ran.
pub await_workers-bound :
    (running : ℕ → ℕ)
    → let n = await_workers running in
      (n ≤ 2000) × ((running n ≡ 0) ⊎ (n ≡ 2000)) × (all_busy running n ≡ true)
unfolding await_workers
await_workers-bound running =
    let n = sleeps_from running 2000 0 in
    let (low, high, ends) = sleeps_from-bound running 2000 0 in
    (
      omega (arith, high),
      elim (Bool-cases (ltb n 2000)) [
        | inl below ↦ inl (ends (grind arith))
        | inr above ↦ inr (grind (arith, high))
      ],
      all_busy_lem running n (λ i lt. sleeps_from-busy running 2000 0 i (omega arith) lt),
    )
