-- ===== src/Server/Workers.antt =====
-- source/AsyncServer.cpp: the worker threads of run, and the count that shutdown waits for.
use smartmet_server.Base.{
  if◌then◌else◌, ℕ, List, arith, [], max, ◌<◌, ◌%◌, ◌∷◌, ◌⊎◌, ◌≡◌, ◌+◌, ◌-◌, ◌==◌, ◌^◌, inr, inl,
  false, Bool, true, refl, Bool-cases,
}
use smartmet_server.Server.Shutdown.{await_workers-bound, await_workers}

pub record Workers : Type 0 where
  -- itsRunningWorkers, a std::size_t
  pub running_workers : ℕ
  -- the threads that run has still to create
  pub to_create : ℕ
  -- the threads that were created and did not leave serverThreadFunction
  pub inside : ℕ
  -- whether run was called
  pub published : Bool

-- The constructor: `std::max(numThreads, 1)`.
abbrev pub thread_count : ℕ → ℕ
thread_count n = max n 1

abbrev pub no_workers : Workers
no_workers = record { running_workers = 0; to_create = 0; inside = 0; published = false }

-- run, which main calls once, publishes the count before it creates the first thread.
unfoldable pub publish : ℕ → Workers → Workers
publish n s =
    if s.published then s else record s { running_workers = n; to_create = n; published = true }

unfoldable pub create_thread : Workers → Workers
create_thread s =
    if s.to_create == 0 then s else record s { to_create = s.to_create - 1; inside = s.inside + 1 }

-- The guard's destructor, on the normal and the exceptional exit.
unfoldable pub leave : Workers → Workers
leave s = if s.inside == 0 then s else record s {
  running_workers = (s.running_workers + 2 ^ 64 - 1) % 2 ^ 64;
  inside = s.inside - 1;
}

pub data WorkerEvent : Type 0 where
  publishes creates leaves : WorkerEvent

-- The threads of a server with `n` of them.
unfoldable pub worker_step : ℕ → WorkerEvent → Workers → Workers
unfolding publish create_thread leave
worker_step n publishes s = publish n s
worker_step n creates s = create_thread s
worker_step n leaves s = leave s

unfoldable pub worker_run : ℕ → List WorkerEvent → Workers → Workers
worker_run n [] s = s
worker_run n (e ∷ es) s = worker_run n es (worker_step n e s)

-- The count is that of the threads inside and those to come, none before run is called, and fits its
-- type.
pub record IsCounting (s : Workers) : Type 0 where
  pub exact : s.running_workers ≡ s.to_create + s.inside
  pub small : s.running_workers < 2 ^ 64
  pub late : s.published ≡ false → s.running_workers ≡ 0

worker_step-IsCounting :
    (n : ℕ) (e : WorkerEvent) (s : Workers)
    → n < 2 ^ 64
    → IsCounting s
    → IsCounting (worker_step n e s)
unfolding worker_step
worker_step-IsCounting n publishes s h v = ground (arith, v.late)
worker_step-IsCounting n creates s h v = ground (arith, v.late)
worker_step-IsCounting n leaves s h v = ground (arith, v.late)

pub worker_run-IsCounting :
    (n : ℕ) (es : List WorkerEvent) (s : Workers)
    → n < 2 ^ 64
    → IsCounting s
    → IsCounting (worker_run n es s)
unfolding worker_run
worker_run-IsCounting n [] s h v = v
worker_run-IsCounting n (e ∷ es) s h v =
    worker_run-IsCounting n es (worker_step n e s) h (worker_step-IsCounting n e s h v)

-- Once run was called and its threads are gone, they are gone for good.
worker_run-gone :
    (n : ℕ) (es : List WorkerEvent) (s : Workers)
    → s.published ≡ true
    → s.to_create ≡ 0
    → s.inside ≡ 0
    → (worker_run n es s).inside ≡ 0
unfolding worker_run worker_step
worker_run-gone n [] s p c i = i
worker_run-gone n (publishes ∷ es) s p c i =
    ground (arith, worker_run-gone n es (worker_step n publishes s))
worker_run-gone n (creates ∷ es) s p c i =
    ground (arith, worker_run-gone n es (worker_step n creates s))
worker_run-gone n (leaves ∷ es) s p c i =
    ground (arith, worker_run-gone n es (worker_step n leaves s))

-- The loop of shutdown over a history of run and its workers, one prefix of it to a test; run may be
-- called before, during or after the wait. If the wait ends before its 2000 sleeps are over, no thread
-- is inside the function of the workers at its last test and none is to be created; and if run had
-- been called by then, no thread is inside after whatever follows.
pub await_workers-empty :
    (n : ℕ) (history : ℕ → List WorkerEvent) (more : List WorkerEvent)
    → n < 2 ^ 64
    → let at = λ (i : ℕ). worker_run n (history i) no_workers in
      let last = await_workers (λ i. (at i).running_workers) in
      (((at last).inside + (at last).to_create ≡ 0)
        × (((at last).published ≡ false) ⊎ ((worker_run n more (at last)).inside ≡ 0)))
      ⊎ (last ≡ 2000)
await_workers-empty n history more small =
    let at = λ (i : ℕ). worker_run n (history i) no_workers in
    let running = λ (i : ℕ). (at i).running_workers in
    let last = await_workers running in
    let (_, ends, _) = await_workers-bound running in
    let counted =
      worker_run-IsCounting n (history last) no_workers small
        (record { exact = omega arith; small = omega arith; late = λ p. refl }) in
    elim ends [
      | inl gone ↦ inl (
        omega (arith, counted.exact, gone),
        elim (Bool-cases (at last).published) [
          | inl p ↦ inr (
              worker_run-gone n more (at last) p (omega (arith, counted.exact, gone))
                (omega (arith, counted.exact, gone)))
          | inr p ↦ inl p
        ],
      )
      | inr late ↦ inr late
    ]
