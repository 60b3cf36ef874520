-- ===== src/Connection/Sequential.antt =====
-- A connection is sequential: of its operations at most one is outstanding, so that no two of its
-- handlers, the timer's apart, ever wait to run; and the induction over its histories that follows.
use smartmet_server.Connection.Session.{
  accepted, after, additions, started_since, completes, and_then, step, Reach, Event, timer_fires,
}
use smartmet_server.World.{World, ErrorCode}
use smartmet_server.Base.{
  append-nil, List, arith, [], refl, Bool, inr, inl, true, length, length-append, ◌≡◌, ◌++◌, ◌∷◌,
  ◌≤◌, suc, ℕ, ◌-◌, ap, some, Option, none,
}
use smartmet_server.Connection.Operations.{
  is_read, passes, Operation, Starts, operations, older, may_follow,
}
use smartmet_server.Connection.State.{Conn, Settings, create}
use smartmet_server.Connection.Awaiting.{awaits}
use smartmet_server.Connection.Protocol.{allowed, step-Starts}
use smartmet_server.Connection.Timer.{start, handle_timer}

module _ {ℓ} {A : Type ℓ} where
  additions-none : (xs : List A) → additions xs xs ≡ []
  unfolding additions
  additions-none xs = let e : length xs - length xs ≡ 0 = omega arith in rw e refl

  additions-one : (x : A) (xs : List A) → additions (x ∷ xs) xs ≡ x ∷ []
  unfolding additions
  additions-one x xs = let e : suc (length xs) - length xs ≡ 1 = omega arith in rw e refl

  -- Of a list with one element at most, the one that is taken is the only one.
  only_one : (xs : List A) (x : A) (ys : List A) → length (xs ++ x ∷ ys) ≤ 1 → (xs ≡ []) × (ys ≡ [])
  only_one [] x [] h = (refl, refl)
  only_one [] x (y ∷ ys) h = absurd (omega arith)
  only_one (z ∷ xs) x ys h = absurd (omega (arith, length-append xs (x ∷ ys)))

start-length :
    (w : World) (s : Settings) (count : ℕ)
    → length (operations (start count (create w s)).1.log) ≤ 1
unfolding start operations
start-length w s count = ground arith

module _ {w : World} where
  -- What a handler starts, as a list: nothing, or one operation that passes the test.
  data Single (p : Operation w.View → Bool) (d : Conn w) : List (Operation w.View) → Type 0 where
    nothing : Single p d []
    single : (o : Operation w.View) → p o ≡ true → is_read o ≡ awaits d.log → Single p d (o ∷ [])

  started_since-Single :
      (p : Operation w.View → Bool) (c d : Conn w) → Starts p c d → Single p d (started_since c d)
  unfolding started_since
  started_since-Single p c d (inl same) = rw (same, additions-none (operations c.log)) nothing
  started_since-Single p c d (inr (rest, h)) = from (operations d.log) rest h
    where
      from :
          (os : List (Operation w.View))
          → older os ≡ operations c.log
          → (passes p os ≡ true) × (passes is_read os ≡ awaits d.log)
          → Single p d (additions os (operations c.log))
      from [] e (a, b) = absurd (cc a)
      from (o ∷ os) e (a, b) = rw (← e, additions-one o os) (single o a b)

  length-Single :
      (p : Operation w.View → Bool) (d : Conn w) (os : List (Operation w.View))
      → Single p d os
      → length os ≤ 1
  length-Single p d os nothing = omega arith
  length-Single p d os (single o a b) = omega arith

  -- What the completion of an operation leaves outstanding, with what its handler starts.
  length-completion :
      (e : Event w) (os before rest new : List (Operation w.View)) (d : Conn w)
      → length os ≤ 1
      → os ≡ before ++ and_then (completes e) rest
      → Single (allowed e) d new
      → length (new ++ before ++ rest) ≤ 1
  unfolding allowed
  length-completion e os before rest new d l q nothing = ground (
    arith,
    length-append before rest,
    length-append before (and_then (completes e) rest),
    ap length q,
  )
  length-completion e os before rest new d l q (single o a b) = ground (
    arith,
    length-append before rest,
    length-append before (and_then (completes e) rest),
    ap length q,
  )

  -- Whatever events arrive in whatever order, a connection has at most one operation outstanding: one
  -- read, one write or one task of the thread pools.
  pub Reach-sequential :
      {s : Settings} {os : List (Operation w.View)} {c : Conn w} → Reach s os c → length os ≤ 1
  Reach-sequential {s} (accepted count) = start-length w s count
  Reach-sequential (after {os} {c} r e before rest q) =
      length-completion e os before rest (started_since c (step e c)) (step e c)
        (Reach-sequential r) q (started_since-Single (allowed e) c (step e c) (step-Starts e c))

-- Induction over the histories of a connection, one outstanding operation at a time.
module _ {w : World} (s : Settings) (P : List (Operation w.View) → Conn w → Type 0)
    (begins : (count : ℕ)
      → P (operations (start count (create w s)).1.log) (start count (create w s)).1)
    (fires : (os : List (Operation w.View)) (c : Conn w) (e : ErrorCode) (g : ℕ)
      → P os c
      → P os (handle_timer e g c))
    (ends : (o : Operation w.View) (c : Conn w) (e : Event w)
      → completes e ≡ some o
      → P (o ∷ []) c
      → P [] (step e c))
    (goes_on : (o o' : Operation w.View) (c : Conn w) (e : Event w)
      → completes e ≡ some o
      → P (o ∷ []) c
      → may_follow o o' ≡ true
      → is_read o' ≡ awaits (step e c).log
      → P (o' ∷ []) (step e c)) where
  completion :
      (e : Event w) (o : Operation w.View) (c : Conn w) (new : List (Operation w.View))
      → completes e ≡ some o
      → P (o ∷ []) c
      → Single (allowed e) (step e c) new
      → P new (step e c)
  unfolding allowed
  completion e o c new d h nothing = ends o c e d h
  completion e o c new d h (single o' a b) = goes_on o o' c e d h (rw (d, allowed) at a) b

  timer :
      (os : List (Operation w.View)) (e : Event w) (c : Conn w)
      → completes e ≡ none
      → P os c
      → P os (step e c)
  unfolding completes step
  timer os (timer_fires e g) c d h = fires os c e g h
  timer os _ c d h = absurd (cc)

  -- An event is the timer's, or completes the one operation that is outstanding.
  event :
      (e : Event w) (before rest new : List (Operation w.View)) (c : Conn w)
      (done : Option (Operation w.View))
      → completes e ≡ done
      → length (before ++ and_then done rest) ≤ 1
      → P (before ++ and_then done rest) c
      → Single (allowed e) (step e c) new
      → P (new ++ before ++ rest) (step e c)
  unfolding allowed
  event e before rest new c none d l h nothing = timer (before ++ rest) e c d h
  event e before rest new c none d l h (single o a b) =
      let a' = rw (d, allowed) at a in absurd (cc a')
  event e before rest new c (some o) d l h n =
      let (none_before, none_after) = only_one before o rest l in
      let h' : P (o ∷ []) c = rw (none_before, none_after) at h in
      rw (none_before, none_after, append-nil new, append-nil new) (completion e o c new d h' n)

  pub Reach-induction : {os : List (Operation w.View)} {c : Conn w} → Reach s os c → P os c
  Reach-induction (accepted count) = begins count
  Reach-induction (after {os} {c} r e before rest q) =
      event e before rest (started_since c (step e c)) c (completes e) refl
        (rw q at (Reach-sequential r)) (rw q at (Reach-induction r))
        (started_since-Single (allowed e) c (step e c) (step-Starts e c))
