-- ===== src/Deploy/Wait/Returns.antt =====
-- That the wait for running jobs comes to an end.
use wireops.Prelude.{
  ℕ, zero, suc, ◌+◌, ◌*◌, ◌/◌, ◌≡◌, ◌≤◌, ◌<◌, refl, inl, inr, true, Option, none, some, List, [],
  ◌∷◌, arith, ltb, Option-cases, Bool-cases, length,
}
use wireops.Go.Text.{Text, codes, text_eq}
use wireops.Go.Int.{ℤ, pos, negsuc}
use wireops.Jobs.{JobRun}
use wireops.Phases.{Tracker}
use wireops.Deploy.{Stack, Db}
use wireops.Deploy.Wait.{
  Environment, Ended, interrupted, unknown, cleared, expired, poll_interval, millisecond,
  timeout_of, is_past, deadline_of, is_off, active_at, decide, round, poll, wait_for, conclude,
  wait_for_running_jobs, wait_if, go_on, after_loop,
}

-- The number of looks within a deadline, the one behind it included.
abbrev pub rounds_of : ℤ → ℕ
rounds_of (pos d) = suc (d / (poll_interval * millisecond))
rounds_of (negsuc d) = 1

abbrev pub IsSome {ℓ} : {A : Type ℓ} → Option A → Type ℓ
IsSome {A = A} o = (a : A) × (o ≡ some a)

lt→ltb : {a b : ℕ} → a < b → ltb a b ≡ true
lt→ltb h = ground arith

deadline_is :
    (st : Stack)
    → st.wait_running_jobs ≡ codes "timeout"
    → deadline_of st ≡ some (timeout_of st.wait_running_jobs_timeout_seconds)
unfolding text_eq
deadline_is st policy = rw policy refl

module _ (env : Environment) where
  poll-step :
      (fuel : ℕ) (repo : Text) (deadline : Option ℤ) (n : ℕ)
      → IsSome (poll env fuel repo deadline (suc n))
      → IsSome (poll env (suc fuel) repo deadline n)
  unfolding poll
  poll-step fuel repo deadline n (e, h) = elim (Option-cases (round env repo deadline n)) [
    | inl none_yet ↦ (e, rw (none_yet, poll) h)
    | inr (f, now) ↦ (f, rw (now, poll) refl)
  ]

  -- Fuel up to the look that ends the loop is enough.
  pub poll-enough :
      (k : ℕ) (repo : Text) (deadline : Option ℤ) (n m : ℕ)
      → n + k ≡ m
      → IsSome (round env repo deadline m)
      → IsSome (poll env (suc k) repo deadline n)
  unfolding poll
  poll-enough zero repo deadline n m at (e, h) =
      let same : n ≡ m = omega (arith, at) in (e, rw (same, poll, h) refl)
  poll-enough (suc k) repo deadline n m at h =
      poll-step (suc k) repo deadline n
        (poll-enough k repo deadline (suc n) m (omega (arith, at)) h)

  late_look :
      (repo : Text) (deadline : ℤ) (n : ℕ)
      → is_past (some deadline) (env.clock 0) (env.clock n) ≡ true
      → IsSome (round env repo (some deadline) n)
  unfolding decide round
  late_look repo deadline n h = elim (Option-cases (env.cancelled n)) [
    | inr (e, c) ↦ (interrupted n e, rw (c, round) refl)
    | inl c ↦ rw (c, round) (decided (active_at env repo n))
  ]
    where
      decided : (o : Option (List (Text × JobRun))) → IsSome (decide env (some deadline) n o)
      decided none = (unknown n, refl)
      decided (some []) = (cleared n, refl)
      decided (some (x ∷ xs)) = (expired n (length (x ∷ xs)), rw h refl)

  module _ (ticks : (n : ℕ) → env.clock n + poll_interval ≤ env.clock (suc n)) where
    clock-grows : (n : ℕ) → env.clock 0 + poll_interval * n ≤ env.clock n
    clock-grows zero = omega arith
    clock-grows (suc n) = omega (arith, clock-grows n, ticks n)

    past_in_time : (d : ℤ) → is_past (some d) (env.clock 0) (env.clock (rounds_of d)) ≡ true
    unfolding is_past
    past_in_time (pos d) = lt→ltb (omega (arith, clock-grows (rounds_of (pos d))))
    past_in_time (negsuc d) = lt→ltb (omega (arith, clock-grows 1))

  poll-in_time :
      (d : ℤ) (repo : Text) (ticks : (n : ℕ) → env.clock n + poll_interval ≤ env.clock (suc n))
      → IsSome (poll env (rounds_of d) repo (some d) 1)
  poll-in_time (pos d) repo ticks =
      poll-enough (d / (poll_interval * millisecond)) repo (some (pos d)) 1 (rounds_of (pos d))
        (omega arith) (late_look repo (pos d) _ (past_in_time ticks (pos d)))
  poll-in_time (negsuc d) repo ticks =
      poll-enough 0 repo (some (negsuc d)) 1 1 (omega arith)
        (late_look repo (negsuc d) 1 (past_in_time ticks (negsuc d)))

  after_loop-IsSome :
      (id : Text) (w : Option (Text × Tracker)) (st : Stack) (db : Db) (o : Option Ended)
      → IsSome o
      → IsSome (after_loop env id w st db o)
  unfolding after_loop
  after_loop-IsSome id w st db none (e, h) = cc h
  after_loop-IsSome id w st db (some e) h = (conclude env id w st db e, refl)

  looked :
      (fuel : ℕ) (new_id repo id trigger commit : Text) (st : Stack) (db : Db)
      (o : Option (List (Text × JobRun)))
      → IsSome (poll env fuel repo (deadline_of st) 1)
      → IsSome (wait_if env fuel new_id repo id trigger commit st db o)
  unfolding wait_if wait_for
  looked fuel new_id repo id trigger commit st db none h = (_, refl)
  looked fuel new_id repo id trigger commit st db (some []) h = (_, refl)
  looked fuel new_id repo id trigger commit st db (some (x ∷ xs)) h =
      after_loop-IsSome id _ st _ (poll env fuel repo (deadline_of st) 1) h

  -- Once the loop ends, so does the call.
  wait-IsSome :
      (fuel : ℕ) (new_id repo id trigger commit : Text) (st : Stack) (db : Db)
      → IsSome (poll env fuel repo (deadline_of st) 1)
      → IsSome (wait_for_running_jobs env fuel new_id repo id trigger commit st db)
  unfolding wait_for_running_jobs
  wait-IsSome fuel new_id repo id trigger commit st db h = elim (Bool-cases (is_off st)) [
    | inl off ↦ (go_on env st db, rw (off, wait_for_running_jobs) refl)
    | inr on ↦
        rw (on, wait_for_running_jobs)
          (looked fuel new_id repo id trigger commit st db (active_at env repo 0) h)
  ]

  -- Whatever the policy is: where some look finds no active run, does not reach the database or comes after
  -- the context's end, the call returns at this look at the latest.
  pub wait_for_running_jobs-returns :
      (n : ℕ) (new_id repo id trigger commit : Text) (st : Stack) (db : Db)
      → IsSome (round env repo (deadline_of st) (suc n))
      → IsSome (wait_for_running_jobs env (suc n) new_id repo id trigger commit st db)
  wait_for_running_jobs-returns n new_id repo id trigger commit st db h =
      wait-IsSome (suc n) new_id repo id trigger commit st db
        (poll-enough n repo (deadline_of st) 1 (suc n) (omega arith) h)

  -- A wait whose policy has a deadline ends: with polls at least five seconds apart, the fuel for the looks
  -- within the timeout and the one behind it is enough, whatever the database and the context do.
  pub wait_for_running_jobs-timeout_returns :
      (ticks : (n : ℕ) → env.clock n + poll_interval ≤ env.clock (suc n))
      → (new_id repo id trigger commit : Text) (st : Stack) (db : Db)
      → st.wait_running_jobs ≡ codes "timeout"
      → IsSome (
          wait_for_running_jobs env
            (rounds_of (timeout_of st.wait_running_jobs_timeout_seconds))
            new_id
            repo
            id
            trigger
            commit
            st
            db)
  wait_for_running_jobs-timeout_returns ticks new_id repo id trigger commit st db policy =
      let d = timeout_of st.wait_running_jobs_timeout_seconds in
      wait-IsSome (rounds_of d) new_id repo id trigger commit st db
        (rw (deadline_is st policy) (poll-in_time d repo ticks))
