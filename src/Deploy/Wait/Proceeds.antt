-- ===== src/Deploy/Wait/Proceeds.antt =====
-- When a deploy that may have to wait goes on.
use wireops.Prelude.{sym, ◌≤◌, order-cases}
use mathlib.Core.Path.{subst}
use wireops.Prelude.{some_inj, ap, ◌∙◌}
use wireops.Prelude.{
  ℕ, ◌≡◌, ◌<◌, refl, ◌⊎◌, inl, inr, true, Option, none, some, List, [], ◌∷◌, arith, Bool-cases,
}
use wireops.Go.Text.{Text}
use wireops.Go.Int.{ℤ}
use wireops.Jobs.{JobRun}
use wireops.Phases.{Tracker}
use wireops.Deploy.{Stack, Db}
use wireops.Deploy.Wait.{
  Environment, Ended, interrupted, unknown, cleared, expired, Waited, deadline_of, is_off,
  active_at, poll, conclude, wait_for, wait_if, after_loop, wait_for_running_jobs,
}
use wireops.Deploy.Wait.Looks.{
  IsFree, look_of, IsSeen, poll-IsSeen, poll-first, poll-enough, poll-too_few,
}

-- The call makes `n` looks in its loop and then returns the result: with fuel for fewer it has none.
abbrev pub EndsAt : (ℕ → Option Waited) → Waited → ℕ → Type 0
EndsAt call r n = ((k : ℕ) → n ≤ k → call k ≡ some r) × ((k : ℕ) → k < n → call k ≡ none)

no_loop : (call : ℕ → Option Waited) (r : Waited) → ((k : ℕ) → call k ≡ some r) → EndsAt call r 0
no_loop call r h = (λ k b. h k, λ k b. absurd (omega (arith, b)))

module _ (env : Environment) where
  -- Among the ends, those without an error are looks that were free.
  conclude-IsFree :
      (repo id : Text) (w : Option (Text × Tracker)) (st : Stack) (db : Db) (e : Ended)
      → IsSeen env repo (deadline_of st) e
      → (conclude env id w st db e).error ≡ none
      → IsFree (active_at env repo (look_of e))
  unfolding conclude
  conclude-IsFree repo id w st db (cleared n) seen h = rw seen tt
  conclude-IsFree repo id w st db (unknown n) seen h = rw seen tt
  conclude-IsFree repo id w st db (interrupted n e) seen h = cc h
  conclude-IsFree repo id w st db (expired n k) seen h = cc h

  after_loop-IsFree :
      (repo id : Text) (w : Option (Text × Tracker)) (st : Stack) (db : Db) (o : Option Ended)
      (r : Waited)
      → ((e : Ended) → o ≡ some e → IsSeen env repo (deadline_of st) e)
      → after_loop env id w st db o ≡ some r
      → r.error ≡ none
      → (e : Ended) × (o ≡ some e) × IsFree (active_at env repo (look_of e))
  unfolding after_loop
  after_loop-IsFree repo id w st db none r seen h ok = cc h
  after_loop-IsFree repo id w st db (some e) r seen h ok = (
    e,
    refl,
    conclude-IsFree repo id w st db e (seen e refl) (ap (λ x. x.error) (some_inj h) ∙ ok),
  )

  -- The first look that does not hold the deploy back.
  abbrev pub IsReleased : Text → ℕ → ℕ → Type 0
  IsReleased repo fuel n =
      (n ≤ fuel)
      × IsFree (active_at env repo n)
      × ((m : ℕ) → m < n → IsFree (active_at env repo m) → ⊥)

  at_once : (repo : Text) (fuel : ℕ) → IsFree (active_at env repo 0) → IsReleased repo fuel 0
  at_once repo fuel f = (omega arith, f, λ m b. absurd (omega (arith, b)))

  in_loop :
      (repo : Text) (fuel : ℕ) (deadline : Option ℤ) (x : Text × JobRun) (xs : List (Text × JobRun))
      (e : Ended)
      → active_at env repo 0 ≡ some (x ∷ xs)
      → poll env fuel repo deadline 1 ≡ some e
      → IsFree (active_at env repo (look_of e))
      → IsReleased repo fuel (look_of e)
  in_loop repo fuel deadline x xs e at h free =
      let (from, upto, held) = poll-first env fuel repo deadline 1 e h in
      (
        omega (arith, upto),
        free,
        λ m b f. elim (order-cases 0 m) [
          | inl after ↦ held m (omega (arith, after)) b f
          | inr (inl same) ↦
              subst (λ o. IsFree o) at (subst (λ k. IsFree (active_at env repo k)) (sym same) f)
          | inr (inr early) ↦ absurd (omega (arith, early))
        ],
      )

  loop_ends :
      (fuel : ℕ) (repo id : Text) (w : Option (Text × Tracker)) (st : Stack) (db : Db)
      (deadline : Option ℤ) (e : Ended) (r : Waited)
      → poll env fuel repo deadline 1 ≡ some e
      → after_loop env id w st db (poll env fuel repo deadline 1) ≡ some r
      → EndsAt (λ k. after_loop env id w st db (poll env k repo deadline 1)) r (look_of e)
  unfolding after_loop
  loop_ends fuel repo id w st db deadline e r ended h = (
    λ k b.
        ap (after_loop env id w st db)
          (poll-enough env fuel k repo deadline 1 e ended (omega (arith, b)) ∙ sym ended)
        ∙ h,
    λ k b.
        ap (after_loop env id w st db)
          (poll-too_few env fuel k repo deadline 1 e ended (omega (arith, b))),
  )

  wait_if-free :
      (fuel : ℕ) (new_id repo id trigger commit : Text) (st : Stack) (db : Db)
      (o : Option (List (Text × JobRun))) (r : Waited)
      → active_at env repo 0 ≡ o
      → wait_if env fuel new_id repo id trigger commit st db o ≡ some r
      → r.error ≡ none
      → (n : ℕ) × IsReleased repo fuel n
        × EndsAt (λ k. wait_if env k new_id repo id trigger commit st db o) r n
  unfolding wait_if wait_for
  wait_if-free fuel new_id repo id trigger commit st db none r at h ok =
      (0, at_once repo fuel (rw at tt), no_loop _ r (λ k. h))
  wait_if-free fuel new_id repo id trigger commit st db (some []) r at h ok =
      (0, at_once repo fuel (rw at tt), no_loop _ r (λ k. h))
  wait_if-free fuel new_id repo id trigger commit st db (some (x ∷ xs)) r at h ok =
      let (e, ended, free) =
        after_loop-IsFree repo id _ st _ _ r (λ e. poll-IsSeen env fuel repo (deadline_of st) 1 e) h
          ok in
      (
        look_of e,
        in_loop repo fuel (deadline_of st) x xs e at ended free,
        loop_ends fuel repo id _ st _ (deadline_of st) e r ended h,
      )

  -- A deploy goes on only if the stack's policy is not to wait, or at a look at the jobs that found no
  -- active run of the repository, or got no answer; and it goes on at the first such look: each look
  -- before it found active runs, and the loop ends with the look, no sooner and no later, which shows
  -- in the fuel that the call needs.
  pub wait_for_running_jobs-proceeds :
      (fuel : ℕ) (new_id repo id trigger commit : Text) (st : Stack) (db : Db) (r : Waited)
      → wait_for_running_jobs env fuel new_id repo id trigger commit st db ≡ some r
      → r.error ≡ none
      → (is_off st ≡ true)
        ⊎ ((n : ℕ) × IsReleased repo fuel n
            × EndsAt (λ k. wait_for_running_jobs env k new_id repo id trigger commit st db) r n)
  unfolding wait_for_running_jobs
  wait_for_running_jobs-proceeds fuel new_id repo id trigger commit st db r h ok =
      elim (Bool-cases (is_off st)) [
        | inl off ↦ inl off
        | inr on ↦
            let (n, released, ends) =
              wait_if-free fuel new_id repo id trigger commit st db _ r refl (rw on at h) ok in
            inr (n, released, rw on ends)
      ]
