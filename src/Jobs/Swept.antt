-- ===== src/Jobs/Swept.antt =====
-- internal/jobscheduler/scheduler.go: what MarkForgottenRuns leaves behind.
pub mod Free
use wireops.Prelude.{
  ℕ, suc, ◌+◌, ◌≡◌, ◌⊎◌, inl, inr, refl, sym, ap, ◌∙◌, Bool, true, false, ◌&&◌, ◌||◌, not, Option,
  none, some, List, [], ◌∷◌, arith, Bool-cases, Option-cases, if◌then◌else◌, or_else, keep,
  some_inj, In, here, there, keep_iff, ltb,
}
use wireops.Go.Text.{Text, Text-cases, text_eq, text_eq_iff}
use wireops.Go.Int.{ℤ}
use wireops.Go.Value.{lookup}
use wireops.Go.Assoc.{put, lookup-put, lookup-put_other}
use wireops.Jobs.{
  JobRun, Store, RunStatus, RunError, query_failed, tick, is_running, is_pending, find_run,
  save_run, modify,
}
use wireops.Jobs.Sweep.{
  for_each, forget, give_up, is_older, max_job_run_duration, max_job_run_pending_duration,
  reconcile_single_running_run, reconcile_single_pending_run, runs_where, mark_forgotten_runs,
  reconcile_pending_runs,
}
use wireops.Jobs.Swept.Free.{
  IsFree, lookup-In, modify-IsFree, modify-frees, for_each-keeps, for_each-frees,
}

-- A run that runs for more than an hour with no save, and one that waits for more than 15 minutes.
abbrev pub is_forgotten : ℕ → JobRun → Bool
is_forgotten now r = is_running r.status && is_older max_job_run_duration now r

abbrev pub is_stuck : ℕ → JobRun → Bool
is_stuck now r = is_pending r.status && is_older max_job_run_pending_duration now r

module _ (timeout_ms : JobRun → ℤ) (now : ℕ) where
  forget-good :
      (r q : JobRun)
      → forget timeout_ms r ≡ some q
      → is_forgotten now (record q { updated = now }) ≡ false
  forget-good r q e = ground (arith, e)

  forget-left : (r : JobRun) → forget timeout_ms r ≡ none → is_forgotten now r ≡ false
  forget-left r e = ground (arith, e)

  give_up-not_forgotten :
      (r q : JobRun) → give_up r ≡ some q → is_forgotten now (record q { updated = now }) ≡ false
  give_up-not_forgotten r q e = ground (arith, e)

  give_up-good :
      (r q : JobRun) → give_up r ≡ some q → is_stuck now (record q { updated = now }) ≡ false
  give_up-good r q e = ground (arith, e)

  give_up-left : (r : JobRun) → give_up r ≡ none → is_stuck now r ≡ false
  give_up-left r e = ground (arith, e)

  module _ (fails : ℕ → Bool) where
    running_keeps :
        (x : Text × JobRun) (s : Store) (k : Text)
        → IsFree (is_forgotten now) s k
        → IsFree (is_forgotten now) (reconcile_single_running_run timeout_ms fails now x s).1 k
    unfolding reconcile_single_running_run
    running_keeps (id, seen) s k h = elim (Bool-cases (is_older max_job_run_duration now seen)) [
      | inl o ↦
          rw (o, reconcile_single_running_run)
            (modify-IsFree fails (is_forgotten now) now (forget timeout_ms) forget-good none _ id s
              k h)
      | inr o ↦ rw (o, reconcile_single_running_run) h
    ]

    pending_keeps :
        (bad : JobRun → Bool)
        → ((r q : JobRun) → give_up r ≡ some q → bad (record q { updated = now }) ≡ false)
        → (x : Text × JobRun) (s : Store) (k : Text) → IsFree bad s k
        → IsFree bad (reconcile_single_pending_run timeout_ms fails now x s).1 k
    unfolding reconcile_single_pending_run
    pending_keeps bad good (id, seen) s k h =
        elim (Bool-cases (is_older max_job_run_pending_duration now seen)) [
          | inl o ↦
              rw (o, reconcile_single_pending_run)
                (modify-IsFree fails bad now give_up good none _ id s k h)
          | inr o ↦ rw (o, reconcile_single_pending_run) h
        ]

    module _ (works : (n : ℕ) → fails n ≡ false) where
      running_frees :
          (id : Text) (r : JobRun) (s : Store)
          → is_older max_job_run_duration now r ≡ true
          → IsFree
              (is_forgotten now)
              (reconcile_single_running_run timeout_ms fails now (id, r) s).1
              id
      unfolding reconcile_single_running_run
      running_frees id r s o =
          rw (o, reconcile_single_running_run)
            (modify-frees fails (is_forgotten now) now (forget timeout_ms) forget-good works
              forget-left none _ id s)

      pending_frees :
          (id : Text) (r : JobRun) (s : Store)
          → is_older max_job_run_pending_duration now r ≡ true
          → IsFree (is_stuck now) (reconcile_single_pending_run timeout_ms fails now (id, r) s).1 id
      unfolding reconcile_single_pending_run
      pending_frees id r s o =
          rw (o, reconcile_single_pending_run)
            (modify-frees fails (is_stuck now) now give_up give_up-good works give_up-left none _ id
              s)

-- A sweep over all runs that pass the test frees every id, if a step frees the id of an old record.
sweep_all-frees :
    (test old : JobRun → Bool) (step : Text × JobRun → Store → Option RunError × Store)
    → ((x : Text × JobRun) (s : Store) (k : Text)
        → IsFree (λ r. test r && old r) s k
        → IsFree (λ r. test r && old r) (step x s).1 k)
    → ((id : Text) (r : JobRun) (s : Store)
        → old r ≡ true
        → IsFree (λ r. test r && old r) (step (id, r) s).1 id)
    → (first : Option RunError) (s : Store) (id : Text)
    → IsFree (λ r. test r && old r) (for_each step (runs_where test s) first (tick s)).1 id
sweep_all-frees test old step keeps frees first s id = elim (Option-cases (lookup s.runs id)) [
  | inl e ↦ kept (record { is_good = λ r k. absurd (cc (e, k)) })
  | inr (r, e) ↦ elim (Bool-cases (test r && old r)) [
    | inl b ↦ for_each-frees bad old step keeps frees id r first (tick s) (ground (arith, b)) (
        (keep_iff (λ (x : Text × JobRun). test x.1) (id, r) s.runs).1
          (lookup-In s.runs id e, ground (arith, b)))
    | inr b ↦ kept (record { is_good = λ q k. rw (← some_inj (sym e ∙ k)) b })
  ]
]
  where
    bad : JobRun → Bool
    bad r = test r && old r

    kept :
        IsFree bad (tick s) id → IsFree bad (for_each step (runs_where test s) first (tick s)).1 id
    kept h = for_each-keeps bad old step keeps (runs_where test s) first (tick s) id h

module _ (timeout_ms : JobRun → ℤ) (fails : ℕ → Bool) (works : (n : ℕ) → fails n ≡ false) where
  pending_runs-frees :
      (now : ℕ) (first : Option RunError) (s : Store) (id : Text)
      → IsFree (is_forgotten now) s id
      → IsFree (is_forgotten now) (reconcile_pending_runs timeout_ms fails now first s).1 id
        × IsFree (is_stuck now) (reconcile_pending_runs timeout_ms fails now first s).1 id
  unfolding reconcile_pending_runs
  pending_runs-frees now first s id h = rw (works s.calls) (
    for_each-keeps (is_forgotten now) (is_older max_job_run_pending_duration now) _
        (pending_keeps timeout_ms now fails (is_forgotten now)
          (give_up-not_forgotten timeout_ms now))
        _ first (tick s) id (record { is_good = h.is_good }),
    sweep_all-frees (λ r. is_pending r.status) (is_older max_job_run_pending_duration now) _
        (pending_keeps timeout_ms now fails (is_stuck now) (give_up-good timeout_ms now))
        (pending_frees timeout_ms now fails works) first s id,
  )

  -- After MarkForgottenRuns, with a database that takes every call, no run is running that was last saved
  -- more than an hour ago, and none is pending that was last saved more than 15 minutes ago.
  pub mark_forgotten_runs-sweeps :
      (now : ℕ) (s : Store) (id : Text) (r : JobRun)
      → lookup (mark_forgotten_runs timeout_ms fails now s).1.runs id ≡ some r
      → (is_forgotten now r ≡ false) × (is_stuck now r ≡ false)
  unfolding mark_forgotten_runs
  mark_forgotten_runs-sweeps now s id r e =
      let first_loop =
        for_each (reconcile_single_running_run timeout_ms fails now)
          (runs_where (λ q. is_running q.status) s) none (tick s) in
      let free =
        sweep_all-frees (λ q. is_running q.status) (is_older max_job_run_duration now) _
          (running_keeps timeout_ms now fails) (running_frees timeout_ms now fails works) none s
          id in
      let (a, b) = pending_runs-frees now first_loop.0 first_loop.1 id free in
      (a.is_good r (rw (works s.calls) at e), b.is_good r (rw (works s.calls) at e))
