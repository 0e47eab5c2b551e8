-- ===== src/Jobs/History/Forward.antt =====
-- No call takes a run back: what is running is not pending again, and what ended stays ended.
use wireops.Jobs.Sweep.{
  is_older, max_job_run_duration, max_job_run_pending_duration, reconcile_grace,
}
use wireops.Go.Text.{text_eq}
use wireops.Prelude.{any, ltb}
use wireops.Prelude.{
  ℕ, suc, ◌+◌, ◌≤◌, ◌≡◌, inl, inr, refl, Bool, true, false, ◌||◌, Option, none, some, List, [], ◌∷◌,
  arith, Bool-cases, if◌then◌else◌,
}
use wireops.Go.Text.{Text}
use wireops.Go.Int.{ℤ}
use wireops.Jobs.{
  JobRun, Store, RunStatus, pending, running, success, failed, stalled, forgotten, RunError, tick,
  create_job_run, patch_job_run_meta, set_job_run_started, started, update_job_run, finished,
  handle_job_completed,
}
use wireops.Jobs.Sweep.{
  forget, give_up, lose, lost, reconcile_single_running_run, reconcile_single_pending_run,
  mark_forgotten_runs, reconcile_pending_runs, reconcile_one, reconcile_active_jobs, lose_run,
  handle_worker_disconnect,
}
use wireops.Jobs.History.{
  Call, creating, patching, starting, completing, failing, forgetting, giving_up, sweeping, missing,
  reconciling, disconnecting, progress, perform, perform_all,
}
use wireops.Jobs.History.Steps.{
  IsForward, stays, unchanged, after, Advances, for_each-IsForward, save_run-IsForward,
  modify-IsForward, add_run-IsForward,
}

started-Advances : (now : ℕ) → Advances (started now)
started-Advances now = record { up = λ r q e. starting_up r q r.status refl e }
  where
    starting_up :
        (r q : JobRun) (status : RunStatus)
        → r.status ≡ status
        → started now r ≡ some q
        → progress r.status ≤ progress q.status
    starting_up r q status k e = ground (arith, k, e)

finished-Advances :
    (status : RunStatus) (output : Text) (d q e : ℤ) (now : ℕ)
    → progress status ≡ 2
    → Advances (λ r. some (finished status output d q e now r))
finished-Advances status output d q e now h = record { up = λ r x k. ground (arith, k, h) }

patched-Advances :
    (name sha : Text) → Advances (λ r. some (record r { container_name = name; commit_sha = sha }))
patched-Advances name sha = record { up = λ r q e. ground (arith, e) }

give_up-Advances : Advances give_up
give_up-Advances = record { up = λ r q e. ground (arith, e) }

module _ (timeout_ms : JobRun → ℤ) where
  forget-Advances : Advances (forget timeout_ms)
  forget-Advances = record { up = λ r q e. ground (arith, e) }

  lose-Advances : Advances (lose timeout_ms)
  lose-Advances = record { up = λ r q e. ground (arith, e) }

  progress_bound : (status : RunStatus) → progress status ≤ 2
  progress_bound pending = omega arith
  progress_bound running = omega arith
  progress_bound success = omega arith
  progress_bound failed = omega arith
  progress_bound stalled = omega arith
  progress_bound forgotten = omega arith

  module _ (fails : ℕ → Bool) where
    create_job_run-IsForward :
        (id job worker trigger : Text) (status : RunStatus) (output : Text) (now : ℕ) (s : Store)
        → IsForward s (create_job_run fails id job worker trigger status output now s).1
    unfolding create_job_run
    create_job_run-IsForward id job worker trigger status output now s =
        elim (Bool-cases (fails s.calls)) [
          | inl f ↦ rw (f, create_job_run) (stays s)
          | inr f ↦ elim (Bool-cases (fails (suc s.calls))) [
            | inl g ↦ rw (f, create_job_run) (rw g (after (stays s) (stays (tick s))))
            | inr g ↦
                rw (f, create_job_run)
                  (rw g (
                    after (stays s)
                      (after (stays (tick s)) (add_run-IsForward id _ (tick (tick s))))))
          ]
        ]

    single_running-IsForward :
        (now : ℕ) (x : Text × JobRun) (s : Store)
        → IsForward s (reconcile_single_running_run timeout_ms fails now x s).1
    unfolding reconcile_single_running_run
    single_running-IsForward now (id, seen) s =
        elim (Bool-cases (is_older max_job_run_duration now seen)) [
          | inl o ↦
              rw (o, reconcile_single_running_run)
                (modify-IsForward fails none _ id now (forget timeout_ms) s forget-Advances)
          | inr o ↦ rw (o, reconcile_single_running_run) (unchanged s)
        ]

    single_pending-IsForward :
        (now : ℕ) (x : Text × JobRun) (s : Store)
        → IsForward s (reconcile_single_pending_run timeout_ms fails now x s).1
    unfolding reconcile_single_pending_run
    single_pending-IsForward now (id, seen) s =
        elim (Bool-cases (is_older max_job_run_pending_duration now seen)) [
          | inl o ↦
              rw (o, reconcile_single_pending_run)
                (modify-IsForward fails none _ id now give_up s give_up-Advances)
          | inr o ↦ rw (o, reconcile_single_pending_run) (unchanged s)
        ]

    reconcile_one-IsForward :
        (worker : Text) (active : List Text) (now : ℕ) (x : Text × JobRun) (s : Store)
        → IsForward s (reconcile_one timeout_ms fails worker active now x s).1
    unfolding reconcile_one
    reconcile_one-IsForward worker active now (id, seen) s =
        elim (Bool-cases (any (text_eq id) active || ltb now (seen.updated + reconcile_grace))) [
          | inl o ↦ rw (o, reconcile_one) (unchanged s)
          | inr o ↦
              rw (o, reconcile_one)
                (modify-IsForward fails none _ id now (lose timeout_ms) s lose-Advances)
        ]

    lose_run-IsForward :
        (worker : Text) (now : ℕ) (x : Text × JobRun) (s : Store)
        → IsForward s (lose_run timeout_ms fails worker now x s).1
    unfolding lose_run
    lose_run-IsForward worker now (id, seen) s =
        save_run-IsForward fails _ id now (lost timeout_ms seen) s (λ r e. progress_bound r.status)

    -- A query, and a loop over what it brings.
    pending_runs-IsForward :
        (now : ℕ) (first : Option RunError) (s : Store)
        → IsForward s (reconcile_pending_runs timeout_ms fails now first s).1
    unfolding reconcile_pending_runs
    pending_runs-IsForward now first s = elim (Bool-cases (fails s.calls)) [
      | inl f ↦ rw (f, reconcile_pending_runs) (stays s)
      | inr f ↦
          rw (f, reconcile_pending_runs)
            (after (stays s) (for_each-IsForward _ (single_pending-IsForward now) _ first (tick s)))
    ]

    mark_forgotten-IsForward :
        (now : ℕ) (s : Store) → IsForward s (mark_forgotten_runs timeout_ms fails now s).1
    unfolding mark_forgotten_runs
    mark_forgotten-IsForward now s = elim (Bool-cases (fails s.calls)) [
      | inl f ↦ rw (f, mark_forgotten_runs) (stays s)
      | inr f ↦
          rw (f, mark_forgotten_runs)
            (after (stays s) (
              after (for_each-IsForward _ (single_running-IsForward now) _ none (tick s))
                (pending_runs-IsForward now _ _)))
    ]

    reconcile_active-IsForward :
        (worker : Text) (active : List Text) (now : ℕ) (s : Store)
        → IsForward s (reconcile_active_jobs timeout_ms fails worker active now s).1
    unfolding reconcile_active_jobs
    reconcile_active-IsForward worker active now s = elim (Bool-cases (fails s.calls)) [
      | inl f ↦ rw (f, reconcile_active_jobs) (stays s)
      | inr f ↦
          rw (f, reconcile_active_jobs)
            (after (stays s)
              (for_each-IsForward _ (reconcile_one-IsForward worker active now) _ none (tick s)))
    ]

    disconnect-IsForward :
        (worker : Text) (now : ℕ) (s : Store)
        → IsForward s (handle_worker_disconnect timeout_ms fails worker now s).1
    unfolding handle_worker_disconnect
    disconnect-IsForward worker now s = elim (Bool-cases (fails s.calls)) [
      | inl f ↦ rw (f, handle_worker_disconnect) (stays s)
      | inr f ↦
          rw (f, handle_worker_disconnect)
            (after (stays s) (for_each-IsForward _ (lose_run-IsForward worker now) _ none (tick s)))
    ]

    completed-progress : (ok : Bool) → progress (if ok then success else failed) ≡ 2
    completed-progress true = refl
    completed-progress false = refl

    perform-IsForward : (c : Call) (s : Store) → IsForward s (perform timeout_ms fails c s)
    unfolding perform patch_job_run_meta set_job_run_started update_job_run handle_job_completed
    perform-IsForward (creating id job worker trigger status output now) s =
        create_job_run-IsForward id job worker trigger status output now s
    perform-IsForward (patching id name sha now) s =
        modify-IsForward fails _ _ id now _ s (patched-Advances name sha)
    perform-IsForward (starting id now) s =
        modify-IsForward fails _ _ id now (started now) s (started-Advances now)
    perform-IsForward (completing id ok output duration queue exec now) s =
        modify-IsForward fails _ _ id now _ s
          (finished-Advances _ output duration queue exec now (completed-progress ok))
    perform-IsForward (failing id output now) s =
        modify-IsForward fails _ _ id now _ s (finished-Advances failed output _ _ _ now refl)
    perform-IsForward (forgetting x now) s = single_running-IsForward now x s
    perform-IsForward (giving_up x now) s = single_pending-IsForward now x s
    perform-IsForward (sweeping now) s = mark_forgotten-IsForward now s
    perform-IsForward (missing worker active x now) s =
        reconcile_one-IsForward worker active now x s
    perform-IsForward (reconciling worker active now) s =
        reconcile_active-IsForward worker active now s
    perform-IsForward (disconnecting worker now) s = disconnect-IsForward worker now s

    -- Whatever calls follow one another, and whichever calls of the database fail: each run stays in the
    -- database and is never taken back, neither from running to pending nor from one of the four final
    -- statuses to running or pending.
    pub perform_all-IsForward :
        (cs : List Call) (s : Store) → IsForward s (perform_all timeout_ms fails cs s)
    unfolding perform_all
    perform_all-IsForward [] s = unchanged s
    perform_all-IsForward (c ∷ cs) s =
        after (perform-IsForward c s) (perform_all-IsForward cs (perform timeout_ms fails c s))
