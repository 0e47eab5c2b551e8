-- ===== src/Jobs/History.antt =====
-- internal/jobscheduler/scheduler.go: whole histories of the runs. Each call takes the lock of the runs,
-- or reads and writes a run in one go, so calls of several goroutines come one after the other; the
-- sweeps also step run by run, with a record that an earlier query brought.
pub mod Steps
pub mod Forward
use wireops.Prelude.{
  ℕ, suc, ◌+◌, ◌≤◌, ◌≡◌, ◌≢◌, ◌⊎◌, inl, inr, refl, ◌∙◌, Bool, true, false, ◌&&◌, ◌||◌, not, Option,
  none, some, List, [], ◌∷◌, arith, Bool-cases, Option-cases, if◌then◌else◌, or_else, keep,
  some_inj,
}
use wireops.Go.Text.{Text, Text-cases}
use wireops.Go.Int.{ℤ, pos}
use wireops.Go.Value.{lookup}
use wireops.Go.Assoc.{put, lookup-put, lookup-put_other}
use wireops.Jobs.{
  JobRun, Store, RunStatus, pending, running, success, failed, stalled, forgotten, RunError, tick,
  is_running, is_pending, is_terminal, find_run, save_run, modify, create_job_run,
  patch_job_run_meta, set_job_run_started, started, set_job_run_status, with_status, update_job_run,
  finished, handle_job_completed,
}
use wireops.Jobs.Sweep.{
  for_each, forget, give_up, lose, lost, reconcile_single_running_run, reconcile_single_pending_run,
  runs_where, mark_forgotten_runs, reconcile_pending_runs, reconcile_one, reconcile_active_jobs,
  is_of, lose_run, handle_worker_disconnect,
}

-- The calls, with what they are given and the time that they read.
pub data Call : Type 0 where
  creating : Text → Text → Text → Text → RunStatus → Text → ℕ → Call
  patching : Text → Text → Text → ℕ → Call
  starting : Text → ℕ → Call
  completing : Text → Bool → Text → ℤ → ℤ → ℤ → ℕ → Call
  failing : Text → Text → ℕ → Call
  forgetting : Text × JobRun → ℕ → Call
  giving_up : Text × JobRun → ℕ → Call
  sweeping : ℕ → Call
  missing : Text → List Text → Text × JobRun → ℕ → Call
  reconciling : Text → List Text → ℕ → Call
  disconnecting : Text → ℕ → Call

-- How far a run is.
abbrev pub progress : RunStatus → ℕ
progress pending = 0
progress running = 1
progress success = 2
progress failed = 2
progress stalled = 2
progress forgotten = 2

module _ (timeout_ms : JobRun → ℤ) (fails : ℕ → Bool) where
  unfoldable pub perform : Call → Store → Store
  perform (creating id job worker trigger status output now) s =
      (create_job_run fails id job worker trigger status output now s).1
  perform (patching id name sha now) s = (patch_job_run_meta fails id name sha now s).1
  perform (starting id now) s = (set_job_run_started fails id now s).1
  perform (completing id ok output duration queue exec now) s =
      handle_job_completed fails id ok output duration queue exec now s
  perform (failing id output now) s =
      (update_job_run fails id failed output (pos 0) (pos 0) (pos 0) now s).1
  perform (forgetting x now) s = (reconcile_single_running_run timeout_ms fails now x s).1
  perform (giving_up x now) s = (reconcile_single_pending_run timeout_ms fails now x s).1
  perform (sweeping now) s = (mark_forgotten_runs timeout_ms fails now s).1
  perform (missing worker active x now) s = (reconcile_one timeout_ms fails worker active now x s).1
  perform (reconciling worker active now) s =
      (reconcile_active_jobs timeout_ms fails worker active now s).1
  perform (disconnecting worker now) s = (handle_worker_disconnect timeout_ms fails worker now s).1

  unfoldable pub perform_all : List Call → Store → Store
  perform_all [] s = s
  perform_all (c ∷ cs) s = perform_all cs (perform c s)
