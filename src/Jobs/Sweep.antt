-- ===== src/Jobs/Sweep.antt =====
-- internal/jobscheduler/scheduler.go: the calls that look for runs whose end nobody reported. A record of
-- a query is the run as it was then; each call reads the clock once here.
use wireops.Prelude.{
  ℕ, ◌+◌, Bool, ◌&&◌, ◌||◌, not, Option, none, some, List, [], ◌∷◌, any, keep, ltb, if◌then◌else◌,
  or_else,
}
use wireops.Go.Text.{Text, codes, text_eq, is_empty}
use wireops.Go.Int.{ℤ, pos}
use wireops.Jobs.{
  JobRun, Store, failed, forgotten, RunError, forget_failed, pending_failed, reconcile_failed,
  disconnect_failed, query_failed, tick, is_running, is_pending, save_run, modify,
}
use wireops.Jobs.Definition.{Definition}

-- A record of `scheduled_jobs`; `last_run_at` is `none` before the first run.
pub record ScheduledJob : Type 0 where
  pub repository : Text
  pub job_file : Text
  pub name : Text
  pub description : Text
  pub status : Text
  pub enabled : Bool
  pub last_run_at : Option ℕ

-- In milliseconds.
abbrev pub max_job_run_duration : ℕ
max_job_run_duration = 3600000

abbrev pub max_job_run_pending_duration : ℕ
max_job_run_pending_duration = 900000

abbrev pub reconcile_grace : ℕ
reconcile_grace = 60000

abbrev pub default_timeout_ms : ℤ
default_timeout_ms = pos 600000

-- The database's query for a job, the file of a job in the checkout of its repository, and
-- time.ParseDuration with Milliseconds.
module _ (find_job : Text → Option ScheduledJob) (parse_job_file : Text → Text → Option Definition)
    (parse_duration : Text → Option ℤ) where
  abbrev pub timeout_of : Text → ℤ
  timeout_of t =
      if is_empty t
      then default_timeout_ms
      else elim (parse_duration t) [ none ↦ default_timeout_ms | some d ↦ d ]

  unfoldable pub get_job_timeout_ms : JobRun → ℤ
  get_job_timeout_ms r = if is_empty r.job then default_timeout_ms else elim (find_job r.job) [
    | none ↦ default_timeout_ms
    | some j ↦ elim (parse_job_file j.repository j.job_file) [
      | none ↦ default_timeout_ms
      | some d ↦ timeout_of d.resources.timeout
    ]
  ]

-- A loop over the records of a query, that keeps the first error.
unfoldable pub for_each :
    (Text × JobRun → Store → Option RunError × Store)
    → List (Text × JobRun)
    → Option RunError
    → Store
    → Option RunError × Store
for_each step [] first s = (first, s)
for_each step (x ∷ xs) first s = let (e, t) = step x s in for_each step xs (or_else first e) t

abbrev pub is_older : ℕ → ℕ → JobRun → Bool
is_older age now r = ltb (r.updated + age) now

abbrev pub give_up : JobRun → Option JobRun
give_up r =
    if is_pending r.status
    then some (record r {
      status = failed;
      output =
          codes
            "job failed: stuck in pending for more than 15 minutes (failed to dispatch to worker)";
    })
    else none

-- The records of a query by status.
abbrev pub runs_where : (JobRun → Bool) → Store → List (Text × JobRun)
runs_where test s = keep (λ x. test x.1) s.runs

abbrev pub is_of : Text → JobRun → Bool
is_of worker r = text_eq r.worker worker && is_running r.status

module _ (timeout_ms : JobRun → ℤ) where
  abbrev pub forget : JobRun → Option JobRun
  forget r =
      if is_running r.status
      then some (record r {
        status = forgotten;
        output = codes "job forgotten: still running after 1 hour with no completion signal";
        execution_time_ms = timeout_ms r;
      })
      else none

  abbrev pub lost : JobRun → JobRun
  lost r = record r {
    status = failed;
    output = codes "job lost: worker disconnected and job is no longer running";
    execution_time_ms = timeout_ms r;
  }

  abbrev pub lose : JobRun → Option JobRun
  lose r = if is_running r.status then some (lost r) else none

module _ (timeout_ms : JobRun → ℤ) (fails : ℕ → Bool) where
  unfoldable pub reconcile_single_running_run : ℕ → Text × JobRun → Store → Option RunError × Store
  reconcile_single_running_run now (id, seen) s =
      if not (is_older max_job_run_duration now seen)
      then (none, s)
      else modify fails none (some (forget_failed id)) id now (forget timeout_ms) s

  unfoldable pub reconcile_single_pending_run : ℕ → Text × JobRun → Store → Option RunError × Store
  reconcile_single_pending_run now (id, seen) s =
      if not (is_older max_job_run_pending_duration now seen)
      then (none, s)
      else modify fails none (some (pending_failed id)) id now give_up s

  -- The pending runs, after the error of the running ones.
  unfoldable pub reconcile_pending_runs : ℕ → Option RunError → Store → Option RunError × Store
  reconcile_pending_runs now first s =
      if fails s.calls
      then (or_else first (some query_failed), tick s)
      else for_each (reconcile_single_pending_run now) (runs_where (λ r. is_pending r.status) s)
          first (tick s)

  unfoldable pub mark_forgotten_runs : ℕ → Store → Option RunError × Store
  mark_forgotten_runs now s =
      if fails s.calls
      then (some query_failed, tick s)
      else let (first, t) =
          for_each (reconcile_single_running_run now) (runs_where (λ r. is_running r.status) s) none
            (tick s) in
        reconcile_pending_runs now first t

  unfoldable pub reconcile_one :
      Text → List Text → ℕ → Text × JobRun → Store → Option RunError × Store
  reconcile_one worker active now (id, seen) s =
      if any (text_eq id) active || ltb now (seen.updated + reconcile_grace)
      then (none, s)
      else modify fails none (some (reconcile_failed id worker)) id now (lose timeout_ms) s

  unfoldable pub reconcile_active_jobs : Text → List Text → ℕ → Store → Option RunError × Store
  reconcile_active_jobs worker active now s =
      if fails s.calls
      then (some query_failed, tick s)
      else for_each (reconcile_one worker active now) (runs_where (is_of worker) s) none (tick s)

  -- The lock is held from the query to the last save, so nothing is read again.
  unfoldable pub lose_run : Text → ℕ → Text × JobRun → Store → Option RunError × Store
  lose_run worker now (id, seen) s =
      save_run fails (some (disconnect_failed id worker)) id now (some (lost timeout_ms seen)) s

  unfoldable pub handle_worker_disconnect : Text → ℕ → Store → Option RunError × Store
  handle_worker_disconnect worker now s =
      if fails s.calls
      then (some query_failed, tick s)
      else for_each (lose_run worker now) (runs_where (is_of worker) s) none (tick s)
