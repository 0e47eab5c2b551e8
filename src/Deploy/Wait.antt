-- ===== src/Deploy/Wait.antt =====
-- internal/sync/wait_jobs.go: a deploy waits until no job of the stack's repository runs.
pub mod Returns
pub mod Looks
pub mod Proceeds
pub mod Logged
use wireops.Prelude.{
  ℕ, zero, suc, ◌+◌, ◌*◌, ◌-◌, ◌%◌, ◌^◌, ◌≡◌, Bool, true, false, ◌&&◌, ◌||◌, not, Option, none,
  some, List, [], ◌∷◌, keep, length, ltb, if◌then◌else◌,
}
use wireops.Go.Text.{Text, codes, text_eq, is_empty}
use wireops.Go.Int.{ℤ, pos, negsuc}
use wireops.Jobs.{JobRun, is_running}
use wireops.Phases.{
  Tracker, new_phase_tracker, start, finish, elapsed, without_error, phase_status_error,
  phase_status_success, phase_status_skipped,
}
use wireops.Deploy.{Stack, Db, create_sync_log, update_sync_log, mark_error, on_phases}

-- `ActiveJobRunsForRepository`, on the runs of the database; `repository_of` is the join with the jobs.
unfoldable pub active_job_runs_for_repository :
    (Text → Text) → Text → List (Text × JobRun) → List (Text × JobRun)
active_job_runs_for_repository repository_of repo runs =
    if is_empty repo
    then []
    else keep (λ x. is_running x.1.status && text_eq (repository_of x.1.job) repo) runs

-- The details that are written, before they are formatted; durations are milliseconds.
pub data Detail : Type 0 where
  waiting : ℕ → Detail
  paused : ℕ → Detail
  timed_out : ℤ → ℕ → Detail
  proceeded : ℤ → Detail
  best_effort : ℤ → Detail

-- `runs n` are the runs in the database at look `n`, `none` where the query fails; look 0 is before the
-- loop. `cancelled n` is the context's error before look `n`, `clock n` the time of the look in
-- milliseconds. `format` is `fmt.Sprintf`.
pub record Environment : Type 0 where
  pub fails : ℕ → Bool
  pub repository_of : Text → Text
  pub runs : ℕ → Option (List (Text × JobRun))
  pub cancelled : ℕ → Option Text
  pub clock : ℕ → ℕ
  pub format : Detail → Text

-- How the loop ends, and at which look.
pub data Ended : Type 0 where
  cleared : ℕ → Ended
  unknown : ℕ → Ended
  interrupted : ℕ → Text → Ended
  expired : ℕ → ℕ → Ended

-- The error that is returned, the sync log that the deploy goes on with, the stack in memory and the
-- database.
pub record Waited : Type 0 where
  pub error : Option Text
  pub log : Option Text
  pub stack : Stack
  pub db : Db

-- `waitJobsPollInterval`.
abbrev pub poll_interval : ℕ
poll_interval = 5000

abbrev pub default_wait_running_jobs_timeout_seconds : ℕ
default_wait_running_jobs_timeout_seconds = 300

abbrev pub second : ℕ
second = 1000000000

abbrev pub millisecond : ℕ
millisecond = 1000000

-- `time.Duration(timeoutSecs) * time.Second`: the product as an int64 of nanoseconds.
unfoldable pub as_int64 : ℕ → ℤ
as_int64 n =
    let wrapped = n % 2 ^ 64 in
    if ltb wrapped (2 ^ 63) then pos wrapped else negsuc (2 ^ 64 - wrapped - 1)

unfoldable pub timeout_of : ℤ → ℤ
timeout_of (pos zero) = as_int64 (default_wait_running_jobs_timeout_seconds * second)
timeout_of (pos (suc n)) = as_int64 (suc n * second)
timeout_of (negsuc n) = as_int64 (default_wait_running_jobs_timeout_seconds * second)

-- `time.Now().After(start.Add(timeout))`; without a deadline never.
unfoldable pub is_past : Option ℤ → ℕ → ℕ → Bool
is_past none start now = false
is_past (some (pos d)) start now = ltb (start * millisecond + d) (now * millisecond)
is_past (some (negsuc d)) start now = ltb (start * millisecond) (now * millisecond + suc d)

abbrev pub deadline_of : Stack → Option ℤ
deadline_of st =
    if text_eq st.wait_running_jobs (codes "timeout")
    then some (timeout_of st.wait_running_jobs_timeout_seconds)
    else none

abbrev pub is_off : Stack → Bool
is_off st = is_empty st.wait_running_jobs || text_eq st.wait_running_jobs (codes "never")

abbrev pub policy_check : Text
policy_check = codes "policy_check"

module _ (env : Environment) where
  abbrev pub active_at : Text → ℕ → Option (List (Text × JobRun))
  active_at repo n = elim (env.runs n) [
    | none ↦ none
    | some runs ↦ some (active_job_runs_for_repository env.repository_of repo runs)
  ]

  -- What one look decides: `none` where the loop goes on.
  unfoldable pub decide : Option ℤ → ℕ → Option (List (Text × JobRun)) → Option Ended
  decide deadline n none = some (unknown n)
  decide deadline n (some []) = some (cleared n)
  decide deadline n (some (x ∷ xs)) =
      if is_past deadline (env.clock 0) (env.clock n)
      then some (expired n (length (x ∷ xs)))
      else none

  unfoldable pub round : Text → Option ℤ → ℕ → Option Ended
  round repo deadline n = elim (env.cancelled n) [
    | some e ↦ some (interrupted n e)
    | none ↦ decide deadline n (active_at repo n)
  ]

  -- The loop, from look `n` on; `none` where the fuel runs out.
  unfoldable pub poll : ℕ → Text → Option ℤ → ℕ → Option Ended
  poll zero repo deadline n = none
  poll (suc fuel) repo deadline n =
      let rest = poll fuel repo deadline (suc n) in
      elim (round repo deadline n) [ some e ↦ some e | none ↦ rest ]

  abbrev pub since : ℕ → ℤ
  since n = elapsed (env.clock 0) (env.clock n)

  -- `pt.finish` and `updateSyncLog` on the sync log of the wait, if there is one; errors are dropped.
  unfoldable pub close_wait : Option (Text × Tracker) → Text → Text → Text → ℕ → Db → Db
  close_wait none phase_status log_status detail n db = db
  close_wait (some (log, t)) phase_status log_status detail n db =
      let (u, finished) =
        on_phases env.fails
          (λ s. without_error (finish env.fails policy_check phase_status detail (env.clock n) t s))
          db in
      (update_sync_log env.fails log log_status detail (since n) finished).1

  abbrev pub log_of : Option (Text × Tracker) → Option Text
  log_of none = none
  log_of (some (log, t)) = some log

  -- What follows the loop.
  unfoldable pub conclude : Text → Option (Text × Tracker) → Stack → Db → Ended → Waited
  conclude id w st db (interrupted n e) = record {
    error = some e;
    log = log_of w;
    stack = st;
    db = close_wait w phase_status_error (codes "error") e n db;
  }
  conclude id w st db (expired n k) =
      let message = env.format (timed_out (since n) k) in
      let (err, marked, saved) =
        mark_error env.fails id st (close_wait w phase_status_error (codes "error") message n db) in
      record { error = some message; log = log_of w; stack = marked; db = saved }
  conclude id w st db (cleared n) = record {
    error = none;
    log = log_of w;
    stack = st;
    db =
        close_wait w phase_status_success (codes "running") (env.format (proceeded (since n))) n db;
  }
  conclude id w st db (unknown n) = record {
    error = none;
    log = log_of w;
    stack = st;
    db =
        close_wait w phase_status_skipped (codes "running") (env.format (best_effort (since n))) n
          db;
  }

  unfoldable pub after_loop :
      Text → Option (Text × Tracker) → Stack → Db → Option Ended → Option Waited
  after_loop id w st db none = none
  after_loop id w st db (some e) = some (conclude id w st db e)

  -- The sync log that shows the wait; without one the deploy waits all the same.
  unfoldable pub open_wait : ℕ → Option Text × Db → Option (Text × Tracker) × Db
  open_wait k (none, db) = (none, db)
  open_wait k (some log, db) =
      let (t, started) =
        on_phases env.fails
          (λ s.
            without_error
              (start env.fails policy_check (env.clock 0) (env.clock 0) (new_phase_tracker log) s))
          db in
      (
        some (log, t),
        (update_sync_log env.fails log (codes "waiting_jobs") (env.format (paused k)) (pos 0)
            started).1,
      )

  -- Active runs are there: the log is opened, and the loop waits.
  unfoldable pub wait_for : ℕ → Text → Text → Text → Text → Text → ℕ → Stack → Db → Option Waited
  wait_for fuel new_id repo id trigger commit k st db =
      let (w, opened) =
        open_wait k
          (create_sync_log env.fails new_id id trigger commit (env.format (waiting k)) db) in
      after_loop id w st opened (poll fuel repo (deadline_of st) 1)

  abbrev pub go_on : Stack → Db → Waited
  go_on st db = record { error = none; log = none; stack = st; db = db }

  -- By the first look at the jobs.
  unfoldable pub wait_if :
      ℕ
      → Text
      → Text
      → Text
      → Text
      → Text
      → Stack
      → Db
      → Option (List (Text × JobRun))
      → Option Waited
  wait_if fuel new_id repo id trigger commit st db none = some (go_on st db)
  wait_if fuel new_id repo id trigger commit st db (some []) = some (go_on st db)
  wait_if fuel new_id repo id trigger commit st db (some (x ∷ xs)) =
      wait_for fuel new_id repo id trigger commit (length (x ∷ xs)) st db

  -- `waitForRunningJobs`; `none` where the fuel runs out, and the deploy still waits.
  unfoldable pub wait_for_running_jobs :
      ℕ → Text → Text → Text → Text → Text → Stack → Db → Option Waited
  wait_for_running_jobs fuel new_id repo id trigger commit st db =
      if is_off st
      then some (go_on st db)
      else wait_if fuel new_id repo id trigger commit st db (active_at repo 0)
