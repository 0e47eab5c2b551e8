-- ===== src/Jobs.antt =====
-- internal/jobscheduler/scheduler.go: the records of job runs, and the calls that change one of them.
-- The database (PocketBase) is a parameter: each of its calls, counted, can fail. It gives a new record
-- its id and its time of creation, and notes the time of each save in `updated`.
pub mod Definition
pub mod Sweep
pub mod Names
pub mod Execute
pub mod Dispatch
pub mod Swept
pub mod Truncation
pub mod History
pub mod Tests
use wireops.Prelude.{
  ℕ, suc, ◌-◌, ◌/◌, ◌≡◌, refl, Bool, true, false, ◌&&◌, ◌||◌, not, Option, none, some, List, [],
  ◌∷◌, ◌++◌, length, ltb, leb, if◌then◌else◌, take, drop,
}
use wireops.Go.Text.{Text, codes, is_empty}
use wireops.Go.Int.{ℤ, pos, negsuc, ltbℤ}
use wireops.Go.Value.{lookup}
use wireops.Go.Assoc.{put}
use wireops.Phases.{elapsed}

-- The values of the field `status` of `job_runs`.
pub data RunStatus : Type 0 where
  pending : RunStatus
  running : RunStatus
  success : RunStatus
  failed : RunStatus
  stalled : RunStatus
  forgotten : RunStatus

-- A record of `job_runs`. Times are milliseconds; `started_at` is `none` where it is zero.
pub record JobRun : Type 0 where
  pub job : Text
  pub worker : Text
  pub trigger : Text
  pub status : RunStatus
  pub output : Text
  pub container_name : Text
  pub commit_sha : Text
  pub started_at : Option ℕ
  pub duration_ms : ℤ
  pub queue_time_ms : ℤ
  pub execution_time_ms : ℤ
  pub created : ℕ
  pub updated : ℕ

-- The runs by their ids, and the calls of the database so far.
pub record Store : Type 0 where
  pub runs : List (Text × JobRun)
  pub calls : ℕ

pub data RunError : Type 0 where
  create_failed : RunError
  start_failed : Text → RunError
  status_failed : Text → RunStatus → RunError
  update_failed : Text → RunStatus → RunError
  metadata_failed : Text → RunError
  forget_failed : Text → RunError
  pending_failed : Text → RunError
  reconcile_failed : Text → Text → RunError
  disconnect_failed : Text → Text → RunError
  query_failed : RunError

abbrev pub tick : Store → Store
tick s = record s { calls = suc s.calls }

abbrev pub is_pending : RunStatus → Bool
is_pending status = elim status [ pending ↦ true | _ ↦ false ]

abbrev pub is_running : RunStatus → Bool
is_running status = elim status [ running ↦ true | _ ↦ false ]

-- `status == "success" || … == "error" || … == "stalled" || … == "forgotten"`.
abbrev pub is_terminal : RunStatus → Bool
is_terminal status = elim status [ pending ↦ false | running ↦ false | _ ↦ true ]

abbrev pub is_finished : RunStatus → Bool
is_finished status = elim status [ success ↦ true | failed ↦ true | _ ↦ false ]

abbrev pub max_output_length : ℕ
max_output_length = 1000000

-- The marker between the two parts that are kept of a long output.
abbrev pub truncation_marker : Text
truncation_marker = codes "\n\n... [OUTPUT TRUNCATED FOR SIZE] ...\n\n"

-- `output[:head] + marker + output[len(output)-tail:]` with the limit and the marker as parameters. An
-- output is a list of bytes.
unfoldable pub truncate : ℕ → Text → Text → Text
truncate limit marker output =
    let available = limit - length marker in
    let head = available / 2 in
    let tail = available - head in
    if ltb limit (length output)
    then take head output ++ (marker ++ drop (length output - tail) output)
    else output

unfoldable pub truncate_output : Text → Text
truncate_output output = truncate max_output_length truncation_marker output

-- The queue time is not negative.
abbrev pub started : ℕ → JobRun → Option JobRun
started now r =
    if is_terminal r.status
    then none
    else some (record r {
      status = running;
      started_at = some now;
      queue_time_ms = pos (now - r.created);
    })

abbrev pub with_status : RunStatus → JobRun → Option JobRun
with_status status r =
    if is_running status && is_terminal r.status then none else some (record r { status = status })

-- The execution time that is saved with a final status.
unfoldable pub execution_time : ℤ → RunStatus → ℕ → JobRun → ℤ
execution_time exec status now r =
    if ltbℤ (pos 0) exec
    then exec
    else if is_finished status
    then elim r.started_at [ none ↦ r.execution_time_ms | some t ↦ elapsed t now ]
    else r.execution_time_ms

abbrev pub finished : RunStatus → Text → ℤ → ℤ → ℤ → ℕ → JobRun → JobRun
finished status output duration queue exec now r = record r {
  status = status;
  output = truncate_output output;
  duration_ms = duration;
  queue_time_ms = if ltbℤ (pos 0) queue then queue else r.queue_time_ms;
  execution_time_ms = execution_time exec status now r;
}

-- A new record is saved; one whose id is taken is refused.
unfoldable pub add_run : Text → JobRun → Store → Option RunError × Store
add_run id r s = elim (lookup s.runs id) [
  | none ↦ (none, record s { runs = put s.runs id r })
  | some old ↦ (some create_failed, s)
]

module _ (fails : ℕ → Bool) where
  -- `FindRecordById("job_runs", id)`, by what follows a failure and what follows a record.
  unfoldable pub find_run : Text → Store → Option JobRun
  find_run id s = if fails s.calls then none else lookup s.runs id

  -- A record that is found, changed and saved: `none` of the change returns without a save. A record
  -- that is not found gives the first error, a save that fails the second.
  unfoldable pub save_run :
      Option RunError → Text → ℕ → Option JobRun → Store → Option RunError × Store
  save_run on_save id now none s = (none, s)
  save_run on_save id now (some r) s =
      if fails s.calls
      then (on_save, tick s)
      else (none, record (tick s) { runs = put s.runs id (record r { updated = now }) })

  unfoldable pub modify :
      Option RunError
      → Option RunError
      → Text
      → ℕ
      → (JobRun → Option JobRun)
      → Store
      → Option RunError × Store
  modify on_find on_save id now change s = elim (find_run id s) [
    | none ↦ (on_find, tick s)
    | some r ↦ save_run on_save id now (change r) (tick s)
  ]

  -- `createJobRun`, with the id that the database gives. Some saves are refused.
  unfoldable pub create_job_run :
      Text → Text → Text → Text → RunStatus → Text → ℕ → Store → Option RunError × Store
  create_job_run id job worker trigger status output now s =
      let r : JobRun = record {
        job = job;
        worker = worker;
        trigger = trigger;
        status = status;
        output = output;
        container_name = [];
        commit_sha = [];
        started_at = none;
        duration_ms = pos 0;
        queue_time_ms = pos 0;
        execution_time_ms = pos 0;
        created = now;
        updated = now;
      } in
      if fails s.calls
      then (some create_failed, tick s)
      else if fails (suc s.calls)
      then (some create_failed, tick (tick s))
      else add_run id r (tick (tick s))

  unfoldable pub patch_job_run_meta : Text → Text → Text → ℕ → Store → Option RunError × Store
  patch_job_run_meta id name sha now s =
      modify (some (metadata_failed id)) (some (metadata_failed id)) id now
        (λ r. some (record r { container_name = name; commit_sha = sha })) s

  unfoldable pub set_job_run_started : Text → ℕ → Store → Option RunError × Store
  set_job_run_started id now s =
      modify (some (start_failed id)) (some (start_failed id)) id now (started now) s

  unfoldable pub set_job_run_status : Text → RunStatus → ℕ → Store → Option RunError × Store
  set_job_run_status id status now s =
      modify (some (status_failed id status)) (some (status_failed id status)) id now
        (with_status status) s

  unfoldable pub update_job_run :
      Text → RunStatus → Text → ℤ → ℤ → ℤ → ℕ → Store → Option RunError × Store
  update_job_run id status output duration queue exec now s =
      modify (some (update_failed id status)) (some (update_failed id status)) id now
        (λ r. some (finished status output duration queue exec now r)) s

  -- `HandleJobCompleted`: the error is logged.
  unfoldable pub handle_job_completed : Text → Bool → Text → ℤ → ℤ → ℤ → ℕ → Store → Store
  handle_job_completed id ok output duration queue exec now s =
      (update_job_run id (if ok then success else failed) output duration queue exec now s).1
