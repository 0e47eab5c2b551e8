-- ===== src/Jobs/Execute.antt =====
-- internal/jobscheduler/scheduler.go: executeJob, which creates the runs of a job. What it asks of other
-- packages is a parameter: the gate of the secret backends, the files of the checkout, the connected
-- workers, the variables and the config files. The goroutines that it starts are returned. The texts of
-- errors are their fixed parts.
pub mod Recorded
pub mod Outcomes
pub mod Returned
use Prim.Native.Nat.{bit_xor}
use wireops.Prelude.{
  ℕ, zero, suc, ◌+◌, ◌*◌, ◌%◌, ◌^◌, ◌≡◌, refl, Bool, true, false, ◌&&◌, ◌||◌, not, Option, none,
  some, List, [], ◌∷◌, ◌++◌, length, ◌==◌, if◌then◌else◌,
}
use wireops.Go.Text.{
  Text, codes, text_eq, is_empty, trim, trim_space, after_last, before, contains_rune,
}
use wireops.Go.Value.{lookup}
use wireops.Go.Assoc.{put}
use wireops.Jobs.{Store, RunStatus, pending, failed, stalled, RunError, tick, create_job_run}
use wireops.Jobs.Definition.{Definition, mode_once_all}
use wireops.Jobs.Sweep.{ScheduledJob}
use wireops.Jobs.Names.{ensure_scheduled_job_display_fields}
use wireops.Jobs.Dispatch.{JobRunParams}

-- The database: the runs with the count of its calls, and the jobs.
pub record Db : Type 0 where
  pub store : Store
  pub jobs : List (Text × ScheduledJob)

-- `fnv.New32a`: for each byte, exclusive or and a multiplication modulo 2^32.
unfoldable pub fnv1a : ℕ → Text → ℕ
fnv1a hash [] = hash
fnv1a hash (b ∷ bytes) = fnv1a ((bit_xor hash b * 16777619) % 2 ^ 32) bytes

abbrev pub offset_basis : ℕ
offset_basis = 2166136261

abbrev pub get_elem? {ℓ} : {A : Type ℓ} → List A → ℕ → Option A
get_elem? [] i = none
get_elem? (x ∷ xs) zero = some x
get_elem? (x ∷ xs) (suc i) = get_elem? xs i

-- `none` stands for the panic on an empty list.
unfoldable pub pick_worker : Text → List Text → Option Text
pick_worker job_id [] = none
pick_worker job_id (w ∷ []) = some w
pick_worker job_id (w ∷ v ∷ ws) =
    get_elem? (w ∷ v ∷ ws) (fnv1a offset_basis job_id % length (w ∷ v ∷ ws))

-- What executeJob asks of other packages; `none` is an error. `new_id n` is the id that the database
-- gives to the record that is saved by its call number `n`.
pub record Surroundings : Type 0 where
  pub fails : ℕ → Bool
  pub clock : ℕ → ℕ
  pub new_id : ℕ → Text
  pub is_alphanumeric : ℕ → Bool
  pub backends_error : Text → Option Text
  pub parse_job_file : Text → Text → Option Definition
  pub workers_by_tags : List Text → List Text
  pub load_env : Text → Option (List (Text × Text))
  pub resolve_configs : Text → Definition → Option (List Text)
  pub branch_of : Text → Text
  pub head_sha : Text → Text

-- The ids that are returned, the runs that go to workers, and the database afterwards.
pub record Execution : Type 0 where
  pub ids : List Text
  pub dispatched : List (Text × Text × JobRunParams)
  pub db : Db

module _ (env : Surroundings) where
  abbrev pub tick_db : Db → Db
  tick_db db = record db { store = tick db.store }

  -- `createJobRun`: the id of the new run, or none. The third call is the save.
  unfoldable pub create : Text → Text → Text → RunStatus → Text → Db → Option Text × Db
  create job_id worker trigger status output db =
      let id = env.new_id (suc db.store.calls) in
      let (e, s) =
        create_job_run env.fails id job_id worker trigger status output (env.clock db.store.calls)
          db.store in
      (elim e [ none ↦ some id | some err ↦ none ], record db { store = s })

  unfoldable pub find_job : Text → Db → Option ScheduledJob
  find_job id db = if env.fails db.store.calls then none else lookup db.jobs id

  unfoldable pub save_job : Text → ScheduledJob → Db → Db
  save_job id rec db =
      if env.fails db.store.calls
      then tick_db db
      else record (tick_db db) { jobs = put db.jobs id rec }

  abbrev pub is_paused : ScheduledJob → Bool
  is_paused rec = text_eq rec.status (codes "paused")

  -- The status of a job that is not paused, with its display fields.
  abbrev pub with_status : Text → Option Definition → Text → ScheduledJob → ScheduledJob
  with_status id d status rec =
      record (ensure_scheduled_job_display_fields env.is_alphanumeric id d rec) { status = status }

  -- `setScheduledJobStatus`, and the same with a definition in createStalledRun. Errors are logged.
  unfoldable pub set_scheduled_job_status : Text → Option Definition → Text → Db → Db
  set_scheduled_job_status id d status db = elim (find_job id db) [
    | none ↦ tick_db db
    | some rec ↦
        if is_paused rec then tick_db db else save_job id (with_status id d status rec) (tick_db db)
  ]

  -- `runIDs`.
  abbrev pub run_ids : Option Text → List Text
  run_ids none = []
  run_ids (some id) = id ∷ []

  -- A job that cannot be dispatched: one run with the error, and the job's status.
  unfoldable pub fail_job : Text → Text → Text → Db → Execution
  fail_job job_id trigger message db =
      let (id, created) = create job_id [] trigger failed message db in
      record {
        ids = run_ids id;
        dispatched = [];
        db = set_scheduled_job_status job_id none (codes "error") created;
      }

  -- `createStalledRun`: without its run, nothing else is done.
  unfoldable pub note_stalled : Option Text → Text → Definition → Db → Db
  note_stalled none job_id d db = db
  note_stalled (some run) job_id d db =
      set_scheduled_job_status job_id (some d) (codes "stalled") db

  unfoldable pub stall_job : Text → Text → Definition → Db → Execution
  stall_job job_id trigger d db =
      let (id, created) =
        create job_id [] trigger stalled (codes "no matching workers available") db in
      record { ids = run_ids id; dispatched = []; db = note_stalled id job_id d created }

  -- The loop over the targets.
  unfoldable pub create_runs :
      Text → Text → JobRunParams → List Text → Db → List (Text × Text × JobRunParams) × Db
  create_runs job_id trigger p [] db = ([], db)
  create_runs job_id trigger p (worker ∷ workers) db =
      let (id, created) = create job_id worker trigger pending [] db in
      let (runs, final) = create_runs job_id trigger p workers created in
      (elim id [ none ↦ runs | some run ↦ (run, worker, p) ∷ runs ], final)

  abbrev pub targets_of : Text → Definition → List Text → List Text
  targets_of job_id d workers =
      if text_eq d.mode mode_once_all then workers else run_ids (pick_worker job_id workers)

  abbrev pub first_of_each : List (Text × Text × JobRunParams) → List Text
  first_of_each [] = []
  first_of_each ((id, worker, p) ∷ runs) = id ∷ first_of_each runs

  -- A job that ran is active again.
  abbrev pub after_run : ℕ → ScheduledJob → ScheduledJob
  after_run now rec = record rec {
    last_run_at = some now;
    status =
        if text_eq rec.status (codes "stalled") || text_eq rec.status (codes "error")
        then codes "active"
        else rec.status;
  }

  unfoldable pub run_on :
      Text → Text → Definition → List Text → JobRunParams → ScheduledJob → Db → Execution
  run_on job_id trigger d workers p rec db =
      let (runs, created) = create_runs job_id trigger p (targets_of job_id d workers) db in
      record {
        ids = first_of_each runs;
        dispatched = runs;
        db = save_job job_id (after_run (env.clock created.store.calls) rec) created;
      }

  -- With the variables, the config files.
  unfoldable pub with_env :
      Text → Text → Definition → List Text → ScheduledJob → List (Text × Text) → Db → Execution
  with_env job_id trigger d workers rec vars db = elim (env.resolve_configs rec.repository d) [
    | none ↦ fail_job job_id trigger (codes "cannot resolve config files") db
    | some files ↦
        run_on job_id trigger d workers
          (record {
            repo_id = rec.repository;
            repo_branch = env.branch_of rec.repository;
            job_file = rec.job_file;
            commit_sha = env.head_sha rec.repository;
            definition = d;
            env = vars;
            config_files = files;
          })
          rec db
  ]

  unfoldable pub on_workers : Text → Text → Definition → List Text → ScheduledJob → Db → Execution
  on_workers job_id trigger d [] rec db = stall_job job_id trigger d db
  on_workers job_id trigger d (w ∷ ws) rec db = elim (env.load_env job_id) [
    | none ↦ fail_job job_id trigger (codes "cannot load env vars") db
    | some vars ↦ with_env job_id trigger d (w ∷ ws) rec vars db
  ]

  unfoldable pub with_definition : Text → Text → Definition → ScheduledJob → Db → Execution
  with_definition job_id trigger d rec db =
      on_workers job_id trigger d (env.workers_by_tags d.tags)
        (ensure_scheduled_job_display_fields env.is_alphanumeric job_id (some d) rec) db

  unfoldable pub with_job : Text → Text → ScheduledJob → Db → Execution
  with_job job_id trigger rec db = elim (env.backends_error job_id) [
    | some message ↦ fail_job job_id trigger message db
    | none ↦ elim (env.parse_job_file rec.repository rec.job_file) [
      | none ↦ fail_job job_id trigger (codes "cannot parse job.yaml") db
      | some d ↦ with_definition job_id trigger d rec db
    ]
  ]

  -- `executeJob`; nothing is done once the scheduler is shut down.
  unfoldable pub execute_job : Bool → Text → Text → Db → Execution
  execute_job shut_down job_id trigger db =
      if shut_down
      then record { ids = []; dispatched = []; db = db }
      else elim (find_job job_id db) [
        | none ↦ record { ids = []; dispatched = []; db = tick_db db }
        | some rec ↦ with_job job_id trigger rec (tick_db db)
      ]
