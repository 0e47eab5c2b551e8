-- ===== src/Jobs/Execute/Outcomes.antt =====
-- internal/jobscheduler/scheduler.go: the runs whose ids executeJob returns are in the database.
use wireops.Prelude.{
  suc, ◌≡◌, refl, ◌⊎◌, inl, inr, sym, Option, none, some, List, [], arith, Bool-cases, Option-cases,
  In, here, there,
}
use mathlib.Core.Path.{subst}
use wireops.Go.Text.{Text, codes}
use wireops.Jobs.{JobRun, Store, RunStatus, pending, failed, stalled, RunError, create_job_run}
use wireops.Jobs.Definition.{Definition}
use wireops.Jobs.Sweep.{ScheduledJob}
use wireops.Jobs.Dispatch.{JobRunParams}
use wireops.Jobs.Execute.{
  Db, Surroundings, Execution, create, find_job, save_job, set_scheduled_job_status, run_ids,
  fail_job, stall_job, note_stalled, first_of_each, tick_db, is_paused,
}
use wireops.Jobs.Execute.Recorded.{
  IsKept, untouched, both_kept, IsRun, Has, create_job_run-IsKept, create_job_run-adds,
}

-- What executeJob leaves: each run that goes to a worker is pending under its id, for a worker that the
-- dispatcher named; each id that is returned is one of those, or that of a run without a worker that
-- failed or is stalled; and the runs from before are as they were.
pub record IsRecorded (env : Surroundings) (job trigger : Text) (s : Store) (e : Execution)
    : Type 0 where
  pub kept : IsKept s e.db.store
  pub dispatched_ok :
      (id worker : Text) (p : JobRunParams)
      → In (id, worker, p) e.dispatched
      → Has e.db.store id (IsRun job worker trigger pending)
        × (tags : List Text) × In worker (env.workers_by_tags tags)
  pub ids_ok :
      (id : Text)
      → In id e.ids
      → In id (first_of_each env e.dispatched)
        ⊎ (Has e.db.store id (IsRun job [] trigger failed)
            ⊎ Has e.db.store id (IsRun job [] trigger stalled))

pub has_kept :
    {s t : Store} (id : Text) (P : JobRun → Type 0) → IsKept s t → Has s id P → Has t id P
has_kept id P f (r, e, h) = (r, f.same id r e, h)

module _ (env : Surroundings) where
  pub create-IsKept :
      (job worker trigger : Text) (status : RunStatus) (output : Text) (db : Db)
      → IsKept db.store (create env job worker trigger status output db).1.store
  unfolding create
  create-IsKept job worker trigger status output db =
      create_job_run-IsKept env.fails _ job worker trigger status output _ db.store

  pub create-adds :
      (job worker trigger : Text) (status : RunStatus) (output : Text) (db : Db) (id : Text)
      → (create env job worker trigger status output db).0 ≡ some id
      → Has
          (create env job worker trigger status output db).1.store
          id
          (IsRun job worker trigger status)
  unfolding create
  create-adds job worker trigger status output db id h =
      elim (Option-cases
        (create_job_run env.fails (env.new_id (suc db.store.calls)) job worker trigger status output
          (env.clock db.store.calls) db.store).0) [
            | inl e ↦
                rw (← new e h)
                  (create_job_run-adds env.fails _ job worker trigger status output _ db.store e)
            | inr (x, e) ↦ absurd (refused (env.new_id (suc db.store.calls)) e h)
          ]
    where
      new :
          {id x : Text} {o : Option RunError}
          → o ≡ none
          → (elim o [ none ↦ some x | some err ↦ none ]) ≡ some id
          → x ≡ id
      new e h = ground (arith, e, h)

      refused :
          (x : Text) {id : Text} {y : RunError} {o : Option RunError}
          → o ≡ some y
          → (elim o [ none ↦ some x | some err ↦ none ]) ≡ some id
          → ⊥
      refused x e h = ground (arith, e, h)

  pub save_job-same :
      (id : Text) (rec : ScheduledJob) (db : Db)
      → (save_job env id rec db).store.runs ≡ db.store.runs
  unfolding save_job
  save_job-same id rec db = ground arith

  set_status-same :
      (id : Text) (d : Option Definition) (status : Text) (db : Db)
      → (set_scheduled_job_status env id d status db).store.runs ≡ db.store.runs
  unfolding set_scheduled_job_status
  set_status-same id d status db = elim (Option-cases (find_job env id db)) [
    | inl e ↦ rw (e, set_scheduled_job_status) refl
    | inr (rec, e) ↦ elim (Bool-cases (is_paused env rec)) [
      | inl p ↦ rw (e, set_scheduled_job_status) (rw p refl)
      | inr p ↦ rw (e, set_scheduled_job_status) (rw p (save_job-same id _ (tick_db env db)))
    ]
  ]

  -- An execution without a dispatch, of which one run tells why.
  refused_run :
      (job trigger message : Text) (status : RunStatus) (db : Db) (after : Db)
      → (status ≡ failed) ⊎ (status ≡ stalled)
      → after.store.runs ≡ (create env job [] trigger status message db).1.store.runs
      → IsRecorded env job trigger db.store (record {
        ids = run_ids env (create env job [] trigger status message db).0;
        dispatched = [];
        db = after;
      })
  refused_run job trigger message status db after k same = record {
    kept = both_kept (create-IsKept job [] trigger status message db) later;
    dispatched_ok = λ id worker p i. elim i [ ];
    ids_ok = λ id i. inr (
        which id k
          (has_kept id _ later (create-adds job [] trigger status message db id (only id _ i))));
  }
    where
      later : IsKept (create env job [] trigger status message db).1.store after.store
      later = untouched (sym same)

      only : (id : Text) (o : Option Text) → In id (run_ids env o) → o ≡ some id
      only id none i = elim i [ ]
      only id (some x) here = refl
      only id (some x) (there i) = elim i [ ]

      which :
          (id : Text)
          → (status ≡ failed) ⊎ (status ≡ stalled)
          → Has after.store id (IsRun job [] trigger status)
          → Has after.store id (IsRun job [] trigger failed)
            ⊎ Has after.store id (IsRun job [] trigger stalled)
      which id (inl e) h = inl (subst (λ t. Has after.store id (IsRun job [] trigger t)) e h)
      which id (inr e) h = inr (subst (λ t. Has after.store id (IsRun job [] trigger t)) e h)

  pub fail_job-IsRecorded :
      (job trigger message : Text) (db : Db)
      → IsRecorded env job trigger db.store (fail_job env job trigger message db)
  unfolding fail_job
  fail_job-IsRecorded job trigger message db =
      refused_run job trigger message failed db _ (inl refl) (set_status-same job none _ _)

  stalled_db :
      (id : Option Text) (job : Text) (d : Definition) (db : Db)
      → (note_stalled env id job d db).store.runs ≡ db.store.runs
  unfolding note_stalled
  stalled_db none job d db = refl
  stalled_db (some run) job d db = set_status-same job (some d) _ db

  pub stall_job-IsRecorded :
      (job trigger : Text) (d : Definition) (db : Db)
      → IsRecorded env job trigger db.store (stall_job env job trigger d db)
  unfolding stall_job
  stall_job-IsRecorded job trigger d db =
      refused_run job trigger (codes "no matching workers available") stalled db _ (inr refl)
        (stalled_db _ job d _)
