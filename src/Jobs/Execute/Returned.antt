-- ===== src/Jobs/Execute/Returned.antt =====
-- internal/jobscheduler/scheduler.go: the runs whose ids executeJob returns, on every branch.
use wireops.Jobs.Execute.{get_elem?}
use wireops.Jobs.Definition.{mode_once_all}
use wireops.Go.Text.{text_eq}
use wireops.Prelude.{zero}
use wireops.Prelude.{
  ℕ, suc, ◌≡◌, refl, inl, inr, sym, ap, Bool, true, false, Option, none, some, List, [], ◌∷◌,
  Bool-cases, Option-cases, some_inj, In, here, there, In-cons,
}
use mathlib.Core.Path.{subst}
use wireops.Go.Text.{Text}
use wireops.Jobs.{Store, pending}
use wireops.Jobs.Definition.{Definition}
use wireops.Jobs.Sweep.{ScheduledJob}
use wireops.Jobs.Dispatch.{JobRunParams}
use wireops.Jobs.Execute.{
  Db, Surroundings, create, find_job, save_job, run_ids, create_runs, targets_of, run_on, with_env,
  on_workers, with_definition, with_job, execute_job, pick_worker, tick_db,
}
use wireops.Jobs.Execute.Recorded.{IsKept, untouched, both_kept, IsRun, Has}
use wireops.Jobs.Execute.Outcomes.{
  IsRecorded, has_kept, create-IsKept, create-adds, save_job-same, fail_job-IsRecorded,
  stall_job-IsRecorded,
}

get_elem?-In : {w : Text} (ws : List Text) (i : ℕ) → get_elem? ws i ≡ some w → In w ws
get_elem?-In [] i h = cc h
get_elem?-In (x ∷ ws) zero h = rw (some_inj h) here
get_elem?-In (x ∷ ws) (suc i) h = there (get_elem?-In ws i h)

pick_worker-In : (job w : Text) (ws : List Text) → pick_worker job ws ≡ some w → In w ws
unfolding pick_worker
pick_worker-In job w [] h = cc h
pick_worker-In job w (v ∷ []) h = rw (some_inj h) here
pick_worker-In job w (v ∷ u ∷ ws) h = get_elem?-In (v ∷ u ∷ ws) _ h

module _ (env : Surroundings) where
  targets-In :
      (job w : Text) (d : Definition) (ws : List Text) → In w (targets_of env job d ws) → In w ws
  targets-In job w d ws i = elim (Bool-cases (text_eq d.mode mode_once_all)) [
    | inl e ↦ subst (In w) (rw e refl) i
    | inr e ↦ picked (pick_worker job ws) refl (subst (In w) (rw e refl) i)
  ]
    where
      picked : (o : Option Text) → pick_worker job ws ≡ o → In w (run_ids env o) → In w ws
      picked none e j = elim j [ ]
      picked (some v) e here = pick_worker-In job v ws e
      picked (some v) e (there j) = elim j [ ]

  -- The runs of the loop, and the database after it.
  record AreCreated (job trigger : Text) (ws : List Text) (s : Store)
      (r : List (Text × Text × JobRunParams) × Db) : Type 0 where
    pub kept : IsKept s r.1.store
    pub made :
        (id worker : Text) (p : JobRunParams)
        → In (id, worker, p) r.0
        → Has r.1.store id (IsRun job worker trigger pending) × In worker ws

  one_more :
      (job trigger worker : Text) (p : JobRunParams) (ws : List Text) (s : Store) (o : Option Text)
      (created : Store) (r : List (Text × Text × JobRunParams) × Db)
      → IsKept s created
      → ((id : Text) → o ≡ some id → Has created id (IsRun job worker trigger pending))
      → AreCreated job trigger ws created r
      → AreCreated job trigger
          (worker ∷ ws)
          s
          (elim o [ none ↦ r.0 | some run ↦ (run, worker, p) ∷ r.0 ], r.1)
  one_more job trigger worker p ws s none created r k h c = record {
    kept = both_kept k c.kept;
    made = λ id w q i. let (a, b) = c.made id w q i in (a, there b);
  }
  one_more job trigger worker p ws s (some run) created r k h c = record {
    kept = both_kept k c.kept;
    made = λ id w q i. elim (In-cons i) [
      | inl e ↦
          let at : id ≡ run = ap (λ t. t.0) e in
          let to : w ≡ worker = ap (λ t. t.1) e in
          rw (at, to) (has_kept run _ c.kept (h run refl), here)
      | inr j ↦ let (a, b) = c.made id w q j in (a, there b)
    ];
  }

  create_runs-AreCreated :
      (job trigger : Text) (p : JobRunParams) (ws : List Text) (db : Db)
      → AreCreated job trigger ws db.store (create_runs env job trigger p ws db)
  unfolding create_runs
  create_runs-AreCreated job trigger p [] db = record {
    kept = untouched refl;
    made = λ id w q i. elim i [ ];
  }
  create_runs-AreCreated job trigger p (worker ∷ ws) db =
      one_more job trigger worker p ws db.store _ _ _
        (create-IsKept env job worker trigger pending [] db)
        (create-adds env job worker trigger pending [] db)
        (create_runs-AreCreated job trigger p ws (create env job worker trigger pending [] db).1)

  run_on-IsRecorded :
      (job trigger : Text) (d : Definition) (tags : List Text) (p : JobRunParams)
      (rec : ScheduledJob) (db : Db)
      → IsRecorded env job trigger db.store
          (run_on env job trigger d (env.workers_by_tags tags) p rec db)
  unfolding run_on
  run_on-IsRecorded job trigger d tags p rec db =
      let ws = targets_of env job d (env.workers_by_tags tags) in
      let c = create_runs-AreCreated job trigger p ws db in
      let created = (create_runs env job trigger p ws db).1 in
      let same : IsKept created.store (save_job env job _ created).store =
        untouched (sym (save_job-same env job _ created)) in
      record {
        kept = both_kept c.kept same;
        dispatched_ok = λ id w q i.
            let (a, b) = c.made id w q i in
            (has_kept id _ same a, tags, targets-In job w d (env.workers_by_tags tags) b);
        ids_ok = λ id i. inl i;
      }

  on_workers-IsRecorded :
      (job trigger : Text) (d : Definition) (tags ws : List Text) (rec : ScheduledJob) (db : Db)
      → env.workers_by_tags tags ≡ ws
      → IsRecorded env job trigger db.store (on_workers env job trigger d ws rec db)
  unfolding on_workers with_env
  on_workers-IsRecorded job trigger d tags [] rec db e = stall_job-IsRecorded env job trigger d db
  on_workers-IsRecorded job trigger d tags (w ∷ ws) rec db e =
      elim (Option-cases (env.load_env job)) [
        | inl n ↦ rw (n, on_workers) (fail_job-IsRecorded env job trigger _ db)
        | inr (vars, v) ↦ elim (Option-cases (env.resolve_configs rec.repository d)) [
          | inl n ↦ rw (v, on_workers) (rw (n, with_env) (fail_job-IsRecorded env job trigger _ db))
          | inr (files, f) ↦
              rw (v, on_workers)
                (rw (f, with_env) (rw (← e) (run_on-IsRecorded job trigger d tags _ rec db)))
        ]
      ]

  with_job-IsRecorded :
      (job trigger : Text) (rec : ScheduledJob) (db : Db)
      → IsRecorded env job trigger db.store (with_job env job trigger rec db)
  unfolding with_job with_definition
  with_job-IsRecorded job trigger rec db = elim (Option-cases (env.backends_error job)) [
    | inr (m, e) ↦ rw (e, with_job) (fail_job-IsRecorded env job trigger m db)
    | inl e ↦ elim (Option-cases (env.parse_job_file rec.repository rec.job_file)) [
      | inl n ↦ rw (e, with_job) (rw n (fail_job-IsRecorded env job trigger _ db))
      | inr (d, f) ↦
          rw (e, with_job) (rw f (on_workers-IsRecorded job trigger d d.tags _ _ db refl))
    ]
  ]

  nothing_done :
      (job trigger : Text) (s : Store) (db : Db)
      → s.runs ≡ db.store.runs
      → IsRecorded env job trigger s (record { ids = []; dispatched = []; db = db })
  nothing_done job trigger s db e = record {
    kept = untouched e;
    dispatched_ok = λ id w p i. elim i [ ];
    ids_ok = λ id i. elim i [ ];
  }

  -- On every branch of executeJob and whichever calls of the database fail: each run that goes to a
  -- worker is in the database under its id, pending, for this job, this trigger and that worker, which the
  -- dispatcher named; each id that is returned is one of those, or that of a run of this job without a
  -- worker that failed or is stalled; and no run from before is changed.
  pub execute_job-IsRecorded :
      (shut_down : Bool) (job trigger : Text) (db : Db)
      → IsRecorded env job trigger db.store (execute_job env shut_down job trigger db)
  unfolding execute_job
  execute_job-IsRecorded true job trigger db = nothing_done job trigger db.store db refl
  execute_job-IsRecorded false job trigger db = elim (Option-cases (find_job env job db)) [
    | inl e ↦ rw (e, execute_job) (nothing_done job trigger db.store _ refl)
    | inr (rec, e) ↦
        let v = with_job-IsRecorded job trigger rec (tick_db env db) in
        rw (e, execute_job)
          (record {
            kept = record { same = v.kept.same };
            dispatched_ok = v.dispatched_ok;
            ids_ok = v.ids_ok;
          })
  ]
