-- ===== src/Deploy/Failures.antt =====
-- internal/sync/reconciler.go: what a failure before the deploy's own sync log leaves behind, with a
-- database that takes every call.
use mathlib.Core.List.{append_assoc}
use mathlib.Core.Path.{subst}
use wireops.Prelude.{
  Option, sym, ℕ, suc, ◌≡◌, refl, ◌∙◌, ap, Bool, false, some, List, [], ◌∷◌, ◌++◌,
}
use wireops.Go.Text.{Text, codes}
use wireops.Go.Int.{ℤ, pos}
use wireops.Go.Value.{lookup}
use wireops.Go.Assoc.{put, lookup-put}
use wireops.Jobs.{truncate_output}
use wireops.Phases.{
  Row, Store, Tracker, completing, new_phase_tracker, closed_row, perform, perform_all,
  record_completed, add_closed, observe, phase_status_success,
}
use wireops.Deploy.{
  fill_failure, SyncError, SyncLog, Db, create_sync_log, update_sync_log, change_log, save_log,
  completed, log_failure_with_phase, log_failure_with_phase_and,
}

-- The rows of the phases that succeeded before.
abbrev pub rows_of : Text → List (Text × ℕ × ℤ × Text) → List Row
rows_of log [] = []
rows_of log ((phase, started, ms, detail) ∷ prior) =
    closed_row log phase phase_status_success started ms detail ∷ rows_of log prior

module _ (fails : ℕ → Bool) (works : (n : ℕ) → fails n ≡ false) where
  -- A log that is there is updated, and the timeline stays.
  pub update_sync_log-saved :
      (log status output : Text) (ms : ℤ) (db : Db) (l : SyncLog)
      → lookup db.logs log ≡ some l
      → (q : SyncLog) × (lookup (update_sync_log fails log status output ms db).1.logs log ≡ some q)
        × (q.status ≡ status)
        × ((update_sync_log fails log status output ms db).1.phases.rows ≡ db.phases.rows)
  unfolding update_sync_log change_log save_log
  update_sync_log-saved log status output ms db l e =
      rw (works db.phases.calls, e, works (suc db.phases.calls))
        (changed, rw (lookup-put db.logs log changed) refl, refl, refl)
    where
      changed : SyncLog
      changed = record l { status = status; output = truncate_output output; duration_ms = ms }

  abbrev with_row : Row → Store → Store
  with_row r s = record s {
    rows = s.rows ++ (r ∷ []);
    calls = suc (suc s.calls);
    observed =
        record { phase = r.phase; status = r.status; duration_ms = r.duration_ms } ∷ s.observed;
  }

  completing-row :
      (phase status detail : Text) (started : ℕ) (ms : ℤ) (t : Tracker) (s : Store)
      → perform fails (completing phase status started ms detail) (t, s)
        ≡ (t, with_row (closed_row t.sync_log_id phase status started ms detail) s)
  unfolding perform record_completed add_closed observe
  completing-row phase status detail started ms t s = rw (works s.calls, works (suc s.calls)) refl

  filled :
      (prior : List (Text × ℕ × ℤ × Text)) (phase detail : Text) (started : ℕ) (ms : ℤ)
      (t : Tracker) (s : Store)
      → (perform_all fails
          (completed fails prior ++ (completing phase (codes "error") started ms detail ∷ []))
          (t, s)).1.rows
        ≡ s.rows
          ++ (rows_of t.sync_log_id prior
              ++ (closed_row t.sync_log_id phase (codes "error") started ms detail ∷ []))
  unfolding perform_all
  filled [] phase detail started ms t s =
      ap (λ r. r.1.rows) (completing-row phase (codes "error") detail started ms t s)
  filled ((p, at, took, info) ∷ prior) phase detail started ms t s =
      ap
        (λ r.
          (perform_all fails
            (completed fails prior ++ (completing phase (codes "error") started ms detail ∷ []))
            r).1.rows)
        (completing-row p phase_status_success info at took t s)
      ∙ filled prior phase detail started ms t
          (with_row (closed_row t.sync_log_id p phase_status_success at took info) s)
      ∙ append_assoc s.rows (_ ∷ []) _

  -- A failure before the deploy's own sync log is recorded, if the database takes every call: the new sync
  -- log says error, and its timeline holds a row of success for each phase that is passed as done, in their
  -- order, and behind them one row of error for the phase that failed, with the message.
  pub log_failure_with_phase-lem :
      (id stack trigger commit message phase : Text) (started : ℕ) (ms : ℤ)
      (prior : List (Text × ℕ × ℤ × Text)) (db : Db)
      → (q : SyncLog) × (lookup
            (log_failure_with_phase fails id stack trigger commit message phase started ms prior
              db).1.logs
            id
          ≡ some q)
        × (q.status ≡ codes "error")
        × ((log_failure_with_phase fails id stack trigger commit message phase started ms prior
              db).1.phases.rows
            ≡ db.phases.rows
              ++ (rows_of id prior
                  ++ (closed_row id phase (codes "error") started ms message ∷ [])))
  unfolding log_failure_with_phase log_failure_with_phase_and create_sync_log fill_failure
  log_failure_with_phase-lem id stack trigger commit message phase started ms prior db =
      let timeline =
        completed fails prior ++ (completing phase (codes "error") started ms message ∷ []) in
      let done = perform_all fails timeline (new_phase_tracker id, begun.phases) in
      let (q, at, status, same) =
        update_sync_log-saved id (codes "error") message (pos 0)
          (record { logs = begun.logs; stacks = begun.stacks; phases = done.1 }) new
          (lookup-put db.logs id new) in
      subst
        (λ x.
          (q : SyncLog) × (lookup (fill x).1.logs id ≡ some q)
          × (q.status ≡ codes "error")
          × ((fill x).1.phases.rows
              ≡ db.phases.rows
                ++ (rows_of id prior
                    ++ (closed_row id phase (codes "error") started ms message ∷ []))))
        (sym created)
        (
          q,
          at,
          status,
          same ∙ filled prior phase message started ms (new_phase_tracker id) begun.phases,
        )
    where
      new : SyncLog
      new = record {
        stack = stack;
        trigger = trigger;
        status = codes "running";
        commit_sha = commit;
        commit_message = [];
        output = [];
        duration_ms = pos 0;
      }

      begun : Db
      begun = record {
        logs = put db.logs id new;
        stacks = db.stacks;
        phases = record {
          rows = db.phases.rows;
          calls = suc (suc db.phases.calls);
          observed = db.phases.observed;
        };
      }

      created : create_sync_log fails id stack trigger commit [] db ≡ (some id, begun)
      created = rw (works db.phases.calls, works (suc db.phases.calls)) refl

      fill : Option Text × Db → Option SyncError × Db
      fill = fill_failure fails message phase started ms (completed fails prior)
