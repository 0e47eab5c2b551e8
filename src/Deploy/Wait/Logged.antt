-- ===== src/Deploy/Wait/Logged.antt =====
-- What a wait leaves in the sync log and in the timeline, with a database that takes every call.
use mathlib.Core.Path.{subst}
use wireops.Prelude.{
  ℕ, suc, ◌≡◌, refl, ◌⊎◌, inl, inr, false, Option, none, some, List, [], ◌∷◌, ◌++◌, Bool-cases,
  length, some_inj, sym, ap, ◌∙◌,
}
use wireops.Go.Text.{Text, codes, text_eq_refl}
use wireops.Go.Int.{pos}
use wireops.Go.Value.{lookup}
use wireops.Go.Assoc.{put, lookup-put}
use wireops.Jobs.{JobRun}
use wireops.Phases.{
  Row, Store, Tracker, set_row, open_row, start, open_phase, finish, close_row, observe, elapsed,
  phase_status_error, phase_status_success, phase_status_skipped,
}
use wireops.Deploy.{
  SyncLog, Stack, Db, create_sync_log, mark_error, mark_error_with_status, save_stack,
}
use wireops.Deploy.Failures.{update_sync_log-saved}
use wireops.Deploy.Wait.{
  timed_out, paused, Environment, Ended, interrupted, unknown, cleared, expired, Waited,
  deadline_of, is_off, active_at, poll, close_wait, conclude, open_wait, wait_for, wait_if,
  after_loop, go_on, wait_for_running_jobs, policy_check, waiting,
}

abbrev pub log_status : Option Text → Text
log_status none = codes "running"
log_status (some e) = codes "error"

abbrev pub IsRowStatus : Option Text → Text → Type 0
IsRowStatus none s = (s ≡ phase_status_success) ⊎ (s ≡ phase_status_skipped)
IsRowStatus (some e) s = s ≡ phase_status_error

-- The log is there with the status, and the timeline has one more row, of the policy check.
pub record IsLogged (log : Text) (rows : List Row) (error : Option Text) (db : Db) : Type 0 where
  pub entry : SyncLog
  pub found : lookup db.logs log ≡ some entry
  pub log_ok : entry.status ≡ log_status error
  pub row : Row
  pub rows_are : db.phases.rows ≡ rows ++ (row ∷ [])
  pub of_log : row.sync_log ≡ log
  pub of_phase : row.phase ≡ policy_check
  pub row_ok : IsRowStatus error row.status

-- While the deploy waits.
record IsOpen (log : Text) (rows : List Row) (t : Tracker) (db : Db) : Type 0 where
  entry : SyncLog
  found : lookup db.logs log ≡ some entry
  row : Row
  rows_are : db.phases.rows ≡ rows ++ (row ∷ [])
  of_log : row.sync_log ≡ log
  of_phase : row.phase ≡ policy_check
  current : t.current ≡ some (length rows, row)

set_row-last :
    (rows : List Row) (r q : Row) → set_row (length rows) q (rows ++ (r ∷ [])) ≡ rows ++ (q ∷ [])
unfolding set_row
set_row-last [] r q = refl
set_row-last (x ∷ rows) r q = ap (λ l. x ∷ l) (set_row-last rows r q)

module _ (env : Environment) (works : (n : ℕ) → env.fails n ≡ false) where
  opened :
      (k : ℕ) (log : Text) (db : Db) (l : SyncLog)
      → lookup db.logs log ≡ some l
      → (t : Tracker) × ((open_wait env k (some log, db)).0 ≡ some (log, t))
        × IsOpen log db.phases.rows t (open_wait env k (some log, db)).1
  unfolding open_wait start open_phase
  opened k log db l e =
      let r = open_row log policy_check (env.clock 0) in
      let phases : Store = record {
        rows = db.phases.rows ++ (r ∷ []);
        calls = suc (suc db.phases.calls);
        observed = db.phases.observed;
      } in
      let (q, at, status, same) =
        update_sync_log-saved env.fails works log (codes "waiting_jobs") (env.format (paused k))
          (pos 0) (record db { phases = phases }) l e in
      rw (works db.phases.calls, works (suc db.phases.calls))
        (
          record { sync_log_id = log; current = some (length db.phases.rows, r) },
          refl,
          record {
            entry = q;
            found = at;
            row = r;
            rows_are = same;
            of_log = refl;
            of_phase = refl;
            current = refl;
          },
        )

  finished :
      (status detail : Text) (now : ℕ) (t : Tracker) (rows : List Row) (r : Row) (s : Store)
      → t.current ≡ some (length rows, r)
      → r.phase ≡ policy_check
      → s.rows ≡ rows ++ (r ∷ [])
      → (q : Row) × ((finish env.fails policy_check status detail now t s).2.rows
          ≡ rows ++ (q ∷ []))
        × (q.sync_log ≡ r.sync_log)
        × (q.phase ≡ policy_check)
        × (q.status ≡ status)
  unfolding finish close_row observe
  finished status detail now t rows r s open_one phase e =
      let q : Row = record r {
        phase = policy_check;
        status = status;
        duration_ms = elapsed r.started_at now;
        detail = detail;
      } in
      rw (open_one, phase, text_eq_refl policy_check, works s.calls, e)
        (q, set_row-last rows r q, refl, refl, refl)

  closed :
      (log : Text) (error : Option Text) (status detail : Text) (n : ℕ) (t : Tracker)
      (rows : List Row) (db : Db)
      → IsOpen log rows t db
      → IsRowStatus error status
      → IsLogged log rows error
          (close_wait env (some (log, t)) status (log_status error) detail n db)
  unfolding close_wait
  closed log error status detail n t rows db v final =
      let done = finish env.fails policy_check status detail (env.clock n) t db.phases in
      let (r, rows_are, of_log, of_phase, ended) =
        finished status detail (env.clock n) t rows v.row db.phases v.current v.of_phase
          v.rows_are in
      let (q, at, log_ok, same) =
        update_sync_log-saved env.fails works log (log_status error) detail
          (elapsed (env.clock 0) (env.clock n)) (record db { phases = done.2 }) v.entry v.found in
      record {
        entry = q;
        found = at;
        log_ok = log_ok;
        row = r;
        rows_are = same ∙ rows_are;
        of_log = of_log ∙ v.of_log;
        of_phase = of_phase;
        row_ok = rw ended final;
      }

  concluded :
      (id log : Text) (t : Tracker) (rows : List Row) (st : Stack) (db : Db) (e : Ended)
      → IsOpen log rows t db
      → IsLogged log rows
          (conclude env id (some (log, t)) st db e).error
          (conclude env id (some (log, t)) st db e).db
  unfolding conclude mark_error mark_error_with_status save_stack
  concluded id log t rows st db (interrupted n err) v =
      closed log (some err) phase_status_error err n t rows db v refl
  concluded id log t rows st db (cleared n) v =
      closed log none phase_status_success _ n t rows db v (inl refl)
  concluded id log t rows st db (unknown n) v =
      closed log none phase_status_skipped _ n t rows db v (inr refl)
  concluded id log t rows st db (expired n k) v =
      let message = env.format (timed_out (elapsed (env.clock 0) (env.clock n)) k) in
      let before = close_wait env (some (log, t)) phase_status_error (codes "error") message n db in
      let l = closed log (some message) phase_status_error message n t rows db v refl in
      rw (works before.phases.calls) (record {
        entry = l.entry;
        found = l.found;
        log_ok = l.log_ok;
        row = l.row;
        rows_are = l.rows_are;
        of_log = l.of_log;
        of_phase = l.of_phase;
        row_ok = l.row_ok;
      })

  looped :
      (id log : Text) (t : Tracker) (rows : List Row) (st : Stack) (db : Db) (o : Option Ended)
      (r : Waited)
      → IsOpen log rows t db
      → after_loop env id (some (log, t)) st db o ≡ some r
      → IsLogged log rows r.error r.db
  unfolding after_loop
  looped id log t rows st db none r v h = cc h
  looped id log t rows st db (some e) r v h =
      subst (λ x. IsLogged log rows x.error x.db) (some_inj h) (concluded id log t rows st db e v)

  waited :
      (fuel : ℕ) (new_id repo id trigger commit : Text) (k : ℕ) (st : Stack) (db : Db) (r : Waited)
      → wait_for env fuel new_id repo id trigger commit k st db ≡ some r
      → IsLogged new_id db.phases.rows r.error r.db
  unfolding wait_for create_sync_log
  waited fuel new_id repo id trigger commit k st db r h =
      let (t, is, v) = opened k new_id begun new (lookup-put db.logs new_id new) in
      looped id new_id t db.phases.rows st (open_wait env k (some new_id, begun)).1
        (poll env fuel repo (deadline_of st) 1) r v
        (rw (works db.phases.calls, works (suc db.phases.calls), is) at h)
    where
      new : SyncLog
      new = record {
        stack = id;
        trigger = trigger;
        status = codes "running";
        commit_sha = commit;
        commit_message = env.format (waiting k);
        output = [];
        duration_ms = pos 0;
      }

      begun : Db
      begun = record {
        logs = put db.logs new_id new;
        stacks = db.stacks;
        phases = record {
          rows = db.phases.rows;
          calls = suc (suc db.phases.calls);
          observed = db.phases.observed;
        };
      }

  tried :
      (fuel : ℕ) (new_id repo id trigger commit : Text) (st : Stack) (db : Db)
      (o : Option (List (Text × JobRun))) (r : Waited)
      → active_at env repo 0 ≡ o
      → wait_if env fuel new_id repo id trigger commit st db o ≡ some r
      → (r ≡ go_on env st db)
        ⊎ ((x : Text × JobRun) × (xs : List (Text × JobRun)) × (active_at env repo 0
              ≡ some (x ∷ xs))
            × IsLogged new_id db.phases.rows r.error r.db)
  unfolding wait_if
  tried fuel new_id repo id trigger commit st db none r at h = inl (sym (some_inj h))
  tried fuel new_id repo id trigger commit st db (some []) r at h = inl (sym (some_inj h))
  tried fuel new_id repo id trigger commit st db (some (x ∷ xs)) r at h =
      inr (x, xs, at, waited fuel new_id repo id trigger commit (length (x ∷ xs)) st db r h)

  -- With a database that takes every call, a deploy either goes on at once and nothing is written, or
  -- active runs are found and it waits. Then, when the call returns, the sync log of the wait is there,
  -- and the timeline has one row more, which is closed: where the deploy goes on the log says running and
  -- the row success or skipped, and where it is given up both say error.
  pub wait_for_running_jobs-logged :
      (fuel : ℕ) (new_id repo id trigger commit : Text) (st : Stack) (db : Db) (r : Waited)
      → wait_for_running_jobs env fuel new_id repo id trigger commit st db ≡ some r
      → (r ≡ go_on env st db)
        ⊎ ((x : Text × JobRun) × (xs : List (Text × JobRun)) × (active_at env repo 0
              ≡ some (x ∷ xs))
            × IsLogged new_id db.phases.rows r.error r.db)
  unfolding wait_for_running_jobs
  wait_for_running_jobs-logged fuel new_id repo id trigger commit st db r h =
      elim (Bool-cases (is_off st)) [
        | inl off ↦ inl (sym (some_inj (rw (off, wait_for_running_jobs) at h)))
        | inr on ↦
            tried fuel new_id repo id trigger commit st db (active_at env repo 0) r refl
              (rw (on, wait_for_running_jobs) at h)
      ]
