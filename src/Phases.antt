-- ===== src/Phases.antt =====
-- internal/sync/phase_tracker.go and internal/constants/deploy_phases.go: the rows of a deploy's
-- timeline. The store of the rows (PocketBase) is a parameter: each of its calls, counted, can fail.
pub mod Rows
pub mod Tidy
pub mod Starting
pub mod Timeline
pub mod Metrics
pub mod Tests
use wireops.Prelude.{
  ℕ, zero, suc, ◌+◌, ◌-◌, ◌≡◌, Bool, true, false, Option, none, some, List, [], ◌∷◌, ◌++◌, length,
  ltb, ◌==◌, if◌then◌else◌,
}
use wireops.Go.Text.{Text, codes, text_eq}
use wireops.Go.Int.{ℤ, pos, negsuc}

abbrev pub deploy_phase_order : List Text
deploy_phase_order =
    codes "git_fetch"
    ∷ codes "lint"
    ∷ codes "render"
    ∷ codes "secrets_fetch"
    ∷ codes "policy_check"
    ∷ codes "dispatch"
    ∷ codes "worker_ack"
    ∷ codes "compose_up"
    ∷ codes "post_check"
    ∷ codes "notify"
    ∷ []

abbrev pub phase_status_running : Text
phase_status_running = codes "running"

abbrev pub phase_status_success : Text
phase_status_success = codes "success"

abbrev pub phase_status_error : Text
phase_status_error = codes "error"

abbrev pub phase_status_skipped : Text
phase_status_skipped = codes "skipped"

-- The index of the first phase with the name, the number of the phases where there is none.
unfoldable pub index_in : Text → List Text → ℕ
index_in phase [] = 0
index_in phase (p ∷ ps) = let rest = index_in phase ps in if text_eq p phase then 0 else suc rest

unfoldable pub phase_seq : Text → ℕ
phase_seq phase = index_in phase deploy_phase_order

-- A record of `sync_log_phases`. Times are milliseconds.
pub record Row : Type 0 where
  pub sync_log : Text
  pub phase : Text
  pub status : Text
  pub started_at : ℕ
  pub duration_ms : ℤ
  pub detail : Text
  pub seq : ℕ

-- `time.Since(startedAt).Milliseconds()`.
unfoldable pub elapsed : ℕ → ℕ → ℤ
elapsed started now = if ltb now started then negsuc (started - now - 1) else pos (now - started)

-- A call of `deploymetrics.RecordPhaseDuration`.
pub record Observation : Type 0 where
  pub phase : Text
  pub status : Text
  pub duration_ms : ℤ

-- The rows that a tracker has saved, by their numbers, the calls of the store so far, and what was
-- reported to the metrics.
pub record Store : Type 0 where
  pub rows : List Row
  pub calls : ℕ
  pub observed : List Observation

-- `phaseTracker`; `current` is a record in memory, with the number of its row.
pub record Tracker : Type 0 where
  pub sync_log_id : Text
  pub current : Option (ℕ × Row)

pub data PhaseError : Type 0 where
  start_failed : Text → PhaseError
  finish_failed : Text → PhaseError
  skipped_failed : Text → PhaseError
  completed_failed : Text → PhaseError

abbrev pub Result : Type 0
Result = Option PhaseError × Tracker × Store

abbrev pub without_error : Result → Tracker × Store
without_error (e, t, s) = (t, s)

unfoldable pub set_row : ℕ → Row → List Row → List Row
set_row i r [] = []
set_row zero r (x ∷ xs) = r ∷ xs
set_row (suc i) r (x ∷ xs) = x ∷ set_row i r xs

abbrev pub tick : Store → Store
tick s = record s { calls = suc s.calls }

unfoldable pub observe : Text → Text → ℤ → Store → Store
observe phase status ms s = record s {
  observed = record { phase = phase; status = status; duration_ms = ms } ∷ s.observed;
}

abbrev pub open_row : Text → Text → ℕ → Row
open_row log phase now = record {
  sync_log = log;
  phase = phase;
  status = phase_status_running;
  started_at = now;
  duration_ms = pos 0;
  detail = [];
  seq = phase_seq phase;
}

abbrev pub closed_row : Text → Text → Text → ℕ → ℤ → Text → Row
closed_row log phase status started ms detail = record {
  sync_log = log;
  phase = phase;
  status = status;
  started_at = started;
  duration_ms = ms;
  detail = detail;
  seq = phase_seq phase;
}

pub data Call : Type 0 where
  starting : Text → ℕ → ℕ → Call
  finishing : Text → Text → Text → ℕ → Call
  failing : Text → ℕ → Call
  skipping : Text → Text → ℕ → Call
  completing : Text → Text → ℕ → ℤ → Text → Call

-- `newPhaseTracker`, and a store without rows of it.
abbrev pub new_phase_tracker : Text → Tracker
new_phase_tracker log = record { sync_log_id = log; current = none }

abbrev pub no_rows : Store
no_rows = record { rows = []; calls = 0; observed = [] }

-- `fails n` tells whether the store's call number `n` returns an error.
module _ (fails : ℕ → Bool) where
  -- `finish` on the open record, which is written in memory before it is saved.
  unfoldable pub close_row : ℕ → Row → Text → Text → ℕ → Tracker → Store → Result
  close_row i r status detail now t s =
      let ms = elapsed r.started_at now in
      let written = record r { status = status; duration_ms = ms; detail = detail } in
      if fails s.calls
      then (some (finish_failed r.phase), record t { current = some (i, written) }, tick s)
      else (
        none,
        record t { current = none },
        observe r.phase status ms (record (tick s) { rows = set_row i written s.rows }),
      )

  unfoldable pub finish : Text → Text → Text → ℕ → Tracker → Store → Result
  finish phase status detail now t s = elim t.current [
    | none ↦ (none, t, s)
    | some (i, r) ↦
        if text_eq r.phase phase then close_row i r status detail now t s else (none, t, s)
  ]

  -- What `start` does once no phase is open: the collection is looked up, and the row is saved.
  unfoldable pub open_phase : Text → ℕ → Tracker → Store → Result
  open_phase phase now t s =
      if fails s.calls
      then (some (start_failed phase), t, tick s)
      else if fails (suc s.calls)
      then (some (start_failed phase), t, tick (tick s))
      else (
        none,
        record t { current = some (length s.rows, open_row t.sync_log_id phase now) },
        record (tick (tick s)) { rows = s.rows ++ (open_row t.sync_log_id phase now ∷ []) },
      )

  -- `start` after its `finish`.
  unfoldable pub then_open : Text → ℕ → Result → Result
  then_open phase now (some e, t, s) = (some e, t, s)
  then_open phase now (none, t, s) = open_phase phase now t s

  unfoldable pub start : Text → ℕ → ℕ → Tracker → Store → Result
  start phase now later t s = elim t.current [
    | none ↦ open_phase phase later t s
    | some (i, r) ↦ then_open phase later (finish r.phase phase_status_success [] now t s)
  ]

  -- The error is logged, not returned.
  unfoldable pub finish_current_as_error : Text → ℕ → Tracker → Store → Tracker × Store
  finish_current_as_error detail now t s = elim t.current [
    | none ↦ (t, s)
    | some (i, r) ↦ without_error (finish r.phase phase_status_error detail now t s)
  ]

  -- What `recordSkipped` and `recordCompleted` do with the row that they write.
  unfoldable pub add_closed : PhaseError → Row → Tracker → Store → Result
  add_closed error r t s =
      if fails s.calls
      then (some error, t, tick s)
      else if fails (suc s.calls)
      then (some error, t, tick (tick s))
      else (
        none,
        t,
        observe r.phase r.status r.duration_ms
            (record (tick (tick s)) { rows = s.rows ++ (r ∷ []) }),
      )

  unfoldable pub record_skipped : Text → Text → ℕ → Tracker → Store → Result
  record_skipped phase detail now t s =
      add_closed (skipped_failed phase)
        (closed_row t.sync_log_id phase phase_status_skipped now (pos 0) detail) t s

  unfoldable pub record_completed : Text → Text → ℕ → ℤ → Text → Tracker → Store → Result
  record_completed phase status started ms detail t s =
      add_closed (completed_failed phase) (closed_row t.sync_log_id phase status started ms detail)
        t s

  -- The calls of a deploy's timeline, with the times that they read.
  unfoldable pub perform : Call → Tracker × Store → Tracker × Store
  perform (starting phase now later) (t, s) = without_error (start phase now later t s)
  perform (finishing phase status detail now) (t, s) =
      without_error (finish phase status detail now t s)
  perform (failing detail now) (t, s) = finish_current_as_error detail now t s
  perform (skipping phase detail now) (t, s) = without_error (record_skipped phase detail now t s)
  perform (completing phase status started ms detail) (t, s) =
      without_error (record_completed phase status started ms detail t s)

  unfoldable pub perform_all : List Call → Tracker × Store → Tracker × Store
  perform_all [] r = r
  perform_all (c ∷ cs) r = perform_all cs (perform c r)

-- Every method of the nil tracker returns nil at once.
unfoldable pub on_tracker :
    (Tracker → Store → Result) → Option Tracker → Store → Option PhaseError × Option Tracker × Store
on_tracker method none s = (none, none, s)
on_tracker method (some t) s = let (e, u, r) = method t s in (e, some u, r)
