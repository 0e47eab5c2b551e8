-- ===== src/Deploy.antt =====
-- internal/sync/reconciler.go: what the steps of a deploy write of their outcome, into the sync log, the
-- timeline and the stack. The database is a parameter: each of its calls, counted by the store of the
-- phases, can fail. Times are milliseconds, and texts where the code formats them.
pub mod Wait
pub mod Converge
pub mod Failures
pub mod Tickers
pub mod Tests
use wireops.Prelude.{
  ℕ, suc, ◌-◌, ◌≡◌, Bool, true, false, ◌&&◌, ◌||◌, not, Option, none, some, List, [], ◌∷◌, ◌++◌,
  ltb, ◌==◌, if◌then◌else◌,
}
use wireops.Go.Text.{Text, codes, text_eq, is_empty}
use wireops.Go.Int.{ℤ, pos, negsuc}
use wireops.Go.Value.{lookup}
use wireops.Go.Assoc.{put}
use wireops.Jobs.{truncate_output}
use wireops.Phases.{
  Store, Tracker, Call, completing, skipping, new_phase_tracker, record_completed, perform_all,
  without_error, phase_status_success,
}

-- A record of `sync_logs`.
pub record SyncLog : Type 0 where
  pub stack : Text
  pub trigger : Text
  pub status : Text
  pub commit_sha : Text
  pub commit_message : Text
  pub output : Text
  pub duration_ms : ℤ

-- A record of `stacks`, with the fields that are read or written here.
pub record Stack : Type 0 where
  pub status : Text
  pub last_synced_at : Text
  pub wait_running_jobs : Text
  pub wait_running_jobs_timeout_seconds : ℤ
  pub secret_error : Bool
  pub last_error_category : Text
  pub last_error_reason : Text
  pub last_error_message : Text
  pub last_error_at : Text
  pub last_error_commit : Text

pub record Db : Type 0 where
  pub logs : List (Text × SyncLog)
  pub stacks : List (Text × Stack)
  pub phases : Store

pub data SyncError : Type 0 where
  create_log_failed : SyncError
  update_log_failed : Text → SyncError
  save_failed : Text → SyncError

abbrev pub calls_of : Db → ℕ
calls_of db = db.phases.calls

abbrev pub tick : Db → Db
tick db = record db { phases = record db.phases { calls = suc db.phases.calls } }

-- The stack's status that the paths without a deploy restore.
unfoldable pub effective_prev_status : Stack → Text
effective_prev_status st =
    if text_eq st.status (codes "pending") && not (is_empty st.last_synced_at)
    then codes "active"
    else st.status

abbrev pub should_mark_pending_on_queue : Stack → Bool
should_mark_pending_on_queue st = not (text_eq st.status (codes "error"))

unfoldable pub resolve_post_deploy_status : Text → Bool → Text
resolve_post_deploy_status check_status pause_after =
    if text_eq check_status (codes "active") && pause_after then codes "paused" else check_status

-- `protocol.CommandResult`, as far as it is read here.
pub record CommandResult : Type 0 where
  pub output : Text
  pub error : Text
  pub timed_out : Bool

-- An error of the dispatcher: its text, and whether it is context.DeadlineExceeded.
pub record DispatchError : Type 0 where
  pub message : Text
  pub deadline_exceeded : Bool

unfoldable pub dispatch_timed_out : CommandResult → Option DispatchError → Bool
dispatch_timed_out result none = result.timed_out
dispatch_timed_out result (some e) = e.deadline_exceeded

unfoldable pub deploy_failure_reason : CommandResult → Option DispatchError → Text
deploy_failure_reason result e = if dispatch_timed_out result e then codes "timeout" else elim e [
  | some err ↦ codes "dispatch"
  | none ↦ if is_empty result.error then [] else codes "compose"
]

unfoldable pub extract_dispatch_result : CommandResult → Option DispatchError → Text × Option Text
extract_dispatch_result result none =
    (result.output, if is_empty result.error then none else some result.error)
extract_dispatch_result result (some e) = (result.output, some e.message)

-- The record in memory keeps what is set, saved or not.
unfoldable pub clear_last_error : Stack → Stack
clear_last_error st = record st {
  last_error_category = [];
  last_error_reason = [];
  last_error_message = [];
  last_error_at = [];
  last_error_commit = [];
}

abbrev pub with_failure : Text → Text → Text → Text → Text → Stack → Stack
with_failure category reason message at commit st = record st {
  last_error_category = category;
  last_error_reason = reason;
  last_error_message = truncate_output message;
  last_error_at = at;
  last_error_commit = commit;
}

module _ (fails : ℕ → Bool) where
  unfoldable pub save_stack : Text → Stack → Db → Option SyncError × Db
  save_stack id st db =
      if fails (calls_of db)
      then (some (save_failed id), tick db)
      else (none, record (tick db) { stacks = put db.stacks id st })

  unfoldable pub mark_error_with_status : Text → Text → Stack → Db → Option SyncError × Stack × Db
  mark_error_with_status id status st db =
      let (e, saved) = save_stack id (record st { status = status }) db in
      (e, record st { status = status }, saved)

  unfoldable pub mark_error : Text → Stack → Db → Option SyncError × Stack × Db
  mark_error id st db = mark_error_with_status id (codes "error") st db

  unfoldable pub mark_stack_failure :
      Text → Text → Text → Text → Text → Text → Text → Stack → Db → Option SyncError × Stack × Db
  mark_stack_failure id category reason status message at commit st db =
      mark_error_with_status id status (with_failure category reason message at commit st) db

  unfoldable pub mark_sync_error :
      Text → Text → Text → Text → Stack → Db → Option SyncError × Stack × Db
  mark_sync_error id message at commit st db =
      mark_stack_failure id (codes "sync") [] (codes "error") message at commit st db

  unfoldable pub mark_deploy_failure :
      Text → Text → Text → Text → Text → Text → Stack → Db → Option SyncError × Stack × Db
  mark_deploy_failure id reason status message at commit st db =
      mark_stack_failure id (codes "deploy") reason status message at commit st db

  unfoldable pub mark_secret_error :
      Text → Text → Text → Text → Stack → Db → Option SyncError × Stack × Db
  mark_secret_error id message at commit st db =
      mark_sync_error id message at commit (record st { secret_error = true }) db

  -- The error is logged.
  unfoldable pub clear_secret_error : Text → Stack → Db → Stack × Db
  clear_secret_error id st db =
      let cleared = record st { secret_error = false } in
      if st.secret_error then (cleared, (save_stack id cleared db).1) else (st, db)

  -- `createSyncLog`, with the id that the database gives.
  unfoldable pub create_sync_log : Text → Text → Text → Text → Text → Db → Option Text × Db
  create_sync_log id stack trigger commit message db =
      let new : SyncLog = record {
        stack = stack;
        trigger = trigger;
        status = codes "running";
        commit_sha = commit;
        commit_message = message;
        output = [];
        duration_ms = pos 0;
      } in
      if fails (calls_of db)
      then (none, tick db)
      else if fails (suc (calls_of db))
      then (none, tick (tick db))
      else (some id, record (tick (tick db)) { logs = put db.logs id new })

  -- A log that is found, changed and saved.
  unfoldable pub save_log : Text → Option SyncLog → (SyncLog → SyncLog) → Db → Option SyncError × Db
  save_log id none change db = (some (update_log_failed id), db)
  save_log id (some old) change db =
      if fails (calls_of db)
      then (some (update_log_failed id), tick db)
      else (none, record (tick db) { logs = put db.logs id (change old) })

  unfoldable pub change_log : Text → (SyncLog → SyncLog) → Db → Option SyncError × Db
  change_log id change db =
      if fails (calls_of db)
      then (some (update_log_failed id), tick db)
      else save_log id (lookup db.logs id) change (tick db)

  unfoldable pub update_sync_log : Text → Text → Text → ℤ → Db → Option SyncError × Db
  update_sync_log id status output ms db =
      change_log id
        (λ l. record l { status = status; output = truncate_output output; duration_ms = ms }) db

  unfoldable pub update_sync_log_commit : Text → Text → Db → Option SyncError × Db
  update_sync_log_commit id commit db = change_log id (λ l. record l { commit_sha = commit }) db

  -- What a call of the phase tracker leaves in the database.
  abbrev pub on_phases : (Store → Tracker × Store) → Db → Tracker × Db
  on_phases method db = let (t, s) = method db.phases in (t, record db { phases = s })

  unfoldable pub log_failure : Text → Text → Text → Text → Text → Db → Option SyncError × Db
  log_failure id stack trigger commit message db =
      let (created, begun) = create_sync_log id stack trigger commit [] db in
      elim created [
        | none ↦ (some create_log_failed, begun)
        | some log ↦ update_sync_log log (codes "error") message (pos 0) begun
      ]

  -- Once the sync log is created: the timeline, and the log's end.
  unfoldable pub fill_failure :
      Text → Text → ℕ → ℤ → List Call → Option Text × Db → Option SyncError × Db
  fill_failure message phase started ms backfill (none, db) = (some create_log_failed, db)
  fill_failure message phase started ms backfill (some log, db) =
      let timeline = backfill ++ (completing phase (codes "error") started ms message ∷ []) in
      let (t, filled) = on_phases (λ s. perform_all fails timeline (new_phase_tracker log, s)) db in
      update_sync_log log (codes "error") message (pos 0) filled

  -- `logFailureWithPhaseAnd`, with the phases that are filled in as calls of the tracker.
  unfoldable pub log_failure_with_phase_and :
      Text → Text → Text → Text → Text → Text → ℕ → ℤ → List Call → Db → Option SyncError × Db
  log_failure_with_phase_and id stack trigger commit message phase started ms backfill db =
      fill_failure message phase started ms backfill (create_sync_log id stack trigger commit [] db)

  -- `completedPhase`, and the loop over `priorPhases`.
  abbrev pub completed : List (Text × ℕ × ℤ × Text) → List Call
  completed [] = []
  completed ((phase, started, ms, detail) ∷ prior) =
      completing phase phase_status_success started ms detail ∷ completed prior

  unfoldable pub log_failure_with_phase :
      Text
      → Text
      → Text
      → Text
      → Text
      → Text
      → ℕ
      → ℤ
      → List (Text × ℕ × ℤ × Text)
      → Db
      → Option SyncError × Db
  log_failure_with_phase id stack trigger commit message phase started ms prior db =
      log_failure_with_phase_and id stack trigger commit message phase started ms (completed prior)
        db

-- The two phases of a deploy that the worker went through, from the time of its ack and the duration
-- that it reports: calls of the tracker.
abbrev pub worker_ack : Option ℕ → ℕ → ℕ → Call
worker_ack none dispatched now =
    skipping (codes "worker_ack") (codes "ack timestamp not observed") now
worker_ack (some acked) dispatched now =
    completing (codes "worker_ack") phase_status_success dispatched (pos (acked - dispatched)) []

abbrev pub compose_up : Option ℕ → ℕ → ℤ → ℕ → Call
compose_up acked dispatched ms now = elim ms [
  | negsuc n ↦ skipping (codes "compose_up") (codes "not reported by worker") now
  | pos n ↦
      if n == 0
      then skipping (codes "compose_up") (codes "not reported by worker") now
      else completing (codes "compose_up") phase_status_success
          (elim acked [ none ↦ dispatched | some t ↦ t ]) (pos n) []
]

abbrev pub worker_ack_and_compose_up : Option ℕ → ℕ → ℤ → ℕ → List Call
worker_ack_and_compose_up acked dispatched ms now =
    worker_ack acked dispatched now ∷ compose_up acked dispatched ms now ∷ []
