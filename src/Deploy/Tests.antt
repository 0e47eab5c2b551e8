-- ===== src/Deploy/Tests.antt =====
-- A stack whose deploy waits for a nightly dump, the tickers of two stacks, and a render that fails.
use wireops.Prelude.{
  ℕ, suc, ◌+◌, ◌*◌, ◌≡◌, ◌≤◌, refl, ◌⊎◌, ◌↔◌, Bool, true, false, Option, none, some, List, [], ◌∷◌,
  ◌++◌, arith, leb, if◌then◌else◌,
}
use wireops.Go.Text.{Text, codes}
use wireops.Go.Int.{ℤ, pos}
use wireops.Go.Value.{lookup}
use wireops.Jobs.{JobRun, running}
use wireops.Phases.{no_rows, closed_row}
use wireops.Health.PostCheck.{PostCheckResult, degraded, passed}
use wireops.Deploy.{Stack, Db, SyncLog, SyncError, log_failure_with_phase}
use wireops.Deploy.Failures.{rows_of, log_failure_with_phase-lem}
use wireops.Deploy.Wait.{
  Environment, Waited, poll_interval, timeout_of, is_off, active_at, go_on, wait_for_running_jobs,
}
use wireops.Deploy.Wait.Returns.{rounds_of, IsSome, wait_for_running_jobs-timeout_returns}
use wireops.Deploy.Wait.Proceeds.{IsReleased, EndsAt, wait_for_running_jobs-proceeds}
use wireops.Deploy.Wait.Logged.{IsLogged, wait_for_running_jobs-logged}
use wireops.Deploy.Converge.{
  InspectResult, converge_after_timeout, IsEvident, converge_after_timeout_iff,
}
use wireops.Deploy.Tickers.{
  Tickers, no_tickers, start_all, Call, registering, unregistering, perform_all,
}
use wireops.Deploy.Tickers.Tracked.{IsLive, perform_all-IsLive_iff}

abbrev dump : JobRun
dump = record {
  job = codes "dump";
  worker = codes "w1";
  trigger = codes "cron";
  status = running;
  output = [];
  container_name = [];
  commit_sha = [];
  started_at = some 10;
  duration_ms = pos 0;
  queue_time_ms = pos 0;
  execution_time_ms = pos 0;
  created = 5;
  updated = 10;
}

-- The dump runs at the first two looks.
abbrev runs_at : ℕ → List (Text × JobRun)
runs_at n = if leb n 1 then (codes "r1", dump) ∷ [] else []

abbrev world : Environment
world = record {
  fails = λ n. false;
  repository_of = λ job. codes "repo";
  runs = λ n. some (runs_at n);
  cancelled = λ n. none;
  clock = λ n. 100 + 5000 * n;
  format = λ d. codes "waits";
}

abbrev stack : Stack
stack = record {
  status = codes "active";
  last_synced_at = codes "2024-01-01";
  wait_running_jobs = codes "timeout";
  wait_running_jobs_timeout_seconds = pos 20;
  secret_error = false;
  last_error_category = [];
  last_error_reason = [];
  last_error_message = [];
  last_error_at = [];
  last_error_commit = [];
}

abbrev db : Db
db = record { logs = []; stacks = []; phases = no_rows }

abbrev call : Option Waited
call =
    wait_for_running_jobs world 5 (codes "log") (codes "repo") (codes "s1") (codes "cron")
      (codes "abc") stack db

world-ticks : (n : ℕ) → world.clock n + poll_interval ≤ world.clock (suc n)
world-ticks n = omega arith

twenty_seconds : rounds_of (timeout_of (pos 20)) ≡ 5
unfolding timeout_of wireops.Deploy.Wait.as_int64
twenty_seconds = refl

wait_for_running_jobs-timeout_returns_example : IsSome (
    wait_for_running_jobs world
      (rounds_of (timeout_of (pos 20)))
      (codes "log")
      (codes "repo")
      (codes "s1")
      (codes "cron")
      (codes "abc")
      stack
      db)
wait_for_running_jobs-timeout_returns_example =
    wait_for_running_jobs-timeout_returns world world-ticks (codes "log") (codes "repo")
      (codes "s1") (codes "cron") (codes "abc") stack db refl

-- The second look of the loop lets the deploy go on.
abbrev returned : Waited
returned = elim call [ none ↦ go_on world stack db | some w ↦ w ]

call-returned : call ≡ some returned
unfolding wait_for_running_jobs wireops.Go.Text.text_eq wireops.Deploy.Wait.wait_if
    wireops.Deploy.Wait.active_job_runs_for_repository wireops.Deploy.Wait.wait_for
    wireops.Deploy.Wait.after_loop wireops.Deploy.Wait.poll wireops.Deploy.Wait.round
    wireops.Deploy.Wait.decide wireops.Deploy.Wait.is_past timeout_of wireops.Deploy.Wait.as_int64
call-returned = refl

returned_error : returned.error ≡ none
unfolding wait_for_running_jobs wireops.Go.Text.text_eq wireops.Deploy.Wait.wait_if
    wireops.Deploy.Wait.active_job_runs_for_repository wireops.Deploy.Wait.wait_for
    wireops.Deploy.Wait.after_loop wireops.Deploy.Wait.poll wireops.Deploy.Wait.round
    wireops.Deploy.Wait.decide wireops.Deploy.Wait.is_past timeout_of wireops.Deploy.Wait.as_int64
    wireops.Deploy.Wait.conclude
returned_error = refl

wait_for_running_jobs-proceeds_example :
    (is_off stack ≡ true)
    ⊎ ((n : ℕ) × IsReleased world (codes "repo") 5 n
        × EndsAt
            (λ k.
              wait_for_running_jobs world k
                (codes "log")
                (codes "repo")
                (codes "s1")
                (codes "cron")
                (codes "abc")
                stack
                db)
            returned
            n)
wait_for_running_jobs-proceeds_example =
    wait_for_running_jobs-proceeds world 5 (codes "log") (codes "repo") (codes "s1") (codes "cron")
      (codes "abc") stack db returned call-returned returned_error

wait_for_running_jobs-logged_example :
    (returned ≡ go_on world stack db)
    ⊎ ((x : Text × JobRun) × (xs : List (Text × JobRun)) × (active_at world (codes "repo") 0
          ≡ some (x ∷ xs))
        × IsLogged (codes "log") [] returned.error returned.db)
wait_for_running_jobs-logged_example =
    wait_for_running_jobs-logged world (λ n. refl) 5 (codes "log") (codes "repo") (codes "s1")
      (codes "cron") (codes "abc") stack db returned call-returned

abbrev check : PostCheckResult
check = record { status = degraded; detail = passed 2; skipped = false }

abbrev inspected : InspectResult
inspected = record { commit_shas = codes "abc" ∷ []; commit_sha = codes "abc" }

converge_after_timeout_iff_example :
    ((converge_after_timeout true check inspected (codes "abc") (codes "def")).converged ≡ true)
    ↔ IsEvident true check inspected (codes "abc") (codes "def")
converge_after_timeout_iff_example =
    converge_after_timeout_iff true check inspected (codes "abc") (codes "def")

record_advanced :
    (converge_after_timeout true check inspected (codes "abc") (codes "def")).converged ≡ true
unfolding converge_after_timeout wireops.Go.Text.text_eq wireops.Deploy.Converge.by_revision
    wireops.Deploy.Converge.agree
record_advanced = refl

abbrev stacks : List (Text × Bool)
stacks = (codes "s1", false) ∷ (codes "s2", true) ∷ []

abbrev calls : List Call
calls =
    registering (codes "s1") false
    ∷ registering (codes "s2") false
    ∷ unregistering (codes "s1")
    ∷ []

abbrev later : Tickers
later = perform_all calls (start_all stacks no_tickers)

only_second : (lookup later.jobs (codes "s1") ≡ none) × (lookup later.jobs (codes "s2") ≡ some 2)
unfolding perform_all lookup wireops.Deploy.Tickers.perform wireops.Deploy.Tickers.unregister
    wireops.Deploy.Tickers.register_stack wireops.Deploy.Tickers.start_job wireops.Go.Assoc.put
    wireops.Deploy.Tickers.cancel start_all wireops.Go.Text.text_eq wireops.Go.Assoc.remove
only_second = (refl, refl)

perform_all-IsLive_iff_example :
    IsLive later (codes "s2") 2 ↔ (lookup later.jobs (codes "s2") ≡ some 2)
unfolding lookup wireops.Deploy.Tickers.start_job wireops.Go.Assoc.put wireops.Go.Text.text_eq
perform_all-IsLive_iff_example =
    perform_all-IsLive_iff stacks calls (codes "s2") 2 (refl, (refl, tt))

-- A render that fails after its fetch.
abbrev fetched : List (Text × ℕ × ℤ × Text)
fetched = (codes "git_fetch", 100, pos 40, []) ∷ []

abbrev recorded : Option SyncError × Db
recorded =
    log_failure_with_phase (λ n. false) (codes "log") (codes "s1") (codes "cron") (codes "abc")
      (codes "no such file") (codes "render") 140 (pos 7) fetched db

log_failure_with_phase-lem_example :
    (q : SyncLog) × (lookup recorded.1.logs (codes "log") ≡ some q)
    × (q.status ≡ codes "error")
    × (recorded.1.phases.rows
        ≡ []
          ++ (rows_of (codes "log") fetched
              ++ (closed_row
                    (codes "log")
                    (codes "render")
                    (codes "error")
                    140
                    (pos 7)
                    (codes "no such file")
                  ∷ [])))
log_failure_with_phase-lem_example =
    log_failure_with_phase-lem (λ n. false) (λ n. refl) (codes "log") (codes "s1") (codes "cron")
      (codes "abc") (codes "no such file") (codes "render") 140 (pos 7) fetched db
