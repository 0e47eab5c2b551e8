-- ===== src/Jobs/Tests.antt =====
-- A job that runs every night, its runs, and a worker whose policy allows the job's image alone.
use wireops.Jobs.{truncate}
use wireops.Prelude.{◌⊎◌, ◌+◌}
use wireops.Prelude.{
  ℕ, ◌≡◌, refl, ◌≤◌, ◌<◌, Bool, true, false, Option, none, some, List, [], ◌∷◌, ◌==◌, ◌↔◌, length,
}
use wireops.Go.Text.{Text, codes}
use wireops.Go.Int.{ℤ, pos}
use wireops.Go.Value.{lookup}
use wireops.Policy.{WorkerPolicy}
use wireops.Policy.Load.{loaded}
use wireops.Jobs.{
  JobRun, Store, RunStatus, pending, running, success, forgotten, truncate_output,
  max_output_length, truncation_marker,
}
use wireops.Jobs.Definition.{Definition, mode_once_all, validate}
use wireops.Jobs.Definition.Accepted.{IsDefinition, validate_iff}
use wireops.Jobs.Sweep.{ScheduledJob, mark_forgotten_runs}
use wireops.Jobs.Swept.{is_forgotten, is_stuck, mark_forgotten_runs-sweeps}
use wireops.Jobs.History.{Call, creating, starting, completing, giving_up, sweeping, perform_all}
use wireops.Jobs.History.Steps.{IsForward}
use wireops.Jobs.History.Forward.{perform_all-IsForward}
use wireops.Jobs.Truncation.{IsCut, truncate_output-IsCut}
use wireops.Jobs.Dispatch.{
  JobRunParams, RunJobCommand, Environment, answered, command_of, dispatch_to_worker,
}
use wireops.Jobs.Dispatch.Permitted.{IsPermitted, dispatch_to_worker-IsPermitted}
use wireops.Jobs.Execute.{Db, Surroundings, execute_job}
use wireops.Jobs.Execute.Outcomes.{IsRecorded}
use wireops.Jobs.Execute.Returned.{execute_job-IsRecorded}

abbrev ten_minutes : Text → Option ℤ
ten_minutes t = some (pos 600000)

abbrev nightly : Definition
nightly = record {
  name = codes "dump";
  description = codes "dumps the database";
  cron = codes "0 3 * * *";
  tags = codes "db" ∷ [];
  group = [];
  mode = mode_once_all;
  image = codes "postgres:16";
  command = codes "pg_dumpall" ∷ [];
  volumes = [];
  network = [];
  resources = record { cpu = codes "1"; memory = codes "512m"; timeout = codes "10m" };
  configs =
      record {
        name = codes "rc";
        path = codes "conf/pgpass";
        target = codes "/root/.pgpass";
        mode = codes "0600";
      }
      ∷ [];
}

validate_iff_example : (validate ten_minutes nightly ≡ []) ↔ IsDefinition ten_minutes nightly
validate_iff_example = validate_iff ten_minutes nightly

nightly-accepted : validate ten_minutes nightly ≡ []
unfolding validate wireops.Jobs.Definition.config_issues wireops.Jobs.Definition.entry_issues
    wireops.Jobs.Definition.parse_octal wireops.Paths.validate_config_name
    wireops.Paths.validate_container_mount_path wireops.Paths.clean_relative_path
    wireops.Paths.is_abs wireops.Go.Path.clean wireops.Go.Text.has_prefix wireops.Go.Text.split
    wireops.Go.Text.text_eq wireops.Go.Text.contains_rune
nightly-accepted = refl

abbrev long_ago : JobRun
long_ago = record {
  job = codes "j1";
  worker = codes "w1";
  trigger = codes "cron";
  status = running;
  output = [];
  container_name = [];
  commit_sha = [];
  started_at = some 10;
  duration_ms = pos 0;
  queue_time_ms = pos 0;
  execution_time_ms = pos 0;
  created = 5;
  updated = 10;
}

abbrev before : Store
before = record { runs = (codes "r1", long_ago) ∷ []; calls = 0 }

abbrev ten_minutes_of : JobRun → ℤ
ten_minutes_of r = pos 600000

abbrev third_fails : ℕ → Bool
third_fails n = n == 2

abbrev calls : List Call
calls =
    creating (codes "r2") (codes "j1") (codes "w2") (codes "manual") pending [] 20
    ∷ starting (codes "r2") 30
    ∷ completing (codes "r2") true (codes "done") (pos 4) (pos 0) (pos 0) 40
    ∷ giving_up (codes "r1", long_ago) 50
    ∷ sweeping 4000000
    ∷ []

perform_all-IsForward_example :
    IsForward before (perform_all ten_minutes_of third_fails calls before)
perform_all-IsForward_example = perform_all-IsForward ten_minutes_of third_fails calls before

abbrev never_fails : ℕ → Bool
never_fails n = false

abbrev swept : JobRun
swept = record long_ago {
  status = forgotten;
  output = codes "job forgotten: still running after 1 hour with no completion signal";
  execution_time_ms = pos 600000;
  updated = 4000000;
}

swept_run :
    lookup (mark_forgotten_runs ten_minutes_of never_fails 4000000 before).1.runs (codes "r1")
    ≡ some swept
unfolding mark_forgotten_runs wireops.Jobs.Sweep.reconcile_pending_runs wireops.Jobs.Sweep.for_each
    wireops.Jobs.Sweep.reconcile_single_running_run wireops.Jobs.modify wireops.Jobs.find_run
    wireops.Jobs.save_run wireops.Go.Assoc.put lookup wireops.Go.Text.text_eq
swept_run = refl

mark_forgotten_runs-sweeps_example :
    (is_forgotten 4000000 swept ≡ false) × (is_stuck 4000000 swept ≡ false)
mark_forgotten_runs-sweeps_example =
    mark_forgotten_runs-sweeps ten_minutes_of never_fails (λ n. refl) 4000000 before (codes "r1")
      swept swept_run

truncate_output-IsCut_example :
    ((length (codes "done") ≤ max_output_length) × (truncate_output (codes "done") ≡ codes "done"))
    ⊎ ((max_output_length < length (codes "done"))
        × IsCut max_output_length truncation_marker (codes "done") (truncate_output (codes "done")))
truncate_output-IsCut_example = truncate_output-IsCut (codes "done")

abbrev postgres_only : WorkerPolicy
postgres_only = record {
  disabled = false;
  allowed_volumes = none;
  allowed_networks = none;
  allowed_images = some (codes "postgres:*" ∷ []);
  allowed_cap_add = none;
  allowed_devices = none;
  allowed_security_opt = none;
  prevent_latest_images = true;
  block_host_volumes = true;
  block_privileged = true;
  block_host_network = true;
  block_host_pid = true;
  block_host_ipc = true;
  block_docker_socket = true;
  allow_render_overrides = false;
}

abbrev calm : Environment
calm = record {
  fails = never_fails;
  clock = λ n. 100 + n;
  load_policy = λ w. loaded postgres_only;
  registry_auth = λ i. some ([], []);
  ack = λ c. answered [];
  parse_duration = ten_minutes;
  load_message = λ e. [];
  violation_message = λ e. [];
}

abbrev params : JobRunParams
params = record {
  repo_id = codes "repo";
  repo_branch = codes "main";
  job_file = codes "jobs/dump/job.yaml";
  commit_sha = codes "abc";
  definition = nightly;
  env = [];
  config_files = [];
}

abbrev fresh : Store
fresh = record {
  runs = (codes "r3", record long_ago { status = pending; started_at = none }) ∷ [];
  calls = 0;
}

abbrev sent : RunJobCommand
sent = command_of calm (codes "r3") params ([], []) 102

nightly_sent : (dispatch_to_worker calm (codes "r3") (codes "w1") params fresh).sent ≡ some sent
unfolding dispatch_to_worker wireops.Jobs.Dispatch.after_metadata wireops.Jobs.Dispatch.check_policy
    wireops.Jobs.Dispatch.enforce_policy wireops.Jobs.Dispatch.with_credentials
    wireops.Jobs.Dispatch.send_command wireops.Jobs.Dispatch.note_start
    wireops.Jobs.Dispatch.command_of wireops.Jobs.Dispatch.violation wireops.Jobs.patch_job_run_meta
    wireops.Jobs.set_job_run_started wireops.Jobs.modify wireops.Jobs.find_run wireops.Jobs.save_run
    lookup wireops.Go.Assoc.put wireops.Policy.validate_images wireops.Policy.validate_image
    wireops.Policy.match_pattern wireops.Policy.is_latest_or_untagged
    wireops.Policy.validate_volumes wireops.Policy.validate_network wireops.Go.Glob.glob_match
    wireops.Go.Text.text_eq wireops.Go.Text.after_last wireops.Go.Text.before
    wireops.Policy.check_list
nightly_sent = refl

dispatch_to_worker-IsPermitted_example : IsPermitted (loaded postgres_only) nightly sent
dispatch_to_worker-IsPermitted_example =
    dispatch_to_worker-IsPermitted calm (codes "r3") (codes "w1") params fresh sent nightly_sent

abbrev world : Surroundings
world = record {
  fails = third_fails;
  clock = λ n. 200 + n;
  new_id = λ n. n ∷ [];
  is_alphanumeric = λ c. true;
  backends_error = λ j. none;
  parse_job_file = λ r f. some nightly;
  workers_by_tags = λ tags. codes "w1" ∷ codes "w2" ∷ [];
  load_env = λ j. some [];
  resolve_configs = λ r d. some [];
  branch_of = λ r. codes "main";
  head_sha = λ r. codes "abc";
}

abbrev db : Db
db = record {
  store = before;
  jobs =
      (
        codes "j1",
        record {
          repository = codes "repo";
          job_file = codes "jobs/dump/job.yaml";
          name = [];
          description = [];
          status = codes "active";
          enabled = true;
          last_run_at = none;
        },
      )
      ∷ [];
}

execute_job-IsRecorded_example :
    IsRecorded world
      (codes "j1")
      (codes "cron")
      before
      (execute_job world false (codes "j1") (codes "cron") db)
execute_job-IsRecorded_example = execute_job-IsRecorded world false (codes "j1") (codes "cron") db

long_cut : truncate 9 (codes "...") (codes "0123456789") ≡ codes "012...789"
unfolding truncate
long_cut = refl
