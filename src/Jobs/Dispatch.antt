-- ===== src/Jobs/Dispatch.antt =====
-- internal/jobscheduler/scheduler.go: dispatchToWorker, which sends one run to its worker once the
-- worker's policy allows it. The policy, the credentials of registries and the worker's answer are
-- parameters; the clock is read at each call of the database.
pub mod Permitted
use wireops.Prelude.{
  ℕ, zero, suc, or_else, ◌+◌, ◌*◌, ◌-◌, ◌/◌, ◌≡◌, Bool, true, false, Option, none, some, List, [],
  ◌∷◌, ◌++◌, if◌then◌else◌,
}
use wireops.Go.Text.{Text, codes, is_empty}
use wireops.Go.Int.{ℤ, pos, negsuc}
use wireops.Policy.{WorkerPolicy, PolicyError, validate_images, validate_volumes, validate_network}
use wireops.Policy.Load.{Loaded, LoadError, loaded, load_error}
use wireops.Jobs.{
  JobRun, Store, RunError, failed, patch_job_run_meta, update_job_run, set_job_run_started,
}
use wireops.Jobs.Definition.{Definition}

-- `jobRunParams`.
pub record JobRunParams : Type 0 where
  pub repo_id : Text
  pub repo_branch : Text
  pub job_file : Text
  pub commit_sha : Text
  pub definition : Definition
  pub env : List (Text × Text)
  pub config_files : List Text

-- `protocol.RunJobCommand`.
pub record RunJobCommand : Type 0 where
  pub command_id : Text
  pub job_run_id : Text
  pub job_name : Text
  pub image : Text
  pub command : List Text
  pub env : List (Text × Text)
  pub repository_id : Text
  pub repository_branch : Text
  pub repository_file : Text
  pub commit_sha : Text
  pub volumes : List Text
  pub network : Text
  pub cpus : Text
  pub memory_limit : Text
  pub timeout_seconds : ℤ
  pub config_files : List Text
  pub dispatched_at : ℕ
  pub registry_auth : Text
  pub insecure_registries : List Text

-- The start ack: the dispatch fails, or the worker answers with a text that is empty where it started
-- the container.
pub data Ack : Type 0 where
  unreachable : Text → Ack
  answered : Text → Ack

-- The database afterwards, what was sent to the worker, and whether a kill was sent after it.
pub record Outcome : Type 0 where
  pub store : Store
  pub sent : Option RunJobCommand
  pub killed : Bool

-- `-n`.
abbrev pub negated : ℕ → ℤ
negated zero = pos 0
negated (suc n) = negsuc n

-- `int(d.Seconds())` of a duration in milliseconds.
unfoldable pub whole_seconds : ℤ → ℤ
whole_seconds (pos ms) = pos (ms / 1000)
whole_seconds (negsuc n) = negated (suc n / 1000)

-- The time limit that is sent: zero where the definition has none, or one that does not parse.
unfoldable pub timeout_seconds_of : (Text → Option ℤ) → Text → ℤ
timeout_seconds_of parse_duration t =
    if is_empty t
    then pos 0
    else elim (parse_duration t) [ none ↦ pos 0 | some d ↦ whole_seconds d ]

-- The checks of the policy, each of which may refuse the run.
unfoldable pub violation : WorkerPolicy → Definition → Option PolicyError
violation wp d =
    or_else (validate_images wp (d.image ∷ []))
      (or_else (validate_volumes wp d.volumes) (validate_network wp d.network))

-- What the scheduler calls: the failure and the time of the database's call number `n`, the policy of a
-- worker, the credentials for an image, the worker's answer to a command, time.ParseDuration in
-- milliseconds, and the texts of errors.
pub record Environment : Type 0 where
  pub fails : ℕ → Bool
  pub clock : ℕ → ℕ
  pub load_policy : Text → Loaded
  pub registry_auth : Text → Option (Text × List Text)
  pub ack : RunJobCommand → Ack
  pub parse_duration : Text → Option ℤ
  pub load_message : LoadError → Text
  pub violation_message : PolicyError → Text

module _ (env : Environment) where
  abbrev pub now : Store → ℕ
  now s = env.clock s.calls

  -- The run is marked as failed, and nothing is sent.
  unfoldable pub give_up_run : Text → Text → Option RunJobCommand → Store → Outcome
  give_up_run run_id output sent s = record {
    store = (update_job_run env.fails run_id failed output (pos 0) (pos 0) (pos 0) (now s) s).1;
    sent = sent;
    killed = false;
  }

  unfoldable pub command_of : Text → JobRunParams → Text × List Text → ℕ → RunJobCommand
  command_of run_id p (auth, insecure) time = record {
    command_id = codes "job-" ++ run_id;
    job_run_id = run_id;
    job_name = p.definition.name;
    image = p.definition.image;
    command = p.definition.command;
    env = p.env;
    repository_id = p.repo_id;
    repository_branch = p.repo_branch;
    repository_file = p.job_file;
    commit_sha = p.commit_sha;
    volumes = p.definition.volumes;
    network = p.definition.network;
    cpus = p.definition.resources.cpu;
    memory_limit = p.definition.resources.memory;
    timeout_seconds = timeout_seconds_of env.parse_duration p.definition.resources.timeout;
    config_files = p.config_files;
    dispatched_at = time;
    registry_auth = auth;
    insecure_registries = insecure;
  }

  -- After the start ack. Where the run cannot be marked as running, the worker is told to kill it.
  unfoldable pub note_start : Text → RunJobCommand → Option RunError × Store → Outcome
  note_start run_id cmd (none, s) = record { store = s; sent = some cmd; killed = false }
  note_start run_id cmd (some e, s) = record { store = s; sent = some cmd; killed = true }

  unfoldable pub send_command : Text → RunJobCommand → Store → Outcome
  send_command run_id cmd s = elim (env.ack cmd) [
    | unreachable message ↦ give_up_run run_id message (some cmd) s
    | answered error ↦
        if is_empty error
        then note_start run_id cmd (set_job_run_started env.fails run_id (now s) s)
        else give_up_run run_id error (some cmd) s
  ]

  -- Credentials are looked up for an image that the policy allows.
  unfoldable pub with_credentials : Text → JobRunParams → Store → Outcome
  with_credentials run_id p s = elim (env.registry_auth p.definition.image) [
    | none ↦ give_up_run run_id (codes "registry auth error") none s
    | some auth ↦ send_command run_id (command_of run_id p auth (now s)) s
  ]

  unfoldable pub enforce_policy : Text → JobRunParams → WorkerPolicy → Store → Outcome
  enforce_policy run_id p wp s = elim (violation wp p.definition) [
    | some e ↦ give_up_run run_id (codes "policy violation: " ++ env.violation_message e) none s
    | none ↦ with_credentials run_id p s
  ]

  unfoldable pub check_policy : Text → Text → JobRunParams → Store → Outcome
  check_policy run_id worker_id p s = elim (env.load_policy worker_id) [
    | load_error e ↦ give_up_run run_id (codes "policy load error: " ++ env.load_message e) none s
    | loaded wp ↦ enforce_policy run_id p wp s
  ]

  -- After the container's name and the commit are saved.
  unfoldable pub after_metadata : Text → Text → JobRunParams → Option RunError × Store → Outcome
  after_metadata run_id worker_id p (none, s) = check_policy run_id worker_id p s
  after_metadata run_id worker_id p (some e, s) =
      give_up_run run_id (codes "patch job_run metadata") none s

  unfoldable pub dispatch_to_worker : Text → Text → JobRunParams → Store → Outcome
  dispatch_to_worker run_id worker_id p s =
      after_metadata run_id worker_id p (
        patch_job_run_meta env.fails run_id (codes "wireops-job-" ++ run_id) p.commit_sha (now s) s)
