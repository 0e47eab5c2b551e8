-- ===== src/Policy/Load.antt =====
-- internal/policy/policy.go: the effective policy of a worker, from the records of the database.
-- A record is what PocketBase's accessors return of it; `decode_flags` stands for the decoding of
-- the JSON text of the flags into a struct of nil pointers.
pub mod Laws
pub mod Tests
use wireops.Prelude.{
  ◌≡◌, Bool, true, false, not, ◌||◌, Option, none, some, List, [], ◌∷◌, if◌then◌else◌,
}
use wireops.Go.Text.{Text, is_empty}
use wireops.Policy.{Slice, WorkerPolicy}

-- `(value, err)` of a query: `no_rows` is `sql.ErrNoRows`, `failed` any other error.
pub data Query (A : Type 0) : Type 0 where
  found : A → Query A
  no_rows : Query A
  failed : Query A

-- `enabled` is `none` where `rec.Get("enabled")` is nil.
pub record GlobalRecord : Type 0 where
  pub enabled : Option Bool
  pub allowed_volumes : Slice
  pub allowed_networks : Slice
  pub allowed_images : Slice
  pub allowed_cap_add : Slice
  pub allowed_devices : Slice
  pub allowed_security_opt : Slice
  pub prevent_latest_images : Bool
  pub block_host_volumes : Bool
  pub block_privileged : Bool
  pub block_host_network : Bool
  pub block_host_pid : Bool
  pub block_host_ipc : Bool
  pub block_docker_socket : Bool
  pub allow_render_overrides : Bool

-- A list field is the pointer that `UnmarshalJSONField` leaves: `none` is nil.
pub record WorkerRecord : Type 0 where
  pub policy_inherit : Option Bool
  pub policy_volumes : Option Slice
  pub policy_networks : Option Slice
  pub policy_images : Option Slice
  pub policy_cap_add : Option Slice
  pub policy_devices : Option Slice
  pub policy_security_opt : Option Slice
  pub policy_flags : Text

-- `policyFlags`: nil means "inherit from global".
pub record PolicyFlags : Type 0 where
  pub prevent_latest_images : Option Bool
  pub block_host_volumes : Option Bool
  pub block_privileged : Option Bool
  pub block_host_network : Option Bool
  pub block_host_pid : Option Bool
  pub block_host_ipc : Option Bool
  pub block_docker_socket : Option Bool
  pub allow_render_overrides : Option Bool

pub record App : Type 0 where
  pub worker_policies : Query (List GlobalRecord)
  pub find_worker : Text → Query WorkerRecord

pub data LoadError : Type 0 where
  find_global_policies : LoadError
  load_global_failed : LoadError → LoadError
  find_worker_failed : LoadError

pub data Loaded : Type 0 where
  loaded : WorkerPolicy → Loaded
  load_error : LoadError → Loaded

-- `&WorkerPolicy{Disabled: d}`.
abbrev pub empty_policy : Bool → WorkerPolicy
empty_policy d = record {
  disabled = d;
  allowed_volumes = none;
  allowed_networks = none;
  allowed_images = none;
  allowed_cap_add = none;
  allowed_devices = none;
  allowed_security_opt = none;
  prevent_latest_images = false;
  block_host_volumes = false;
  block_privileged = false;
  block_host_network = false;
  block_host_pid = false;
  block_host_ipc = false;
  block_docker_socket = false;
  allow_render_overrides = false;
}

-- The default where a nullable field is nil.
abbrev pub get_or {ℓ} : {A : Type ℓ} → Option A → A → A
get_or none d = d
get_or (some a) d = a

unfoldable pub of_global : GlobalRecord → WorkerPolicy
of_global rec = record {
  disabled = not (get_or rec.enabled true);
  allowed_volumes = rec.allowed_volumes;
  allowed_networks = rec.allowed_networks;
  allowed_images = rec.allowed_images;
  allowed_cap_add = rec.allowed_cap_add;
  allowed_devices = rec.allowed_devices;
  allowed_security_opt = rec.allowed_security_opt;
  prevent_latest_images = rec.prevent_latest_images;
  block_host_volumes = rec.block_host_volumes;
  block_privileged = rec.block_privileged;
  block_host_network = rec.block_host_network;
  block_host_pid = rec.block_host_pid;
  block_host_ipc = rec.block_host_ipc;
  block_docker_socket = rec.block_docker_socket;
  allow_render_overrides = rec.allow_render_overrides;
}

abbrev first_record : List GlobalRecord → WorkerPolicy
first_record [] = empty_policy false
first_record (rec ∷ _) = of_global rec

unfoldable pub load_global : App → Loaded
unfolding of_global
load_global app = elim app.worker_policies [
  | found records ↦ loaded (first_record records)
  | no_rows ↦ loaded (empty_policy false)
  | failed ↦ load_error find_global_policies
]

unfoldable pub resolve_flag : Option Bool → Bool → Bool → Bool
resolve_flag (some b) global inherit = b
resolve_flag none global inherit = if inherit then global else false

unfoldable pub resolve_list : Option Slice → Slice → Bool → Slice
resolve_list (some list) global inherit = list
resolve_list none global inherit = if inherit then global else some []

abbrev pub no_flags : PolicyFlags
no_flags = record {
  prevent_latest_images = none;
  block_host_volumes = none;
  block_privileged = none;
  block_host_network = none;
  block_host_pid = none;
  block_host_ipc = none;
  block_docker_socket = none;
  allow_render_overrides = none;
}

module _ (decode_flags : Text → PolicyFlags) where
  unfoldable pub worker_flags : WorkerRecord → PolicyFlags
  worker_flags worker =
      if is_empty worker.policy_flags then no_flags else decode_flags worker.policy_flags

  -- The local policy, once the global one and the worker's record are there.
  unfoldable pub resolve : WorkerPolicy → WorkerRecord → WorkerPolicy
  unfolding resolve_flag resolve_list worker_flags
  resolve global worker =
      let inherit = get_or worker.policy_inherit true in
      let flags = worker_flags worker in
      record {
        disabled = global.disabled;
        allowed_volumes = resolve_list worker.policy_volumes global.allowed_volumes inherit;
        allowed_networks = resolve_list worker.policy_networks global.allowed_networks inherit;
        allowed_images = resolve_list worker.policy_images global.allowed_images inherit;
        allowed_cap_add = resolve_list worker.policy_cap_add global.allowed_cap_add inherit;
        allowed_devices = resolve_list worker.policy_devices global.allowed_devices inherit;
        allowed_security_opt =
            resolve_list worker.policy_security_opt global.allowed_security_opt inherit;
        prevent_latest_images =
            resolve_flag flags.prevent_latest_images global.prevent_latest_images inherit;
        block_host_volumes =
            resolve_flag flags.block_host_volumes global.block_host_volumes inherit;
        block_privileged = resolve_flag flags.block_privileged global.block_privileged inherit;
        block_host_network =
            resolve_flag flags.block_host_network global.block_host_network inherit;
        block_host_pid = resolve_flag flags.block_host_pid global.block_host_pid inherit;
        block_host_ipc = resolve_flag flags.block_host_ipc global.block_host_ipc inherit;
        block_docker_socket =
            resolve_flag flags.block_docker_socket global.block_docker_socket inherit;
        allow_render_overrides =
            resolve_flag flags.allow_render_overrides global.allow_render_overrides inherit;
      }

  unfoldable pub load_for : WorkerPolicy → Query WorkerRecord → Loaded
  load_for global (found worker) = loaded (resolve global worker)
  load_for global no_rows = loaded global
  load_for global failed = load_error find_worker_failed

  -- `Load`.
  unfoldable pub load : App → Text → Loaded
  unfolding load_for
  load app worker_id = elim (load_global app) [
    | load_error e ↦ load_error (load_global_failed e)
    | loaded global ↦
        if is_empty worker_id then loaded global else load_for global (app.find_worker worker_id)
  ]
