-- ===== src/Policy/Load/Tests.antt =====
-- Loading the policy of a concrete worker.
use wireops.Prelude.{◌≡◌, refl, Bool, true, false, Option, none, some, List, [], ◌∷◌}
use wireops.Go.Text.{Text, codes}
use wireops.Policy.{WorkerPolicy, validate_images}
use wireops.Policy.Load.{
  App, WorkerRecord, GlobalRecord, PolicyFlags, LoadError, no_flags, empty_policy, found, no_rows,
  failed, loaded, load_error, of_global, load_global, load, resolve,
}
use wireops.Policy.Load.Laws.{Finds, load-empty_images}

abbrev no_flag_text : Text → PolicyFlags
no_flag_text t = no_flags

abbrev global_record : GlobalRecord
global_record = record {
  enabled = some true;
  allowed_volumes = none;
  allowed_networks = none;
  allowed_images = some (codes "registry/*" ∷ []);
  allowed_cap_add = none;
  allowed_devices = none;
  allowed_security_opt = none;
  prevent_latest_images = false;
  block_host_volumes = true;
  block_privileged = true;
  block_host_network = true;
  block_host_pid = true;
  block_host_ipc = true;
  block_docker_socket = true;
  allow_render_overrides = false;
}

abbrev worker : Bool → Option (Option (List Text)) → WorkerRecord
worker inherit images = record {
  policy_inherit = some inherit;
  policy_volumes = none;
  policy_networks = none;
  policy_images = images;
  policy_cap_add = none;
  policy_devices = none;
  policy_security_opt = none;
  policy_flags = [];
}

abbrev app : WorkerRecord → App
app w = record { worker_policies = found (global_record ∷ []); find_worker = λ id. found w }

abbrev global : WorkerPolicy
global = record {
  disabled = false;
  allowed_volumes = none;
  allowed_networks = none;
  allowed_images = some (codes "registry/*" ∷ []);
  allowed_cap_add = none;
  allowed_devices = none;
  allowed_security_opt = none;
  prevent_latest_images = false;
  block_host_volumes = true;
  block_privileged = true;
  block_host_network = true;
  block_host_pid = true;
  block_host_ipc = true;
  block_docker_socket = true;
  allow_render_overrides = false;
}

finds : (w : WorkerRecord) → Finds (app w) (codes "w1") w
finds w = record { has_id = refl; finds = refl }

resolved : WorkerRecord → WorkerPolicy
unfolding resolve
resolved w = resolve no_flag_text global w

loads_resolved : (w : WorkerRecord) → load no_flag_text (app w) (codes "w1") ≡ loaded (resolved w)
unfolding load resolved resolve load_global of_global
loads_resolved w = refl

not_latest : (resolved (worker true (some (some [])))).prevent_latest_images ≡ false
unfolding resolved resolve wireops.Policy.Load.worker_flags wireops.Policy.Load.resolve_flag
not_latest = refl

load-empty_images_example :
    validate_images (resolved (worker true (some (some [])))) (codes "other/x" ∷ []) ≡ none
load-empty_images_example =
    load-empty_images no_flag_text (app (worker true (some (some [])))) (codes "w1")
      (worker true (some (some []))) (resolved (worker true (some (some [])))) (finds _) refl
      (loads_resolved _) not_latest (codes "other/x" ∷ [])
