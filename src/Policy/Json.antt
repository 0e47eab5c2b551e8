-- ===== src/Policy/Json.antt =====
-- internal/policy/policy.go: the wire format of a policy.
use wireops.Prelude.{Bool, not, none, some, []}
use wireops.Policy.{Slice, WorkerPolicy}

pub record PolicyJson : Type 0 where
  pub enabled : Bool
  pub allowed_volumes : Slice
  pub allowed_networks : Slice
  pub allowed_images : Slice
  pub allowed_cap_add : Slice
  pub allowed_devices : Slice
  pub allowed_security_opt : Slice
  pub prevent_latest_images : Bool
  pub block_host_volumes : Bool
  pub block_privileged : Bool
  pub block_host_network : Bool
  pub block_host_pid : Bool
  pub block_host_ipc : Bool
  pub block_docker_socket : Bool
  pub allow_render_overrides : Bool

-- `if s == nil { s = []string{} }`.
abbrev pub not_nil : Slice → Slice
not_nil none = some []
not_nil (some xs) = some xs

-- `ToJSON`.
unfoldable pub to_json : WorkerPolicy → PolicyJson
to_json p = record {
  enabled = not p.disabled;
  allowed_volumes = not_nil p.allowed_volumes;
  allowed_networks = not_nil p.allowed_networks;
  allowed_images = not_nil p.allowed_images;
  allowed_cap_add = not_nil p.allowed_cap_add;
  allowed_devices = not_nil p.allowed_devices;
  allowed_security_opt = not_nil p.allowed_security_opt;
  prevent_latest_images = p.prevent_latest_images;
  block_host_volumes = p.block_host_volumes;
  block_privileged = p.block_privileged;
  block_host_network = p.block_host_network;
  block_host_pid = p.block_host_pid;
  block_host_ipc = p.block_host_ipc;
  block_docker_socket = p.block_docker_socket;
  allow_render_overrides = p.allow_render_overrides;
}
