-- ===== src/Policy/Refs.antt =====
-- internal/policy/compose.go: what the checks look at, pulled out of a decoded compose config in
-- one pass over its services, in the order of their names.
use wireops.Prelude.{
  ◌≡◌, ℕ, Bool, true, false, not, ◌||◌, none, some, List, [], ◌∷◌, ◌++◌, map, if◌then◌else◌, keep,
}
use wireops.Go.Text.{
  Text, codes, text_eq, is_empty, split, split_n, first_part, trim, trim_prefix, trim_space,
}
use wireops.Go.Sort.{sort_strings}
use wireops.Go.Value.{Value, Map, as_map, as_list, as_string, as_bool, at, keys, lookup}
use wireops.Policy.{is_host_path}

pub record OwnedRef : Type 0 where
  pub service : Text
  pub value : Text

pub record ComposeRefs : Type 0 where
  pub images : List OwnedRef
  pub volumes : List OwnedRef
  pub networks : List OwnedRef
  pub privileged_services : List Text
  pub host_network_services : List Text
  pub host_pid_services : List Text
  pub host_ipc_services : List Text
  pub cap_adds : List OwnedRef
  pub security_opts : List OwnedRef
  pub devices : List OwnedRef
  pub mounts : List OwnedRef

abbrev pub values : List OwnedRef → List Text
values [] = []
values (r ∷ refs) = r.value ∷ values refs

-- `ownedRef{Service: svcName, Value: v}` for each value.
abbrev pub owned : Text → List Text → List OwnedRef
owned service [] = []
owned service (v ∷ vs) = record { service = service; value = v } ∷ owned service vs

abbrev pub non_empty : List Text → List Text
non_empty = keep (λ s. not (is_empty s))

-- The `ok` results of a type assertion to string; a value of another type is skipped.
abbrev pub string_or_empty : Value → Text
string_or_empty v = elim (as_string v) [ some s ↦ s | none ↦ [] ]

-- `for _, c := range list { if s, ok := c.(string); ok && s != "" { … } }`.
unfoldable pub strings_in : Value → List Text
strings_in v = elim (as_list v) [ some vs ↦ non_empty (map string_or_empty vs) | none ↦ [] ]

unfoldable pub service_image : Map → List Text
service_image svc = non_empty (string_or_empty (at svc (codes "image")) ∷ [])

unfoldable pub is_privileged : Map → Bool
is_privileged svc = elim (as_bool (at svc (codes "privileged"))) [ some b ↦ b | none ↦ false ]

-- `mode, ok := svc[key].(string); ok && mode == "host"`.
unfoldable pub is_host : Text → Map → Bool
is_host key svc = text_eq (string_or_empty (at svc key)) (codes "host")

abbrev pub service_if : Bool → Text → List Text
service_if true name = name ∷ []
service_if false name = []

unfoldable pub device_source : Text → Text
device_source dev = trim_space (first_part (split_n b':' dev 2))

-- An empty string in the list is skipped, and so is a device whose source is empty.
unfoldable pub service_devices : Map → List Text
unfolding strings_in device_source
service_devices svc = non_empty (map device_source (strings_in (at svc (codes "devices"))))

is_quote : ℕ → Bool
is_quote c = text_eq (c ∷ []) (codes "\"") || text_eq (c ∷ []) (codes "'")

parts_source : List Text → Text
parts_source [] = []
parts_source (p ∷ []) = if is_host_path (trim_space p) then trim_space p else []
parts_source (p ∷ _ ∷ _) = trim_space p

-- The source of a volume in its short form, empty for an anonymous volume.
unfoldable pub short_source : Text → Text
unfolding is_quote parts_source
short_source vol =
    parts_source (split b':' (trim is_quote (trim_space (trim_prefix b'-' (trim_space vol)))))

unfoldable pub volume_source : Value → Text
volume_source v = elim (as_string v) [
  | some s ↦ short_source s
  | none ↦ elim (as_map v) [ some m ↦ string_or_empty (at m (codes "source")) | none ↦ [] ]
]

unfoldable pub service_volumes : Map → List Text
service_volumes svc = elim (as_list (at svc (codes "volumes"))) [
  | some vs ↦ non_empty (map volume_source vs)
  | none ↦ []
]

unfoldable pub service_networks : Map → List Text
service_networks svc = elim (as_map (at svc (codes "networks"))) [
  | some nets ↦ sort_strings (keys nets)
  | none ↦ strings_in (at svc (codes "networks"))
]

-- The entries of a service, by the kind of check.
unfoldable pub service_refs : Text → Map → ComposeRefs
service_refs name svc = record {
  images = owned name (service_image svc);
  volumes = owned name (service_volumes svc);
  networks = owned name (service_networks svc);
  privileged_services = service_if (is_privileged svc) name;
  host_network_services = service_if (is_host (codes "network_mode") svc) name;
  host_pid_services = service_if (is_host (codes "pid") svc) name;
  host_ipc_services = service_if (is_host (codes "ipc") svc) name;
  cap_adds = owned name (strings_in (at svc (codes "cap_add")));
  security_opts = owned name (strings_in (at svc (codes "security_opt")));
  devices = owned name (service_devices svc);
  mounts = [];
}

abbrev pub no_refs : ComposeRefs
no_refs = record {
  images = [];
  volumes = [];
  networks = [];
  privileged_services = [];
  host_network_services = [];
  host_pid_services = [];
  host_ipc_services = [];
  cap_adds = [];
  security_opts = [];
  devices = [];
  mounts = [];
}

abbrev pub append_refs : ComposeRefs → ComposeRefs → ComposeRefs
append_refs a b = record {
  images = a.images ++ b.images;
  volumes = a.volumes ++ b.volumes;
  networks = a.networks ++ b.networks;
  privileged_services = a.privileged_services ++ b.privileged_services;
  host_network_services = a.host_network_services ++ b.host_network_services;
  host_pid_services = a.host_pid_services ++ b.host_pid_services;
  host_ipc_services = a.host_ipc_services ++ b.host_ipc_services;
  cap_adds = a.cap_adds ++ b.cap_adds;
  security_opts = a.security_opts ++ b.security_opts;
  devices = a.devices ++ b.devices;
  mounts = a.mounts ++ b.mounts;
}

-- The loop over the services; one that is no map is skipped.
unfoldable pub services_refs : Map → List Text → ComposeRefs
services_refs svcs [] = no_refs
services_refs svcs (name ∷ names) =
    let rest = services_refs svcs names in
    elim (as_map (at svcs name)) [
      | some svc ↦ append_refs (service_refs name svc) rest
      | none ↦ rest
    ]

-- The host path of a named volume that is a local bind mount, from its `driver_opts.device`.
unfoldable pub volume_device : Value → Text
volume_device def = elim (as_map def) [
  | none ↦ []
  | some m ↦ elim (as_map (at m (codes "driver_opts"))) [
    | none ↦ []
    | some opts ↦ string_or_empty (at opts (codes "device"))
  ]
]

unfoldable pub devices_by_name : Map → List (Text × Text)
devices_by_name [] = []
devices_by_name ((name, def) ∷ vols) =
    let rest = devices_by_name vols in
    if is_empty (volume_device def) then rest else (name, volume_device def) ∷ rest

unfoldable pub named_volume_devices : Map → List (Text × Text)
named_volume_devices config = elim (as_map (at config (codes "volumes"))) [
  | none ↦ []
  | some vols ↦ devices_by_name vols
]

-- The devices behind the named volumes that services refer to.
unfoldable pub resolved_devices : List (Text × Text) → List OwnedRef → List OwnedRef
resolved_devices devices [] = []
resolved_devices devices (r ∷ refs) =
    let rest = resolved_devices devices refs in
    if is_host_path r.value
    then rest
    else elim (lookup devices r.value) [ none ↦ rest | some d ↦ record r { value = d } ∷ rest ]

unfoldable pub with_mounts : Map → ComposeRefs → ComposeRefs
with_mounts config refs = record refs {
  mounts =
      refs.volumes ++ (refs.devices ++ resolved_devices (named_volume_devices config) refs.volumes);
}

unfoldable pub extract_compose_refs : Map → ComposeRefs
extract_compose_refs config = elim (as_map (at config (codes "services"))) [
  | none ↦ no_refs
  | some svcs ↦ with_mounts config (services_refs svcs (sort_strings (keys svcs)))
]

pub extract-services :
    (config svcs : Map)
    → as_map (at config (codes "services")) ≡ some svcs
    → extract_compose_refs config
      ≡ with_mounts config (services_refs svcs (sort_strings (keys svcs)))
unfolding extract_compose_refs
extract-services config svcs e = rw (e, extract_compose_refs)
