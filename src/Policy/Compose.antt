-- ===== src/Policy/Compose.antt =====
-- internal/policy/compose.go: the check of a compose config that stops at the first violation, and
-- the one that reports them all.
use wireops.Prelude.{
  Option, none, some, List, [], ◌∷◌, ◌++◌, if◌then◌else◌, or_else, first_some, all_some,
}
use wireops.Go.Text.{Text, codes}
use wireops.Go.Value.{Map}
use wireops.Policy.{
  WorkerPolicy, PolicyError, validate_images, validate_volumes, validate_network,
  validate_privileged, validate_host_network, validate_host_pid, validate_host_ipc,
  validate_docker_socket, validate_cap_add, validate_devices, validate_security_opt,
}
use wireops.Policy.Refs.{OwnedRef, ComposeRefs, values, extract_compose_refs}

-- `fmt.Errorf("<prefix>: %w", err)`.
pub record Message : Type 0 where
  pub prefix : Text
  pub err : PolicyError

pub record Violation : Type 0 where
  pub check : Text
  pub service : Text
  pub subject : Text
  pub message : Message

abbrev pub wrap : Text → PolicyError → Message
wrap prefix err = record { prefix = prefix; err = err }

-- The prefixes of the messages, each for one kind of check.
abbrev pub image_prefix : Text
image_prefix = codes "image policy violation"

abbrev pub volume_prefix : Text
volume_prefix = codes "volume policy violation"

abbrev pub network_prefix : Text
network_prefix = codes "network policy violation"

abbrev pub privileged_prefix : Text
privileged_prefix = codes "privileged mode policy violation"

abbrev pub host_network_prefix : Text
host_network_prefix = codes "host network policy violation"

abbrev pub host_pid_prefix : Text
host_pid_prefix = codes "host pid policy violation"

abbrev pub host_ipc_prefix : Text
host_ipc_prefix = codes "host ipc policy violation"

abbrev pub docker_socket_prefix : Text
docker_socket_prefix = codes "docker socket policy violation"

abbrev pub cap_add_prefix : Text
cap_add_prefix = codes "cap_add policy violation"

abbrev pub device_prefix : Text
device_prefix = codes "device policy violation"

abbrev pub security_opt_prefix : Text
security_opt_prefix = codes "security_opt policy violation"

-- `if err := …; err != nil { return fmt.Errorf(prefix, err) }`, before the rest.
abbrev pub check_with : Text → Option PolicyError → Option Message
check_with prefix none = none
check_with prefix (some e) = some (wrap prefix e)

-- The body of `ValidateComposeConfig`, on the refs that it extracts.
unfoldable pub validate_refs : WorkerPolicy → ComposeRefs → Option Message
validate_refs p refs = or_else (check_with image_prefix (validate_images p (values refs.images))) (
    or_else (check_with volume_prefix (validate_volumes p (values refs.volumes))) (
      or_else (check_with network_prefix (first_some (validate_network p) (values refs.networks))) (
        or_else (check_with privileged_prefix (validate_privileged p refs.privileged_services)) (
          or_else
            (check_with host_network_prefix (validate_host_network p refs.host_network_services))
            (or_else (check_with host_pid_prefix (validate_host_pid p refs.host_pid_services)) (
              or_else (check_with host_ipc_prefix (validate_host_ipc p refs.host_ipc_services)) (
                or_else
                  (check_with docker_socket_prefix (validate_docker_socket p (values refs.mounts)))
                  (or_else (check_with cap_add_prefix (validate_cap_add p (values refs.cap_adds))) (
                    or_else (check_with device_prefix (validate_devices p (values refs.devices))) (
                      check_with security_opt_prefix
                        (validate_security_opt p (values refs.security_opts))))))))))))

-- `ValidateComposeConfig`.
unfoldable pub validate_compose_config : WorkerPolicy → Map → Option Message
validate_compose_config p config =
    if p.disabled then none else validate_refs p (extract_compose_refs config)

-- `add(check, ref, err, prefix)`, as what it appends.
abbrev pub violation : Text → Text → OwnedRef → Option PolicyError → Option Violation
violation check prefix ref none = none
violation check prefix ref (some e) =
    some (record {
      check = check;
      service = ref.service;
      subject = ref.value;
      message = wrap prefix e;
    })

-- One of the loops of `ComposeViolations`: each value is validated on its own, as a slice of one.
unfoldable pub violations_of :
    Text → Text → (List Text → Option PolicyError) → List OwnedRef → List Violation
violations_of check prefix validate refs =
    all_some (λ r. violation check prefix r (validate (r.value ∷ []))) refs

-- `ownedRef{Service: svc, Value: svc}`.
abbrev pub own_services : List Text → List OwnedRef
own_services [] = []
own_services (s ∷ ss) = record { service = s; value = s } ∷ own_services ss

-- The body of `ComposeViolations`, on the refs that it extracts.
unfoldable pub refs_violations : WorkerPolicy → ComposeRefs → List Violation
refs_violations p refs =
    violations_of (codes "images") image_prefix (validate_images p) refs.images
    ++ (violations_of (codes "volumes") volume_prefix (validate_volumes p) refs.volumes
        ++ (violations_of (codes "networks") network_prefix (first_some (validate_network p))
              refs.networks
            ++ (violations_of (codes "privileged") privileged_prefix (validate_privileged p)
                  (own_services refs.privileged_services)
                ++ (violations_of (codes "host_network") host_network_prefix
                      (validate_host_network p) (own_services refs.host_network_services)
                    ++ (violations_of (codes "host_pid") host_pid_prefix (validate_host_pid p)
                          (own_services refs.host_pid_services)
                        ++ (violations_of (codes "host_ipc") host_ipc_prefix (validate_host_ipc p)
                              (own_services refs.host_ipc_services)
                            ++ (violations_of (codes "docker_socket") docker_socket_prefix
                                  (validate_docker_socket p) refs.mounts
                                ++ (violations_of (codes "cap_add") cap_add_prefix
                                      (validate_cap_add p) refs.cap_adds
                                    ++ (violations_of (codes "devices") device_prefix
                                          (validate_devices p) refs.devices
                                        ++ violations_of (codes "security_opt") security_opt_prefix
                                            (validate_security_opt p) refs.security_opts)))))))))

-- `ComposeViolations`.
unfoldable pub compose_violations : WorkerPolicy → Map → List Violation
compose_violations p config =
    if p.disabled then [] else refs_violations p (extract_compose_refs config)
