-- ===== src/Policy.antt =====
-- internal/policy/policy.go: the effective policy of a worker, and the check of each dimension.
pub mod Load
pub mod Json
pub mod Refs
pub mod Compose
pub mod Allow
pub mod Volumes
pub mod Tags
pub mod Images
pub mod Socket
pub mod Agreement
pub mod Accepted
pub mod Open
pub mod Order
pub mod Tests
use wireops.Prelude.{
  ℕ, ◌≡◌, Bool, true, false, not, ◌&&◌, ◌||◌, Option, none, some, List, [], ◌∷◌, ◌++◌,
  if◌then◌else◌, any, or_else, first_some,
}
use wireops.Go.Text.{
  Text, codes, text_eq, is_empty, has_prefix, contains_rune, before, after_last, split_n,
  first_part,
}
use wireops.Go.Path.{slash, clean}
use wireops.Go.Glob.{glob_match}

-- A Go slice of strings: `none` is the nil slice, which has no elements either.
abbrev pub Slice : Type 0
Slice = Option (List Text)

abbrev pub elems : Slice → List Text
elems none = []
elems (some xs) = xs

pub record WorkerPolicy : Type 0 where
  pub disabled : Bool
  pub allowed_volumes : Slice
  pub allowed_networks : Slice
  pub allowed_images : Slice
  pub allowed_cap_add : Slice
  pub allowed_devices : Slice
  pub allowed_security_opt : Slice
  pub prevent_latest_images : Bool
  pub block_host_volumes : Bool
  pub block_privileged : Bool
  pub block_host_network : Bool
  pub block_host_pid : Bool
  pub block_host_ipc : Bool
  pub block_docker_socket : Bool
  pub allow_render_overrides : Bool

-- The `fmt.Errorf` texts of the checks, with the value that each quotes.
pub data PolicyError : Type 0 where
  host_bind_mount : Text → PolicyError
  volume_not_listed : Text → PolicyError
  network_not_listed : Text → PolicyError
  latest_image : Text → PolicyError
  image_not_listed : Text → PolicyError
  privileged_service : Text → PolicyError
  host_network_service : Text → PolicyError
  host_pid_service : Text → PolicyError
  host_ipc_service : Text → PolicyError
  docker_socket_mount : Text → PolicyError
  capability_not_listed : Text → PolicyError
  device_not_listed : Text → PolicyError
  security_opt_not_listed : Text → PolicyError

-- `isHostPath` of compose.go, and the test written out in `validateSingleVolume`.
unfoldable pub is_host_path : Text → Bool
is_host_path src =
    has_prefix src (codes "/")
    || has_prefix src (codes "./")
    || has_prefix src (codes "../")
    || has_prefix src (codes "~")

unfoldable pub volume_allowed : Bool → Text → Text → Bool
volume_allowed bind host allowed =
    if bind
    then text_eq (clean host) (clean allowed) || has_prefix (clean host) (clean allowed ++ slash)
    else text_eq host allowed

-- An allow list: it is open where it is empty, and else asks for an entry that fits.
unfoldable pub check_list : (Text → Bool) → PolicyError → List Text → Option PolicyError
check_list fits error [] = none
check_list fits error (a ∷ as') = if any fits (a ∷ as') then none else some error

unfoldable pub validate_volume_source : WorkerPolicy → Text → Option PolicyError
validate_volume_source p host =
    if p.block_host_volumes && is_host_path host
    then some (host_bind_mount host)
    else check_list (volume_allowed (is_host_path host) host) (volume_not_listed host)
        (elems p.allowed_volumes)

unfoldable pub validate_single_volume : WorkerPolicy → Text → Option PolicyError
validate_single_volume p vol = validate_volume_source p (first_part (split_n b':' vol 3))

unfoldable pub validate_volumes : WorkerPolicy → List Text → Option PolicyError
validate_volumes p volumes =
    if p.disabled then none else first_some (validate_single_volume p) volumes

unfoldable pub validate_network : WorkerPolicy → Text → Option PolicyError
validate_network p network =
    if p.disabled || is_empty network
    then none
    else check_list (text_eq network) (network_not_listed network) (elems p.allowed_networks)

-- The tag of an image reference stands after the last colon behind the last slash, the digest cut
-- off.
unfoldable pub is_latest_or_untagged : Text → Bool
is_latest_or_untagged image =
    let suffix = after_last b'/' (before b'@' image) in
    if contains_rune suffix b':'
    then is_empty (after_last b':' suffix) || text_eq (after_last b':' suffix) (codes "latest")
    else true

unfoldable pub match_pattern : Text → Text → Bool
match_pattern image pattern = text_eq pattern image || glob_match pattern image

-- The body of the loop of `ValidateImages`, with the loop of `imageAllowed` over the patterns.
unfoldable pub validate_image : WorkerPolicy → Text → Option PolicyError
validate_image p image =
    if p.prevent_latest_images && is_latest_or_untagged image
    then some (latest_image image)
    else check_list (match_pattern image) (image_not_listed image) (elems p.allowed_images)

unfoldable pub validate_images : WorkerPolicy → List Text → Option PolicyError
validate_images p images = if p.disabled then none else first_some (validate_image p) images

-- `ValidatePrivileged` and its three siblings name the first service.
unfoldable pub validate_services :
    (WorkerPolicy → Bool) → (Text → PolicyError) → WorkerPolicy → List Text → Option PolicyError
validate_services blocks error p [] = none
validate_services blocks error p (s ∷ _) =
    if p.disabled || not (blocks p) then none else some (error s)

abbrev pub validate_privileged : WorkerPolicy → List Text → Option PolicyError
validate_privileged = validate_services (λ p. p.block_privileged) privileged_service

abbrev pub validate_host_network : WorkerPolicy → List Text → Option PolicyError
validate_host_network = validate_services (λ p. p.block_host_network) host_network_service

abbrev pub validate_host_pid : WorkerPolicy → List Text → Option PolicyError
validate_host_pid = validate_services (λ p. p.block_host_pid) host_pid_service

abbrev pub validate_host_ipc : WorkerPolicy → List Text → Option PolicyError
validate_host_ipc = validate_services (λ p. p.block_host_ipc) host_ipc_service

abbrev pub docker_socket_paths : List Text
docker_socket_paths = codes "/var/run/docker.sock" ∷ codes "/run/docker.sock" ∷ []

-- Whether a cleaned mount source is the socket, or a directory above it.
unfoldable pub exposes_socket : Text → Text → Bool
exposes_socket src sock =
    text_eq src sock || has_prefix sock (if text_eq src slash then src else src ++ slash)

-- The body of the loop of `ValidateDockerSocket`.
unfoldable pub validate_mount : Text → Option PolicyError
validate_mount m =
    if any (exposes_socket (clean (first_part (split_n b':' m 2)))) docker_socket_paths
    then some (docker_socket_mount m)
    else none

unfoldable pub validate_docker_socket : WorkerPolicy → List Text → Option PolicyError
validate_docker_socket p mounts =
    if p.disabled || not p.block_docker_socket then none else first_some validate_mount mounts

unfoldable pub string_in_list : Text → List Text → Bool
string_in_list s list = any (λ item. text_eq item s) list

-- The loop of `ValidateCapAdd`, `ValidateDevices` and `ValidateSecurityOpt`.
unfoldable pub validate_listed :
    (Text → PolicyError) → WorkerPolicy → List Text → List Text → Option PolicyError
validate_listed error p [] requested = none
validate_listed error p (a ∷ as') requested =
    if p.disabled
    then none
    else first_some (λ x. if string_in_list x (a ∷ as') then none else some (error x)) requested

abbrev pub validate_cap_add : WorkerPolicy → List Text → Option PolicyError
validate_cap_add p = validate_listed capability_not_listed p (elems p.allowed_cap_add)

abbrev pub validate_devices : WorkerPolicy → List Text → Option PolicyError
validate_devices p = validate_listed device_not_listed p (elems p.allowed_devices)

abbrev pub validate_security_opt : WorkerPolicy → List Text → Option PolicyError
validate_security_opt p = validate_listed security_opt_not_listed p (elems p.allowed_security_opt)
