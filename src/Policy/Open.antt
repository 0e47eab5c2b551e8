-- ===== src/Policy/Open.antt =====
-- A policy without restrictions accepts every compose config. A worker gets one that neither inherits
-- nor overrides anything.
use wireops.Prelude.{◌≡◌, refl, Bool, true, false, Option, none, List, [], ◌∷◌, arith, first_some}
use wireops.Go.Text.{Text}
use wireops.Go.Value.{Map}
use wireops.Policy.{
  WorkerPolicy, PolicyError, capability_not_listed, device_not_listed, security_opt_not_listed,
  validate_privileged, validate_host_network, validate_host_pid, validate_host_ipc,
  validate_cap_add, validate_devices, validate_security_opt, elems, check_list, validate_images,
  validate_image, validate_volumes, validate_single_volume, validate_volume_source,
  validate_network, validate_services, validate_docker_socket, validate_listed,
}
use wireops.Policy.Refs.{OwnedRef, ComposeRefs, extract_compose_refs}
use wireops.Policy.Compose.{violations_of, refs_violations, compose_violations}
use wireops.Policy.Load.{WorkerRecord, PolicyFlags, App, loaded, get_or, resolve, load_global, load}
use wireops.Policy.Load.Laws.{NoOverrides, Finds}

pub record IsOpen (p : WorkerPolicy) : Type 0 where
  pub volumes : elems p.allowed_volumes ≡ []
  pub networks : elems p.allowed_networks ≡ []
  pub images : elems p.allowed_images ≡ []
  pub cap_add : elems p.allowed_cap_add ≡ []
  pub devices : elems p.allowed_devices ≡ []
  pub security_opt : elems p.allowed_security_opt ≡ []
  pub latest : p.prevent_latest_images ≡ false
  pub host_volumes : p.block_host_volumes ≡ false
  pub privileged : p.block_privileged ≡ false
  pub host_network : p.block_host_network ≡ false
  pub host_pid : p.block_host_pid ≡ false
  pub host_ipc : p.block_host_ipc ≡ false
  pub socket : p.block_docker_socket ≡ false

no_violations :
    (validate : List Text → Option PolicyError)
    → ((x : Text) → validate (x ∷ []) ≡ none)
    → (check prefix : Text) (refs : List OwnedRef) → violations_of check prefix validate refs ≡ []
unfolding violations_of
no_violations validate accepts check prefix [] = refl
no_violations validate accepts check prefix (r ∷ refs) =
    ground (arith, accepts r.value, no_violations validate accepts check prefix refs)

module _ (p : WorkerPolicy) (o : IsOpen p) where
  open-image : (x : Text) → validate_images p (x ∷ []) ≡ none
  unfolding validate_images validate_image check_list
  open-image x = ground arith

  open-volume : (x : Text) → validate_volumes p (x ∷ []) ≡ none
  unfolding validate_volumes validate_single_volume validate_volume_source check_list
  open-volume x = ground arith

  open-network : (x : Text) → first_some (validate_network p) (x ∷ []) ≡ none
  unfolding validate_network check_list
  open-network x = ground arith

  open-service :
      (blocks : WorkerPolicy → Bool) (error : Text → PolicyError)
      → blocks p ≡ false
      → (x : Text) → validate_services blocks error p (x ∷ []) ≡ none
  unfolding validate_services
  open-service blocks error e x = ground arith

  open-mount : (x : Text) → validate_docker_socket p (x ∷ []) ≡ none
  unfolding validate_docker_socket
  open-mount x = ground arith

  open-listed :
      (error : Text → PolicyError) (allowed : List Text)
      → allowed ≡ []
      → (x : Text) → validate_listed error p allowed (x ∷ []) ≡ none
  unfolding validate_listed
  open-listed error [] e x = refl
  open-listed error (a ∷ as') e x = cc e

  IsOpen-refs_violations : (refs : ComposeRefs) → refs_violations p refs ≡ []
  unfolding refs_violations
  IsOpen-refs_violations refs = simp (
    no_violations (validate_images p) open-image,
    no_violations (validate_volumes p) open-volume,
    no_violations (first_some (validate_network p)) open-network,
    no_violations (validate_privileged p) (open-service _ _ o.privileged),
    no_violations (validate_host_network p) (open-service _ _ o.host_network),
    no_violations (validate_host_pid p) (open-service _ _ o.host_pid),
    no_violations (validate_host_ipc p) (open-service _ _ o.host_ipc),
    no_violations (validate_docker_socket p) open-mount,
    no_violations (validate_cap_add p) (open-listed capability_not_listed _ o.cap_add),
    no_violations (validate_devices p) (open-listed device_not_listed _ o.devices),
    no_violations (validate_security_opt p) (open-listed security_opt_not_listed _ o.security_opt),
  )

  IsOpen-compose_violations : (config : Map) → compose_violations p config ≡ []
  unfolding compose_violations
  IsOpen-compose_violations config =
      ground (arith, IsOpen-refs_violations (extract_compose_refs config))

module _ (decode_flags : Text → PolicyFlags) where
  resolve-IsOpen :
      (global : WorkerPolicy) (worker : WorkerRecord)
      → NoOverrides decode_flags worker
      → get_or worker.policy_inherit true ≡ false
      → IsOpen (resolve decode_flags global worker)
  unfolding resolve
  resolve-IsOpen global worker h i = ground arith

  -- A worker that neither inherits nor overrides anything accepts every compose config, whatever the
  -- global policy forbids.
  pub load-detached :
      (app : App) (worker_id : Text) (worker : WorkerRecord) (global : WorkerPolicy)
      → load_global app ≡ loaded global
      → Finds app worker_id worker
      → NoOverrides decode_flags worker
      → get_or worker.policy_inherit true ≡ false
      → (p : WorkerPolicy) → load decode_flags app worker_id ≡ loaded p
      → (config : Map) → compose_violations p config ≡ []
  unfolding load
  load-detached app worker_id worker global g f h i p l config =
      let e : p ≡ resolve decode_flags global worker = ground arith in
      rw e (IsOpen-compose_violations _ (resolve-IsOpen global worker h i) config)
