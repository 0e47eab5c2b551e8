-- ===== src/Policy/Accepted.antt =====
-- A compose config that passes: the entries of each of its services went through the checks.
pub mod Privileges
pub mod Mounts
use mathlib.Core.Path.{subst}
use wireops.Prelude.{
  ◌≡◌, ◌≢◌, refl, ap, sym, ◌∙◌, ◌↔◌, ◌⊎◌, inl, inr, Option-cases, Bool, true, false, Option, none,
  some, List, [], ◌∷◌, ◌++◌, arith, if◌then◌else◌, or_else, first_some, first_some-none_iff, All,
  All-In, In, here, there, In-append_left, In-append_right, Bool-cases,
}
use wireops.Go.Text.{Text, codes, text_eq, text_eq_iff, text_eq_refl, is_empty}
use wireops.Go.Sort.{sort_strings, sort_strings-In}
use wireops.Go.Value.{Value, bool, str, Map, as_map, at, keys}
use wireops.Policy.{
  WorkerPolicy, PolicyError, privileged_service, host_network_service, host_pid_service,
  host_ipc_service, elems, validate_services, validate_images, validate_volumes,
  validate_docker_socket, validate_network, validate_privileged, validate_host_network,
  validate_host_pid, validate_host_ipc,
}
use wireops.Policy.Refs.{
  OwnedRef, ComposeRefs, values, owned, service_if, is_privileged, is_host, service_refs,
  append_refs, services_refs, with_mounts, extract_compose_refs, extract-services, service_image,
  service_volumes,
}
use wireops.Policy.Compose.{Message, check_with, validate_refs, validate_compose_config}
use wireops.Policy.Images.{IsPermittedImage, validate_images_iff}
use wireops.Policy.Volumes.{IsPermittedVolume, source_of, validate_volumes_iff}
use wireops.Policy.Socket.{ReachesSocket, validate_docker_socket_iff}

or_else-none {κ} : {E : Type κ} (a b : Option E) → or_else a b ≡ none → (a ≡ none) × (b ≡ none)
or_else-none none b h = (refl, h)
or_else-none (some x) b h = cc

check_with-none : (prefix : Text) (e : Option PolicyError) → check_with prefix e ≡ none → e ≡ none
check_with-none prefix none h = refl
check_with-none prefix (some e) h = cc

-- The checks that pass where the whole does.
record Passes (p : WorkerPolicy) (refs : ComposeRefs) : Type 0 where
  images : validate_images p (values refs.images) ≡ none
  volumes : validate_volumes p (values refs.volumes) ≡ none
  networks : first_some (validate_network p) (values refs.networks) ≡ none
  privileged : validate_privileged p refs.privileged_services ≡ none
  host_network : validate_host_network p refs.host_network_services ≡ none
  host_pid : validate_host_pid p refs.host_pid_services ≡ none
  host_ipc : validate_host_ipc p refs.host_ipc_services ≡ none
  socket : validate_docker_socket p (values refs.mounts) ≡ none

validate_refs-Passes :
    (p : WorkerPolicy) (refs : ComposeRefs) → validate_refs p refs ≡ none → Passes p refs
unfolding validate_refs
validate_refs-Passes p refs h =
    let (a1, h1) = or_else-none _ _ h in
    let (a2, h2) = or_else-none _ _ h1 in
    let (a3, h3) = or_else-none _ _ h2 in
    let (a4, h4) = or_else-none _ _ h3 in
    let (a5, h5) = or_else-none _ _ h4 in
    let (a6, h6) = or_else-none _ _ h5 in
    let (a7, h7) = or_else-none _ _ h6 in
    let (a8, h8) = or_else-none _ _ h7 in
    record {
      images = check_with-none _ _ a1;
      volumes = check_with-none _ _ a2;
      networks = check_with-none _ _ a3;
      privileged = check_with-none _ _ a4;
      host_network = check_with-none _ _ a5;
      host_pid = check_with-none _ _ a6;
      host_ipc = check_with-none _ _ a7;
      socket = check_with-none _ _ a8;
    }

-- The service `name` of a config, as a map.
pub record HasService (config : Map) (name : Text) (svc : Map) : Type 0 where
  pub services : Map
  pub is_map : as_map (at config (codes "services")) ≡ some services
  pub has_key : In name (keys services)
  pub is_service : as_map (at services name) ≡ some svc

-- A field of the refs that is collected over the services keeps what one service gives.
module _ {X : Type 0} (F : ComposeRefs → List X)
    (appends : (a b : ComposeRefs) → F (append_refs a b) ≡ F a ++ F b) where
  services_refs-In :
      (svcs : Map) (name : Text) (svc : Map)
      → as_map (at svcs name) ≡ some svc
      → {names : List Text} → In name names
      → {x : X} → In x (F (service_refs name svc))
      → In x (F (services_refs svcs names))
  unfolding services_refs
  services_refs-In svcs name svc e (here {xs = names}) i =
      rw (e, services_refs) (rw appends (In-append_left _ i))
  services_refs-In svcs name svc e (there {x = other} {xs = names} j) i =
      let later = services_refs-In svcs name svc e j i in
      elim (Option-cases (as_map (at svcs other))) [
        | inl n ↦ rw (n, services_refs) later
        | inr (svc', m) ↦ rw (m, services_refs) (rw appends (In-append_right _ later))
      ]

In-values : {r : OwnedRef} {refs : List OwnedRef} → In r refs → In r.value (values refs)
In-values here = here
In-values (there i) = there (In-values i)

In-owned :
    {v : Text} (name : Text) {vs : List Text}
    → In v vs
    → In (record { service = name; value = v }) (owned name vs)
In-owned name here = here
In-owned name (there i) = there (In-owned name i)

else_none :
    {E : Type 0} (b : Bool) {e : Option E} → b ≡ false → (if b then none else e) ≡ none → e ≡ none
else_none true f h = cc
else_none false f h = h

module _ (p : WorkerPolicy) (config : Map) (enabled : p.disabled ≡ false)
    (passes : validate_compose_config p config ≡ none) (name : Text) (svc : Map)
    (h : HasService config name svc) where
  abbrev collected : ComposeRefs
  collected = services_refs h.services (sort_strings (keys h.services))

  refs_pass : Passes p (with_mounts config collected)
  unfolding validate_compose_config
  refs_pass =
      subst (Passes p) (extract-services config h.services h.is_map)
        (validate_refs-Passes p (extract_compose_refs config) (else_none p.disabled enabled passes))

  module _ {X : Type 0} (F : ComposeRefs → List X)
      (appends : (a b : ComposeRefs) → F (append_refs a b) ≡ F a ++ F b) where
    collected-In : {x : X} → In x (F (service_refs name svc)) → In x (F collected)
    collected-In =
        services_refs-In F appends h.services name svc h.is_service (sort_strings-In h.has_key)
