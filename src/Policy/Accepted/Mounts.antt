-- ===== src/Policy/Accepted/Mounts.antt =====
-- What a config that passes mounts, and which images it runs.
use wireops.Prelude.{
  ◌≡◌, refl, ap, ◌⊎◌, inl, inr, Option-cases, true, false, not, ◌||◌, none, some, List, [], ◌∷◌,
  map, All-In, In, here, there, In-append_left, In-append_right, Bool-cases, keep,
}
use wireops.Go.Text.{Text, codes, is_empty}
use wireops.Go.Value.{Value, str, Map, as_list, at, lookup}
use wireops.Policy.{WorkerPolicy, is_host_path}
use wireops.Policy.Refs.{
  OwnedRef, ComposeRefs, non_empty, service_refs, with_mounts, service_image, service_volumes,
  volume_source, named_volume_devices, resolved_devices,
}
use wireops.Policy.Compose.{validate_compose_config}
use wireops.Policy.Images.{IsPermittedImage, validate_images_iff}
use wireops.Policy.Volumes.{IsPermittedVolume, source_of, validate_volumes_iff}
use wireops.Policy.Socket.{ReachesSocket, validate_docker_socket_iff}
use wireops.Policy.Accepted.{HasService, refs_pass, collected, collected-In, In-values, In-owned}

In-non_empty : {s : Text} (xs : List Text) → is_empty s ≡ false → In s xs → In s (non_empty xs)
In-non_empty [] e i = elim i [ ]
In-non_empty (x ∷ xs) e here = rw (e, keep) here
In-non_empty (x ∷ xs) e (there i) = elim (Bool-cases (is_empty x)) [
  | inl y ↦ rw (y, keep) (In-non_empty xs e i)
  | inr n ↦ rw (n, keep) (there (In-non_empty xs e i))
]

In-map {ℓ κ} :
    {A : Type ℓ} {B : Type κ} (f : A → B) {a : A} {xs : List A} → In a xs → In (f a) (map f xs)
In-map f here = here
In-map f (there i) = there (In-map f i)

-- The volumes of a service, as it lists them in either form.
pub record HasVolume (svc : Map) (v : Value) : Type 0 where
  pub volumes : List Value
  pub is_list : as_list (at svc (codes "volumes")) ≡ some volumes
  pub listed : In v volumes
  pub has_source : is_empty (volume_source v) ≡ false

HasVolume-In :
    (svc : Map) (v : Value) → HasVolume svc v → In (volume_source v) (service_volumes svc)
unfolding service_volumes
HasVolume-In svc v h =
    rw (h.is_list, service_volumes)
      (In-non_empty (map volume_source h.volumes) h.has_source (In-map volume_source h.listed))

-- The device behind a named volume that some ref names is among the resolved ones.
resolved_devices-In :
    (devices : List (Text × Text)) {r : OwnedRef} {refs : List OwnedRef} {d : Text}
    → In r refs
    → is_host_path r.value ≡ false
    → lookup devices r.value ≡ some d
    → In (record r { value = d }) (resolved_devices devices refs)
unfolding resolved_devices
resolved_devices-In devices (here {xs = refs}) n e =
    rw (n, resolved_devices) (rw (e, resolved_devices) here)
resolved_devices-In devices (there {x = r'} {xs = refs} i) n e =
    let later = resolved_devices-In devices i n e in
    elim (Bool-cases (is_host_path r'.value)) [
      | inl y ↦ rw (y, resolved_devices) later
      | inr f ↦
          rw (f, resolved_devices)
            (elim (Option-cases (lookup devices r'.value)) [
              | inl y ↦ rw (y, resolved_devices) later
              | inr (d', y) ↦ rw (y, resolved_devices) (there later)
            ])
    ]

image-In :
    (svc : Map) (image : Text)
    → at svc (codes "image") ≡ str image
    → is_empty image ≡ false
    → In image (service_image svc)
unfolding service_image
image-In svc image e n = rw (e, service_image) (In-non_empty (image ∷ []) n here)

module _ (p : WorkerPolicy) (config : Map) (enabled : p.disabled ≡ false)
    (passes : validate_compose_config p config ≡ none) (name : Text) (svc : Map)
    (h : HasService config name svc) where
  abbrev refs : ComposeRefs
  refs = collected p config enabled passes name svc h

  on : {A : Type 0} → (p.disabled ≡ true) ⊎ A → A
  on (inl e) = cc (e, enabled)
  on (inr a) = a

  blocked :
      {A : Type 0}
      → p.block_docker_socket ≡ true
      → ((p.disabled || not p.block_docker_socket) ≡ true) ⊎ A
      → A
  blocked b (inl e) = cc (e, ap (λ d. d || not p.block_docker_socket) enabled, ap not b)
  blocked b (inr a) = a

  -- A config that an enabled policy accepts runs only images that the policy permits.
  pub validated-image :
      (image : Text)
      → at svc (codes "image") ≡ str image
      → is_empty image ≡ false
      → IsPermittedImage p image
  unfolding with_mounts service_refs
  validated-image image e n =
      All-In (IsPermittedImage p)
        (on ((validate_images_iff p _).0 (refs_pass p config enabled passes name svc h).images))
        (In-values (
          collected-In p config enabled passes name svc h (λ r. r.images) (λ x y. refl)
            (In-owned name (image-In svc image e n))))

  volume-In :
      (v : Value)
      → HasVolume svc v
      → In (record { service = name; value = volume_source v }) refs.volumes
  unfolding service_refs
  volume-In v hv =
      collected-In p config enabled passes name svc h (λ r. r.volumes) (λ x y. refl)
        (In-owned name (HasVolume-In svc v hv))

  -- Every volume of such a config, in its short form or its long one, is one that the policy permits.
  pub validated-volume :
      (v : Value) → HasVolume svc v → IsPermittedVolume p (source_of (volume_source v))
  unfolding with_mounts
  validated-volume v hv =
      All-In (λ vol. IsPermittedVolume p (source_of vol))
        (on ((validate_volumes_iff p _).0 (refs_pass p config enabled passes name svc h).volumes))
        (In-values (volume-In v hv))

  mount_safe :
      {r : OwnedRef}
      → p.block_docker_socket ≡ true
      → In r (with_mounts config refs).mounts
      → ¬ (ReachesSocket r.value)
  mount_safe b i =
      All-In (λ m. ¬ (ReachesSocket m))
        (blocked b (
          (validate_docker_socket_iff p _).0 (refs_pass p config enabled passes name svc h).socket))
        (In-values i)

  -- With the Docker socket blocked by an enabled policy, no volume of a service of a config that
  -- ValidateComposeConfig accepts reaches the socket, and neither does the host device behind a
  -- named volume that the config declares as a bind mount.
  pub validated-socket :
      (v : Value)
      → p.block_docker_socket ≡ true
      → HasVolume svc v
      → (¬ (ReachesSocket (volume_source v)))
        × ((device : Text)
            → is_host_path (volume_source v) ≡ false
            → lookup (named_volume_devices config) (volume_source v) ≡ some device
            → ¬ (ReachesSocket device))
  unfolding with_mounts
  validated-socket v b hv = (
    mount_safe b (In-append_left _ (volume-In v hv)),
    λ device n e. mount_safe b (
        In-append_right refs.volumes (
          In-append_right refs.devices
            (resolved_devices-In (named_volume_devices config) (volume-In v hv) n e))),
  )
