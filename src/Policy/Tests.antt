-- ===== src/Policy/Tests.antt =====
-- The policy checks on a concrete policy and compose config.
use wireops.Go.Value.{bool, nil}
use wireops.Policy.{is_host_path}
use wireops.Prelude.{◌≡◌, refl, ◌↔◌, ◌⊎◌, true, false, none, some, [], ◌∷◌, ◌++◌, All, here, first}
use wireops.Go.Text.{Text, codes, contains_rune}
use wireops.Go.Path.{slash, clean}
use wireops.Go.Value.{
  Value, str, arr, obj, no_items, item, no_fields, field, Map, entries, as_map, at, keys,
}
use wireops.Policy.{
  WorkerPolicy, validate_volumes, validate_images, validate_docker_socket, match_pattern,
}
use wireops.Policy.Load.{empty_policy}
use wireops.Policy.Refs.{extract_compose_refs, volume_source}
use wireops.Policy.Compose.{validate_compose_config, compose_violations}
use wireops.Policy.Volumes.{
  source_of, IsPermittedVolume, validate_volumes_iff, root_permits_root_only,
}
use wireops.Policy.Images.{IsPermittedImage, validate_images_iff, match_pattern-star_iff}
use wireops.Policy.Socket.{ReachesSocket}
use wireops.Policy.Agreement.{message?, first-compose_violations}
use wireops.Policy.Accepted.{HasService}
use wireops.Policy.Accepted.Mounts.{HasVolume, validated-socket}

-- Volumes at or below /srv, images of one registry, and no way to the Docker socket.
abbrev guarded : WorkerPolicy
guarded = record (empty_policy false) {
  allowed_volumes = some (codes "/srv" ∷ codes "data" ∷ []);
  allowed_images = some (codes "registry/*" ∷ []);
  block_privileged = true;
  block_docker_socket = true;
}

abbrev web : Map
web =
    (codes "image", str (codes "registry/web:1"))
    ∷ (codes "volumes", arr (item (str (codes "/srv/www:/www")) no_items))
    ∷ []

abbrev config : Map
config =
    (
      codes "services",
      obj (
          field (codes "web")
            (obj (
              field (codes "image") (str (codes "registry/web:1")) (
                field (codes "volumes") (arr (item (str (codes "/srv/www:/www")) no_items))
                  no_fields)))
            no_fields),
    )
    ∷ []

first-compose_violations_example :
    validate_compose_config guarded config ≡ message? (first (compose_violations guarded config))
first-compose_violations_example = first-compose_violations guarded config

validate_volumes_iff_example : (validate_volumes guarded (codes "/srv/www:/www" ∷ []) ≡ none) ↔ (
    (false ≡ true)
    ⊎ All (λ vol. IsPermittedVolume guarded (source_of vol)) (codes "/srv/www:/www" ∷ []))
validate_volumes_iff_example = validate_volumes_iff guarded (codes "/srv/www:/www" ∷ [])

validate_images_iff_example :
    (validate_images guarded (codes "registry/web:1" ∷ []) ≡ none)
    ↔ ((false ≡ true) ⊎ All (IsPermittedImage guarded) (codes "registry/web:1" ∷ []))
validate_images_iff_example = validate_images_iff guarded (codes "registry/web:1" ∷ [])

match_pattern-star_iff_example :
    (match_pattern (codes "registry/web") (codes "registry/" ++ (b'*' ∷ [])) ≡ true) ↔ (
      (codes "registry/" ++ (b'*' ∷ []) ≡ codes "registry/web")
      ⊎ ((t : Text) × (codes "registry/web" ≡ codes "registry/" ++ t)
          × (contains_rune t b'/' ≡ false)))
match_pattern-star_iff_example =
    match_pattern-star_iff (codes "registry/web") (codes "registry/")
      (refl, (refl, (refl, (refl, (refl, (refl, (refl, (refl, (refl, tt)))))))))

config-passes : validate_compose_config guarded config ≡ none
unfolding wireops.Policy.is_host_path wireops.Policy.volume_allowed wireops.Policy.check_list
    wireops.Policy.validate_volume_source wireops.Policy.validate_single_volume
    wireops.Policy.validate_volumes wireops.Policy.match_pattern wireops.Policy.validate_image
    wireops.Policy.validate_images wireops.Policy.validate_services wireops.Policy.exposes_socket
    wireops.Policy.validate_mount wireops.Policy.validate_docker_socket
    wireops.Policy.validate_listed wireops.Policy.Refs.service_image
    wireops.Policy.Refs.is_privileged wireops.Policy.Refs.is_host
    wireops.Policy.Refs.service_devices wireops.Policy.Refs.short_source
    wireops.Policy.Refs.volume_source wireops.Policy.Refs.service_volumes
    wireops.Policy.Refs.service_networks wireops.Policy.Refs.service_refs
    wireops.Policy.Refs.services_refs wireops.Policy.Refs.resolved_devices
    wireops.Policy.Refs.with_mounts wireops.Policy.Refs.extract_compose_refs
    wireops.Policy.Compose.validate_refs wireops.Policy.Compose.validate_compose_config
    wireops.Go.Text.split_n wireops.Go.Text.trim_space wireops.Go.Path.clean
    wireops.Go.Glob.glob_match wireops.Go.Sort.sort_strings wireops.Go.Value.at
config-passes = refl

web_service : HasService config (codes "web") web
unfolding wireops.Go.Value.at wireops.Go.Text.text_eq
web_service = record {
  services =
      (
        codes "web",
        obj (
            field (codes "image") (str (codes "registry/web:1")) (
              field (codes "volumes") (arr (item (str (codes "/srv/www:/www")) no_items))
                no_fields)),
      )
      ∷ [];
  is_map = refl;
  has_key = here;
  is_service = refl;
}

web_volume : HasVolume web (str (codes "/srv/www:/www"))
unfolding wireops.Policy.Refs.short_source wireops.Policy.Refs.volume_source
    wireops.Go.Text.trim_space wireops.Go.Path.clean wireops.Go.Value.at
web_volume = record {
  volumes = str (codes "/srv/www:/www") ∷ [];
  is_list = refl;
  listed = here;
  has_source = refl;
}

validated-socket_example : ¬ (ReachesSocket (volume_source (str (codes "/srv/www:/www"))))
validated-socket_example =
    (validated-socket guarded config refl config-passes (codes "web") web web_service
      (str (codes "/srv/www:/www")) refl web_volume).0

abbrev root_only : WorkerPolicy
root_only = record (empty_policy false) { allowed_volumes = some (slash ∷ []) }

root_passes : validate_volumes root_only (codes "/" ∷ []) ≡ none
unfolding wireops.Policy.is_host_path wireops.Policy.volume_allowed wireops.Policy.check_list
    wireops.Policy.validate_volume_source wireops.Policy.validate_single_volume
    wireops.Policy.validate_volumes wireops.Go.Text.split_n wireops.Go.Path.clean
    wireops.Go.Glob.glob_match
root_passes = refl

root_is_path : is_host_path (source_of (codes "/")) ≡ true
unfolding wireops.Policy.is_host_path wireops.Go.Text.has_prefix wireops.Go.Text.before
root_is_path = refl

root_permits_root_only_example : clean (source_of (codes "/")) ≡ slash
root_permits_root_only_example =
    root_permits_root_only root_only (codes "/") refl refl root_is_path root_passes
