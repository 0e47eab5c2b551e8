-- ===== src/Policy/Order.antt =====
-- The order in which `range` visits the services of a config does not show in what is extracted.
use mathlib.Core.List.{Permᴰ}
use wireops.Prelude.{◌≡◌, refl, ap, sym, ◌∙◌, none, some, List, [], ◌∷◌}
use wireops.Go.Text.{Text, codes}
use wireops.Go.Sort.{sort_strings}
use wireops.Go.Value.{Map, as_map, at, keys}
use wireops.Go.Value.Order.{IsDistinct, at-perm, sort-keys-perm}
use wireops.Policy.Refs.{
  ComposeRefs, append_refs, service_refs, services_refs, with_mounts, named_volume_devices,
  extract_compose_refs, extract-services,
}

services_refs-at :
    (m n : Map)
    → ((k : Text) → at m k ≡ at n k)
    → (names : List Text) → services_refs m names ≡ services_refs n names
unfolding services_refs
services_refs-at m n e [] = refl
services_refs-at m n e (name ∷ names) =
    ap
      (λ v. elim (as_map v) [
        | some svc ↦ append_refs (service_refs name svc) (services_refs m names)
        | none ↦ services_refs m names
      ])
      (e name)
    ∙ ap
        (λ rest. elim (as_map (at n name)) [
          | some svc ↦ append_refs (service_refs name svc) rest
          | none ↦ rest
        ])
        (services_refs-at m n e names)

volume_devices-at :
    (config config' : Map)
    → at config (codes "volumes") ≡ at config' (codes "volumes")
    → named_volume_devices config ≡ named_volume_devices config'
unfolding named_volume_devices
volume_devices-at config config' v = rw (v, named_volume_devices)

with_mounts-at :
    (config config' : Map) (refs : ComposeRefs)
    → at config (codes "volumes") ≡ at config' (codes "volumes")
    → with_mounts config refs ≡ with_mounts config' refs
unfolding with_mounts
with_mounts-at config config' refs v = rw (volume_devices-at config config' v)

-- Two configs that differ only in the order of their services give the same refs: the messages and
-- their order do not depend on how Go happens to range over the map.
pub extract-perm :
    (config config' svcs svcs' : Map)
    → as_map (at config (codes "services")) ≡ some svcs
    → as_map (at config' (codes "services")) ≡ some svcs'
    → at config (codes "volumes") ≡ at config' (codes "volumes")
    → IsDistinct (keys svcs)
    → Permᴰ svcs svcs'
    → extract_compose_refs config ≡ extract_compose_refs config'
extract-perm config config' svcs svcs' e e' v d p =
    extract-services config svcs e
    ∙ ap (λ names. with_mounts config (services_refs svcs names)) (sort-keys-perm p)
    ∙ ap (with_mounts config)
        (services_refs-at svcs svcs' (at-perm p d) (sort_strings (keys svcs')))
    ∙ with_mounts-at config config' (services_refs svcs' (sort_strings (keys svcs'))) v
    ∙ sym (extract-services config' svcs' e')
