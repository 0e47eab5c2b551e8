-- ===== src/Depgraph/Order.antt =====
-- The graph does not depend on the order in which Go's `range` visits the maps of the compose file.
use mathlib.Core.List.{Permᴰ}
use wireops.Prelude.{◌≡◌, refl, ap, ◌∙◌, List, [], ◌∷◌}
use wireops.Go.Text.{Text, codes}
use wireops.Go.Value.{Value, obj, Fields, Map, entries, as_map, at, keys}
use wireops.Go.Value.Order.{IsDistinct, at-perm, sort-keys-perm}
use wireops.Depgraph.{sorted_keys, is_external}
use wireops.Depgraph.Build.{
  Builder, definition, add_network, add_volume, declare_networks, declare_volumes, add_service,
  add_services, finished, build_from_compose,
}

-- Two visits of the same value: the same one, or a map with its entries in another order.
pub data IsReordered : Value → Value → Type 0 where
  same : {v : Value} → IsReordered v v
  shuffled :
      {fs gs : Fields}
      → Permᴰ (entries fs) (entries gs)
      → IsDistinct (keys (entries fs))
      → IsReordered (obj fs) (obj gs)

sorted_keys-reordered : {v w : Value} → IsReordered v w → sorted_keys v ≡ sorted_keys w
unfolding sorted_keys
sorted_keys-reordered same = refl
sorted_keys-reordered (shuffled p d) = sort-keys-perm p

definition-reordered :
    {v w : Value} → IsReordered v w → (n : Text) → definition v n ≡ definition w n
definition-reordered same n = refl
definition-reordered (shuffled p d) n = at-perm p d n

declare_networks-reordered :
    {v w : Value}
    → IsReordered v w
    → (ns : List Text) (b : Builder) → declare_networks v ns b ≡ declare_networks w ns b
unfolding declare_networks
declare_networks-reordered r [] b = refl
declare_networks-reordered {v} {w} r (n ∷ ns) b =
    declare_networks-reordered r ns _
    ∙ ap (λ d. declare_networks w ns (add_network n (is_external d) b)) (definition-reordered r n)

declare_volumes-reordered :
    {v w : Value}
    → IsReordered v w
    → (ns : List Text) (b : Builder) → declare_volumes v ns b ≡ declare_volumes w ns b
unfolding declare_volumes
declare_volumes-reordered r [] b = refl
declare_volumes-reordered {v} {w} r (n ∷ ns) b =
    declare_volumes-reordered r ns _
    ∙ ap (λ d. declare_volumes w ns (add_volume n (is_external d) b)) (definition-reordered r n)

add_services-reordered :
    {v w : Value}
    → IsReordered v w
    → (ns : List Text) (b : Builder) → add_services v ns b ≡ add_services w ns b
unfolding add_services
add_services-reordered r [] b = refl
add_services-reordered {v} {w} r (n ∷ ns) b =
    add_services-reordered r ns _
    ∙ ap (λ d. add_services w ns (add_service n (as_map d) b)) (definition-reordered r n)

declare_networks-stage :
    {v w : Value} {b c : Builder}
    → IsReordered v w
    → b ≡ c
    → declare_networks v (sorted_keys v) b ≡ declare_networks w (sorted_keys w) c
declare_networks-stage {v} {w} {b} r e =
    declare_networks-reordered r (sorted_keys v) b
    ∙ ap (λ ks. declare_networks w ks b) (sorted_keys-reordered r)
    ∙ ap (declare_networks w (sorted_keys w)) e

declare_volumes-stage :
    {v w : Value} {b c : Builder}
    → IsReordered v w
    → b ≡ c
    → declare_volumes v (sorted_keys v) b ≡ declare_volumes w (sorted_keys w) c
declare_volumes-stage {v} {w} {b} r e =
    declare_volumes-reordered r (sorted_keys v) b
    ∙ ap (λ ks. declare_volumes w ks b) (sorted_keys-reordered r)
    ∙ ap (declare_volumes w (sorted_keys w)) e

add_services-stage :
    {v w : Value} {b c : Builder}
    → IsReordered v w
    → b ≡ c
    → add_services v (sorted_keys v) b ≡ add_services w (sorted_keys w) c
add_services-stage {v} {w} {b} r e =
    add_services-reordered r (sorted_keys v) b
    ∙ ap (λ ks. add_services w ks b) (sorted_keys-reordered r)
    ∙ ap (add_services w (sorted_keys w)) e

-- Two decoded compose files whose services, networks and volumes are the same up to the order of the
-- entries have the same graph, node for node and edge for edge.
pub build_from_compose-reordered :
    (raw other : Map)
    → IsReordered (at raw (codes "networks")) (at other (codes "networks"))
    → IsReordered (at raw (codes "volumes")) (at other (codes "volumes"))
    → IsReordered (at raw (codes "services")) (at other (codes "services"))
    → build_from_compose raw ≡ build_from_compose other
unfolding build_from_compose
build_from_compose-reordered raw other n v s =
    ap finished (add_services-stage s (declare_volumes-stage v (declare_networks-stage n refl)))
