-- ===== src/Depgraph/Edges.antt =====
-- No edge of the graph hangs in the air.
use mathlib.Core.Path.{subst}
use wireops.Prelude.{
  ◌≡◌, refl, sym, inl, inr, true, false, Option, none, some, List, [], ◌∷◌, find_any, Bool-cases,
  All, All-In,
}
use wireops.Go.Text.{Text, text_eq, text_eq_iff}
use wireops.Go.Value.{Value, Map, as_map}
use wireops.Depgraph.{Dependency, service_node_id, network_node_id, volume_node_id}
use wireops.Depgraph.Build.{
  Builder, member, definition, add_network, add_volume, declare_networks, declare_volumes, add_edge,
  link_dependencies, need_network, need_volume, link_networks, link_volumes, add_node, service_node,
  add_service, add_services, build_from_compose,
}
use wireops.Depgraph.Nodes.{
  HasNode, IsAnchored, IsLinked, HasNode-more, HasNode-new, IsLinked-node, IsLinked-network,
  IsLinked-volume, IsLinked-edge,
}

HasNode-network :
    (n name : Text) (b : Builder) → HasNode name b.nodes → HasNode name (need_network n b).nodes
unfolding need_network add_network
HasNode-network n name b h = elim (Bool-cases (member n b.network_nodes)) [
  | inl t ↦ rw (t, need_network) h
  | inr f ↦ rw (f, need_network) (HasNode-more _ h)
]

HasNode-volume :
    (n name : Text) (b : Builder) → HasNode name b.nodes → HasNode name (need_volume n b).nodes
unfolding need_volume add_volume
HasNode-volume n name b h = elim (Bool-cases (member n b.volume_nodes)) [
  | inl t ↦ rw (t, need_volume) h
  | inr f ↦ rw (f, need_volume) (HasNode-more _ h)
]

member-All :
    (P : Text → Type 0) (n : Text) (names : List Text) → All P names → member n names ≡ true → P n
member-All P n names h e =
    let (m, i, q) = find_any (text_eq n) names e in
    subst P (sym ((text_eq_iff n m).0 q)) (All-In P h i)

-- After `need_network` the network has a node, and `need_volume` does the same for a volume.
need_network-IsLinked :
    (n : Text) (b : Builder)
    → IsLinked b
    → IsLinked (need_network n b) × HasNode (network_node_id n) (need_network n b).nodes
unfolding need_network add_network
need_network-IsLinked n b l = elim (Bool-cases (member n b.network_nodes)) [
  | inl t ↦
      rw (t, need_network)
        (l, member-All (λ m. HasNode (network_node_id m) b.nodes) n b.network_nodes l.networks t)
  | inr f ↦ rw (f, need_network) (IsLinked-network n false b l, HasNode-new b.nodes _)
]

need_volume-IsLinked :
    (n : Text) (b : Builder)
    → IsLinked b
    → IsLinked (need_volume n b) × HasNode (volume_node_id n) (need_volume n b).nodes
unfolding need_volume add_volume
need_volume-IsLinked n b l = elim (Bool-cases (member n b.volume_nodes)) [
  | inl t ↦
      rw (t, need_volume)
        (l, member-All (λ m. HasNode (volume_node_id m) b.nodes) n b.volume_nodes l.volumes t)
  | inr f ↦ rw (f, need_volume) (IsLinked-volume n false b l, HasNode-new b.nodes _)
]

module _ (name : Text) where
  -- A linked graph in which the service has its node.
  abbrev IsLinkedHere : Builder → Type 0
  IsLinkedHere b = IsLinked b × HasNode (service_node_id name) b.nodes

  link_dependencies-IsLinked :
      (ds : List Dependency) (b : Builder)
      → IsLinkedHere b
      → IsLinkedHere (link_dependencies name ds b)
  unfolding link_dependencies add_edge
  link_dependencies-IsLinked [] b l = l
  link_dependencies-IsLinked (d ∷ ds) b (l, h) =
      link_dependencies-IsLinked ds _ (IsLinked-edge _ b (h, inl refl) l, h)

  link_networks-IsLinked :
      (ns : List Text) (b : Builder) → IsLinkedHere b → IsLinkedHere (link_networks name ns b)
  unfolding link_networks add_edge
  link_networks-IsLinked [] b l = l
  link_networks-IsLinked (n ∷ ns) b (l, h) =
      let (k, t) = need_network-IsLinked n b l in
      let s = HasNode-network n (service_node_id name) b h in
      link_networks-IsLinked ns _ (IsLinked-edge _ (need_network n b) (s, inr t) k, s)

  link_volumes-IsLinked :
      (ns : List Text) (b : Builder) → IsLinkedHere b → IsLinkedHere (link_volumes name ns b)
  unfolding link_volumes add_edge
  link_volumes-IsLinked [] b l = l
  link_volumes-IsLinked (n ∷ ns) b (l, h) =
      let (k, t) = need_volume-IsLinked n b l in
      let s = HasNode-volume n (service_node_id name) b h in
      link_volumes-IsLinked ns _ (IsLinked-edge _ (need_volume n b) (s, inr t) k, s)

has_service :
    (name : Text) (svc : Map) (b : Builder)
    → HasNode (service_node_id name) (add_node (service_node name svc) b).nodes
unfolding add_node
has_service name svc b = HasNode-new b.nodes (service_node name svc)

add_service-IsLinked :
    (name : Text) (svc : Option Map) (b : Builder) → IsLinked b → IsLinked (add_service name svc b)
unfolding add_service
add_service-IsLinked name none b l = l
add_service-IsLinked name (some svc) b l =
    (link_volumes-IsLinked name _ _ (
      link_networks-IsLinked name _ _ (
        link_dependencies-IsLinked name _ _
          (IsLinked-node (service_node name svc) b l, has_service name svc b)))).0

add_services-IsLinked :
    (v : Value) (ns : List Text) (b : Builder) → IsLinked b → IsLinked (add_services v ns b)
unfolding add_services
add_services-IsLinked v [] b l = l
add_services-IsLinked v (n ∷ ns) b l =
    add_services-IsLinked v ns _ (add_service-IsLinked n (as_map (definition v n)) b l)

declare_networks-IsLinked :
    (v : Value) (ns : List Text) (b : Builder) → IsLinked b → IsLinked (declare_networks v ns b)
unfolding declare_networks
declare_networks-IsLinked v [] b l = l
declare_networks-IsLinked v (n ∷ ns) b l =
    declare_networks-IsLinked v ns _ (IsLinked-network n _ b l)

declare_volumes-IsLinked :
    (v : Value) (ns : List Text) (b : Builder) → IsLinked b → IsLinked (declare_volumes v ns b)
unfolding declare_volumes
declare_volumes-IsLinked v [] b l = l
declare_volumes-IsLinked v (n ∷ ns) b l = declare_volumes-IsLinked v ns _ (IsLinked-volume n _ b l)

-- Every edge of a graph that BuildFromCompose builds starts at a node of it, and every network and
-- volume edge ends at one; only the target of a depends_on edge may be missing.
pub build_from_compose-IsAnchored :
    (raw : Map) → All (IsAnchored (build_from_compose raw).nodes) (build_from_compose raw).edges
unfolding build_from_compose
build_from_compose-IsAnchored raw =
    (add_services-IsLinked _ _ _ (
      declare_volumes-IsLinked _ _ _ (
        declare_networks-IsLinked _ _ _
          (record { anchored = tt; networks = tt; volumes = tt })))).anchored
