-- ===== src/Depgraph/Build.antt =====
-- `BuildFromCompose` of internal/depgraph/graph.go, on the map that `yaml.Unmarshal` yields.
use wireops.Prelude.{Bool, false, Option, none, some, List, [], ◌∷◌, ◌++◌, any, if◌then◌else◌}
use wireops.Go.Text.{Text, codes, text_eq}
use wireops.Go.Value.{Value, Map, as_map, at}
use wireops.Depgraph.{
  Node, Edge, Graph, Dependency, kind_service, kind_network, kind_volume, edge_depends_on,
  edge_network, edge_volume, service_node_id, network_node_id, volume_node_id, string_or_empty,
  sorted_keys, custom_image_slug, is_external, depends_on, service_networks, named_volumes,
}

-- The graph so far, and the names that have a node.
pub record Builder : Type 0 where
  pub nodes : List Node
  pub edges : List Edge
  pub network_nodes : List Text
  pub volume_nodes : List Text

abbrev pub plain_node : Text → Text → Bool → Node
plain_node id kind external = record {
  id = id;
  kind = kind;
  image = [];
  slug = [];
  external = external;
}

abbrev pub edge : Text → Text → Text → Text → Edge
edge source target type_ label = record {
  source = source;
  target = target;
  type_ = type_;
  label = label;
}

abbrev pub member : Text → List Text → Bool
member name names = any (text_eq name) names

-- `def := raw[key].(map[string]interface{})[name]`.
abbrev pub definition : Value → Text → Value
definition v name = elim (as_map v) [ none ↦ Value.nil | some m ↦ at m name ]

unfoldable pub add_network : Text → Bool → Builder → Builder
add_network name external b = record b {
  nodes = b.nodes ++ (plain_node (network_node_id name) kind_network external ∷ []);
  network_nodes = name ∷ b.network_nodes;
}

unfoldable pub add_volume : Text → Bool → Builder → Builder
add_volume name external b = record b {
  nodes = b.nodes ++ (plain_node (volume_node_id name) kind_volume external ∷ []);
  volume_nodes = name ∷ b.volume_nodes;
}

unfoldable pub declare_networks : Value → List Text → Builder → Builder
declare_networks v [] b = b
declare_networks v (n ∷ ns) b =
    declare_networks v ns (add_network n (is_external (definition v n)) b)

unfoldable pub declare_volumes : Value → List Text → Builder → Builder
declare_volumes v [] b = b
declare_volumes v (n ∷ ns) b = declare_volumes v ns (add_volume n (is_external (definition v n)) b)

unfoldable pub add_edge : Edge → Builder → Builder
add_edge e b = record b { edges = b.edges ++ (e ∷ []) }

unfoldable pub link_dependencies : Text → List Dependency → Builder → Builder
link_dependencies name [] b = b
link_dependencies name (d ∷ ds) b =
    link_dependencies name ds (
      add_edge (edge (service_node_id name) (service_node_id d.name) edge_depends_on d.condition) b)

-- A network that was not declared gets a node.
unfoldable pub need_network : Text → Builder → Builder
need_network n b = if member n b.network_nodes then b else add_network n false b

unfoldable pub need_volume : Text → Builder → Builder
need_volume n b = if member n b.volume_nodes then b else add_volume n false b

unfoldable pub link_networks : Text → List Text → Builder → Builder
link_networks name [] b = b
link_networks name (n ∷ ns) b =
    link_networks name ns (
      add_edge (edge (service_node_id name) (network_node_id n) edge_network []) (need_network n b))

unfoldable pub link_volumes : Text → List Text → Builder → Builder
link_volumes name [] b = b
link_volumes name (n ∷ ns) b =
    link_volumes name ns
      (add_edge (edge (service_node_id name) (volume_node_id n) edge_volume []) (need_volume n b))

unfoldable pub add_node : Node → Builder → Builder
add_node n b = record b { nodes = b.nodes ++ (n ∷ []) }

abbrev pub service_node : Text → Map → Node
service_node name svc = record {
  id = service_node_id name;
  kind = kind_service;
  image = string_or_empty (at svc (codes "image"));
  slug = custom_image_slug svc;
  external = false;
}

-- The body of the loop over the services.
unfoldable pub add_service : Text → Option Map → Builder → Builder
add_service name none b = b
add_service name (some svc) b = link_volumes name (named_volumes (at svc (codes "volumes"))) (
    link_networks name (service_networks (at svc (codes "networks"))) (
      link_dependencies name (depends_on (at svc (codes "depends_on")))
        (add_node (service_node name svc) b)))

unfoldable pub add_services : Value → List Text → Builder → Builder
add_services v [] b = b
add_services v (n ∷ ns) b = add_services v ns (add_service n (as_map (definition v n)) b)

abbrev pub empty_builder : Builder
empty_builder = record { nodes = []; edges = []; network_nodes = []; volume_nodes = [] }

abbrev pub finished : Builder → Graph
finished b = record { nodes = b.nodes; edges = b.edges }

unfoldable pub build_from_compose : Map → Graph
build_from_compose raw =
    let networks = at raw (codes "networks") in
    let volumes = at raw (codes "volumes") in
    let services = at raw (codes "services") in
    finished (
      add_services services (sorted_keys services) (
        declare_volumes volumes (sorted_keys volumes)
          (declare_networks networks (sorted_keys networks) empty_builder)))
