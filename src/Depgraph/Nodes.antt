-- ===== src/Depgraph/Nodes.antt =====
-- A graph in the making whose edges have their nodes, and what a new node or edge does to it.
use wireops.Prelude.{
  ◌≡◌, refl, ◌⊎◌, inl, inr, Bool, List, [], ◌∷◌, ◌++◌, All, All-append, All-map, In, here,
  In-append_left, In-append_right,
}
use wireops.Go.Text.{Text}
use wireops.Depgraph.{
  Node, Edge, edge_depends_on, kind_network, kind_volume, network_node_id, volume_node_id,
}
use wireops.Depgraph.Build.{Builder, plain_node, add_network, add_volume, add_edge, add_node}

-- A node with the id.
abbrev pub HasNode : Text → List Node → Type 0
HasNode id nodes = (n : Node) × In n nodes × (n.id ≡ id)

-- The source of an edge has a node, and so has its target unless the edge is a `depends_on`.
abbrev pub IsAnchored : List Node → Edge → Type 0
IsAnchored nodes e = HasNode e.source nodes × ((e.type_ ≡ edge_depends_on) ⊎ HasNode e.target nodes)

pub record IsLinked (b : Builder) : Type 0 where
  pub anchored : All (IsAnchored b.nodes) b.edges
  pub networks : All (λ n. HasNode (network_node_id n) b.nodes) b.network_nodes
  pub volumes : All (λ n. HasNode (volume_node_id n) b.nodes) b.volume_nodes

pub HasNode-more :
    {id : Text} {nodes : List Node} (more : List Node)
    → HasNode id nodes
    → HasNode id (nodes ++ more)
HasNode-more more (n, i, e) = (n, In-append_left more i, e)

pub IsAnchored-more :
    {nodes : List Node} (more : List Node) (e : Edge)
    → IsAnchored nodes e
    → IsAnchored (nodes ++ more) e
IsAnchored-more more e (s, inl t) = (HasNode-more more s, inl t)
IsAnchored-more more e (s, inr t) = (HasNode-more more s, inr (HasNode-more more t))

pub HasNode-new : (nodes : List Node) (n : Node) → HasNode n.id (nodes ++ (n ∷ []))
HasNode-new nodes n = (n, In-append_right nodes here, refl)

pub IsLinked-node : (n : Node) (b : Builder) → IsLinked b → IsLinked (add_node n b)
unfolding add_node
IsLinked-node n b l = record {
  anchored = All-map b.edges (IsAnchored-more (n ∷ [])) l.anchored;
  networks = All-map b.network_nodes (λ x h. HasNode-more (n ∷ []) h) l.networks;
  volumes = All-map b.volume_nodes (λ x h. HasNode-more (n ∷ []) h) l.volumes;
}

pub IsLinked-network :
    (name : Text) (external : Bool) (b : Builder)
    → IsLinked b
    → IsLinked (add_network name external b)
unfolding add_network
IsLinked-network name external b l =
    let n = plain_node (network_node_id name) kind_network external in
    record {
      anchored = All-map b.edges (IsAnchored-more (n ∷ [])) l.anchored;
      networks = (
        HasNode-new b.nodes n,
        All-map b.network_nodes (λ x h. HasNode-more (n ∷ []) h) l.networks,
      );
      volumes = All-map b.volume_nodes (λ x h. HasNode-more (n ∷ []) h) l.volumes;
    }

pub IsLinked-volume :
    (name : Text) (external : Bool) (b : Builder)
    → IsLinked b
    → IsLinked (add_volume name external b)
unfolding add_volume
IsLinked-volume name external b l =
    let n = plain_node (volume_node_id name) kind_volume external in
    record {
      anchored = All-map b.edges (IsAnchored-more (n ∷ [])) l.anchored;
      networks = All-map b.network_nodes (λ x h. HasNode-more (n ∷ []) h) l.networks;
      volumes = (
        HasNode-new b.nodes n,
        All-map b.volume_nodes (λ x h. HasNode-more (n ∷ []) h) l.volumes,
      );
    }

pub IsLinked-edge :
    (e : Edge) (b : Builder) → IsAnchored b.nodes e → IsLinked b → IsLinked (add_edge e b)
unfolding add_edge
IsLinked-edge e b a l = record {
  anchored = All-append (IsAnchored b.nodes) b.edges (e ∷ []) l.anchored (a, tt);
  networks = l.networks;
  volumes = l.volumes;
}
