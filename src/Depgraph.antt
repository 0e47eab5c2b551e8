-- ===== src/Depgraph.antt =====
-- internal/depgraph/graph.go, and NormalizeToMap of internal/sync/renderer.go: the graph of a
-- stack's services, networks and volumes, from its decoded compose file.
pub mod Build
pub mod Nodes
pub mod Edges
pub mod Order
pub mod Tests
use wireops.Prelude.{
  ℕ, ◌≡◌, Bool, true, false, not, ◌&&◌, ◌||◌, Option, none, some, List, [], ◌∷◌, ◌++◌, map, any,
  or_else, if◌then◌else◌,
}
use wireops.Go.Text.{Text, codes, text_eq, is_empty, has_prefix, split, split_n, trim, trim_space}
use wireops.Go.Sort.{sort_strings}
use wireops.Go.Value.{
  Value, nil, bool, num, str, arr, obj, Map, items, entries, as_map, as_list, as_string, at, keys,
}
use wireops.Go.Assoc.{put}

abbrev pub kind_service : Text
kind_service = codes "service"

abbrev pub kind_network : Text
kind_network = codes "network"

abbrev pub kind_volume : Text
kind_volume = codes "volume"

abbrev pub edge_depends_on : Text
edge_depends_on = codes "depends_on"

abbrev pub edge_network : Text
edge_network = codes "network"

abbrev pub edge_volume : Text
edge_volume = codes "volume"

-- The fields that the builder fills; status and health come from elsewhere.
pub record Node : Type 0 where
  pub id : Text
  pub kind : Text
  pub image : Text
  pub slug : Text
  pub external : Bool

pub record Edge : Type 0 where
  pub source : Text
  pub target : Text
  pub type_ : Text
  pub label : Text

pub record Graph : Type 0 where
  pub nodes : List Node
  pub edges : List Edge

unfoldable pub service_node_id : Text → Text
service_node_id name = codes "service:" ++ name

unfoldable pub network_node_id : Text → Text
network_node_id name = codes "network:" ++ name

unfoldable pub volume_node_id : Text → Text
volume_node_id name = codes "volume:" ++ name

abbrev pub string_or_empty : Value → Text
string_or_empty v = elim (as_string v) [ none ↦ [] | some s ↦ s ]

-- The keys of a value that is a map, sorted.
abbrev pub keys_of : Option Map → List Text
keys_of none = []
keys_of (some m) = keys m

unfoldable pub sorted_keys : Value → List Text
sorted_keys v = sort_strings (keys_of (as_map v))

-- `NormalizeToMap`: one entry of its list form, `key=value` or `key`.
abbrev pub pair_of : List Text → Map → Map
pair_of [] res = res
pair_of (k ∷ []) res = put res k (str [])
pair_of (k ∷ v ∷ _) res = put res k (str v)

unfoldable pub normalize_list : List Value → Map → Map
normalize_list [] res = res
normalize_list (v ∷ vs) res =
    normalize_list vs (elim (as_string v) [ none ↦ res | some s ↦ pair_of (split_n b'=' s 2) res ])

unfoldable pub normalize_to_map : Value → Map
normalize_to_map v = elim (as_map v) [
  | some m ↦ m
  | none ↦ elim (as_list v) [ none ↦ [] | some vs ↦ normalize_list vs [] ]
]

-- The closure `check`.
unfoldable pub slug_in : Map → Option Text
slug_in meta =
    let slug = string_or_empty (at meta (codes "customization.image.slug")) in
    if is_empty slug then none else some slug

unfoldable pub slug_of_deploy : Option Map → Option Text
slug_of_deploy none = none
slug_of_deploy (some deploy) =
    or_else (slug_in (normalize_to_map (at deploy (codes "labels"))))
      (slug_in (normalize_to_map (at deploy (codes "annotations"))))

unfoldable pub custom_image_slug : Map → Text
custom_image_slug svc =
    elim (or_else (slug_in (normalize_to_map (at svc (codes "labels")))) (
      or_else (slug_in (normalize_to_map (at svc (codes "annotations"))))
        (slug_of_deploy (as_map (at svc (codes "deploy")))))) [ none ↦ [] | some slug ↦ slug ]

unfoldable pub is_external_value : Value → Bool
is_external_value (bool b) = b
is_external_value (obj fs) = true
is_external_value nil = false
is_external_value (num n) = false
is_external_value (str s) = false
is_external_value (arr vs) = false

unfoldable pub is_external : Value → Bool
is_external def = elim (as_map def) [
  | none ↦ false
  | some m ↦ is_external_value (at m (codes "external"))
]

pub record Dependency : Type 0 where
  pub name : Text
  pub condition : Text

-- The strings of a list that are not empty.
unfoldable pub names_in : List Value → List Text
names_in [] = []
names_in (v ∷ vs) =
    let rest = names_in vs in
    let name = string_or_empty v in if is_empty name then rest else name ∷ rest

abbrev pub condition_of : Value → Text
condition_of v = elim (as_map v) [ none ↦ [] | some m ↦ string_or_empty (at m (codes "condition")) ]

unfoldable pub depends_on : Value → List Dependency
depends_on (arr vs) = map (λ n. record { name = n; condition = [] }) (names_in (items vs))
depends_on (obj fs) =
    map (λ n. record { name = n; condition = condition_of (at (entries fs) n) })
      (sort_strings (keys (entries fs)))
depends_on nil = []
depends_on (bool b) = []
depends_on (num n) = []
depends_on (str s) = []

unfoldable pub service_networks : Value → List Text
service_networks (obj fs) = sort_strings (keys (entries fs))
service_networks (arr vs) = names_in (items vs)
service_networks nil = []
service_networks (bool b) = []
service_networks (num n) = []
service_networks (str s) = []

unfoldable pub is_bind_source : Text → Bool
is_bind_source src =
    has_prefix src (codes "/")
    || has_prefix src (codes "./")
    || has_prefix src (codes "../")
    || has_prefix src (codes "~")

-- A source that counts as a named volume.
unfoldable pub named_source : Text → Option Text
named_source source = if is_empty source || is_bind_source source then none else some source

abbrev pub first_of_two : List Text → Option Text
first_of_two [] = none
first_of_two (p ∷ []) = none
first_of_two (p ∷ q ∷ _) = named_source (trim_space p)

-- The source of one entry of `volumes:`, in its short form or its long one.
unfoldable pub volume_of : Value → Option Text
volume_of (str m) = first_of_two (
    split b':'
      (trim (λ c. text_eq (c ∷ []) (codes "\"") || text_eq (c ∷ []) (codes "'")) (trim_space m)))
volume_of (obj fs) =
    if text_eq (string_or_empty (at (entries fs) (codes "type"))) (codes "volume")
    then named_source (string_or_empty (at (entries fs) (codes "source")))
    else none
volume_of nil = none
volume_of (bool b) = none
volume_of (num n) = none
volume_of (arr vs) = none

-- `seen[source] = true`.
unfoldable pub mark : Text → List Text → List Text
mark name seen = if any (text_eq name) seen then seen else name ∷ seen

unfoldable pub seen_volumes : List Value → List Text → List Text
seen_volumes [] seen = seen
seen_volumes (v ∷ vs) seen =
    seen_volumes vs (elim (volume_of v) [ none ↦ seen | some name ↦ mark name seen ])

unfoldable pub named_volumes : Value → List Text
named_volumes v = elim (as_list v) [ none ↦ [] | some vs ↦ sort_strings (seen_volumes vs []) ]
