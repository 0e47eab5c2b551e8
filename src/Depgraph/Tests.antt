-- ===== src/Depgraph/Tests.antt =====
-- The graph of a concrete compose file.
use mathlib.Core.List.{Permᴰ}
use wireops.Prelude.{◌≡◌, refl, [], ◌∷◌, All}
use wireops.Go.Text.{Text, codes}
use wireops.Go.Value.{Value, str, arr, obj, no_items, item, no_fields, field, Map, at}
use wireops.Depgraph.Build.{build_from_compose}
use wireops.Depgraph.Nodes.{IsAnchored}
use wireops.Depgraph.Edges.{build_from_compose-IsAnchored}
use wireops.Depgraph.Order.{IsReordered, same, shuffled, build_from_compose-reordered}

abbrev web : Value
web = obj (field (codes "networks") (arr (item (str (codes "back")) no_items)) no_fields)

abbrev web_first : Map
web_first =
    (codes "services", obj (field (codes "web") web (field (codes "db") (obj no_fields) no_fields)))
    ∷ []

abbrev db_first : Map
db_first =
    (codes "services", obj (field (codes "db") (obj no_fields) (field (codes "web") web no_fields)))
    ∷ []

build_from_compose-IsAnchored_example :
    All (IsAnchored (build_from_compose web_first).nodes) (build_from_compose web_first).edges
build_from_compose-IsAnchored_example = build_from_compose-IsAnchored web_first

no_networks : IsReordered (at web_first (codes "networks")) (at db_first (codes "networks"))
unfolding at wireops.Go.Text.text_eq
no_networks = same

no_volumes : IsReordered (at web_first (codes "volumes")) (at db_first (codes "volumes"))
unfolding at wireops.Go.Text.text_eq
no_volumes = same

swapped : IsReordered (at web_first (codes "services")) (at db_first (codes "services"))
unfolding at wireops.Go.Text.text_eq
swapped = shuffled (Permᴰ.swap refl refl) (refl, (refl, tt))

build_from_compose-reordered_example : build_from_compose web_first ≡ build_from_compose db_first
build_from_compose-reordered_example =
    build_from_compose-reordered web_first db_first no_networks no_volumes swapped
