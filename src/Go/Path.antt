-- ===== src/Go/Path.antt =====
-- `filepath.Clean` on Unix: the shortest path that names the same, by lexical processing alone.
pub mod Laws
pub mod Climbing
pub mod Joined
use mathlib.Core.List.{reverse, foldl}
use wireops.Prelude.{Bool, true, false, List, [], ◌∷◌, ◌++◌, if◌then◌else◌, ◌≡◌, refl, ◌||◌}
use wireops.Go.Text.{Text, codes, text_eq, has_prefix, split, is_empty}

abbrev pub slash : Text
slash = codes "/"

-- One component against the stack of those kept, the last on top: an empty one and "." vanish,
-- ".." takes its parent away, or stays where a relative path has none.
above : Bool → List Text → Text → List Text
above true [] c = []
above false [] c = c ∷ []
above rooted (top ∷ kept) c = if text_eq top (codes "..") then c ∷ top ∷ kept else kept

push_component : Bool → List Text → Text → List Text
push_component rooted kept c =
    if is_empty c || text_eq c (codes ".")
    then kept
    else if text_eq c (codes "..")
    then above rooted kept c
    else c ∷ kept

abbrev pub join_slash : List Text → Text
join_slash [] = []
join_slash (c ∷ []) = c
join_slash (c ∷ d ∷ cs) = c ++ (slash ++ join_slash (d ∷ cs))

pub components : Bool → Text → List Text
unfolding push_component above
components rooted path = reverse (foldl (push_component rooted) [] (split b'/' path))

pub render : Bool → List Text → Text
render true cs = slash ++ join_slash cs
render false [] = codes "."
render false (c ∷ cs) = join_slash (c ∷ cs)

unfoldable pub clean : Text → Text
unfolding components render has_prefix split text_eq
clean path = let rooted = has_prefix path slash in render rooted (components rooted path)

clean_up : clean (codes "/srv/./app//../data/") ≡ codes "/srv/data"
unfolding clean
clean_up = refl

clean_empty : clean [] ≡ codes "."
unfolding clean
clean_empty = refl

clean_relative : clean (codes "./../a/..") ≡ codes ".."
unfolding clean
clean_relative = refl

pub clean_root : clean slash ≡ slash
unfolding clean
clean_root = refl
