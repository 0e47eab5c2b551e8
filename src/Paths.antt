-- ===== src/Paths.antt =====
-- internal/safepath/safepath.go: which paths of users and repositories are taken. An error names the
-- path; OpenRoot, which resolves symbolic links on the disk, is left out.
pub mod Inside
pub mod Tests
use wireops.Prelude.{
  ℕ, ◌≡◌, refl, Bool, true, false, ◌&&◌, ◌||◌, not, Option, none, some, List, [], ◌∷◌, ◌++◌, any,
  ◌==◌, if◌then◌else◌,
}
use wireops.Go.Text.{Text, codes, text_eq, is_empty, has_prefix, contains_rune, to_lower}
use wireops.Go.Replace.{contains}
use wireops.Go.Path.{slash, clean}

pub data PathError : Type 0 where
  traversal : Text → PathError
  not_relative : Text → PathError
  not_filename : Text → PathError
  bad_extension : Text → PathError
  empty_path : PathError
  unclean : Text → PathError
  not_absolute : Text → PathError
  hidden_name : Text → PathError
  escapes : Text → PathError

abbrev pub dot : Text
dot = codes "."

abbrev pub dot_dot : Text
dot_dot = codes ".."

-- `filepath.IsAbs` on Unix.
unfoldable pub is_abs : Text → Bool
is_abs p = has_prefix p slash

-- `filepath.Ext`: what follows the last dot of the last element, with the dot.
unfoldable pub ext : Text → Text
ext [] = []
ext (c ∷ s) =
    let rest = ext s in
    if contains_rune s b'/' || not (is_empty rest) then rest else if c == b'.' then c ∷ s else []

-- `strings.ContainsAny(s, "/\\")`.
abbrev pub has_separator : Text → Bool
has_separator s = any (λ c. c == b'/' || c == b'\\') s

unfoldable pub validate_compose_path : Text → Option PathError
validate_compose_path p =
    if is_empty p || text_eq p dot
    then none
    else if contains (clean p) dot_dot
    then some (traversal p)
    else if is_abs (clean p)
    then some (not_relative p)
    else none

unfoldable pub validate_compose_file : Text → Option PathError
validate_compose_file f =
    if is_empty f
    then none
    else if contains (clean f) dot_dot
    then some (traversal f)
    else if is_abs (clean f)
    then some (not_relative f)
    else if contains_rune (clean f) b'/'
    then some (not_filename f)
    else if not (text_eq (to_lower (ext (clean f))) (codes ".yml"))
        && not (text_eq (to_lower (ext (clean f))) (codes ".yaml"))
    then some (bad_extension f)
    else none

unfoldable pub validate_backup_key : Text → Option PathError
validate_backup_key key =
    if is_empty key
    then some empty_path
    else if not (text_eq (clean key) key)
    then some (unclean key)
    else if has_separator (clean key)
    then some (not_filename key)
    else if text_eq (clean key) dot || text_eq (clean key) dot_dot || contains (clean key) dot_dot
    then some (traversal key)
    else if not (text_eq (to_lower (ext (clean key))) (codes ".zip"))
    then some (bad_extension key)
    else none

unfoldable pub validate_host_path : Text → Option PathError
validate_host_path p =
    if is_empty p
    then some empty_path
    else if contains (clean p) dot_dot
    then some (traversal p)
    else if not (is_abs (clean p))
    then some (not_absolute p)
    else none

unfoldable pub validate_config_name : Text → Option PathError
validate_config_name name =
    if is_empty name
    then some empty_path
    else if has_separator name
    then some (not_filename name)
    else if text_eq name dot || text_eq name dot_dot || has_prefix name dot
    then some (hidden_name name)
    else none

unfoldable pub validate_container_mount_path : Text → Option PathError
validate_container_mount_path target =
    if is_empty target
    then some empty_path
    else if not (is_abs target)
    then some (not_absolute target)
    else if not (text_eq (clean target) target) || text_eq (clean target) slash
    then some (unclean target)
    else none

pub data Cleaned : Type 0 where
  path : Text → Cleaned
  refused : PathError → Cleaned

unfoldable pub clean_relative_path : Text → Cleaned
clean_relative_path p =
    if is_empty p
    then refused empty_path
    else if has_prefix (clean p) dot_dot || is_abs (clean p)
    then refused (escapes p)
    else path (clean p)
