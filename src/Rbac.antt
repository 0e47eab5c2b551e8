-- ===== src/Rbac.antt =====
-- internal/rbac/rbac.go: roles, capabilities, and the gates of the routes.
pub mod Roles
pub mod Grants
pub mod Gates
pub mod Tests
use wireops.Prelude.{
  ℕ, ◌≡◌, Bool, true, false, ◌&&◌, Option, none, some, List, [], ◌∷◌, leb, ltb, if◌then◌else◌, keep,
}
use wireops.Go.Text.{Text, codes, text_eq, trim_space, to_lower}
use wireops.Go.Sort.{sort_strings}
use wireops.Go.Value.{keys, lookup}

abbrev pub role_monitoring : Text
role_monitoring = codes "monitoring"

abbrev pub role_viewer : Text
role_viewer = codes "viewer"

abbrev pub role_operator : Text
role_operator = codes "operator"

abbrev pub role_admin : Text
role_admin = codes "admin"

abbrev pub actor_user : Text
actor_user = codes "user"

abbrev pub actor_agent : Text
actor_agent = codes "agent"

abbrev pub Capability : Type 0
Capability = Text

abbrev pub minimum_role_by_capability : List (Capability × Text)
minimum_role_by_capability =
    (codes "view_metrics", role_monitoring)
    ∷ (codes "view_stacks", role_viewer)
    ∷ (codes "view_jobs", role_viewer)
    ∷ (codes "view_logs", role_viewer)
    ∷ (codes "operate_stacks", role_operator)
    ∷ (codes "manage_repositories", role_operator)
    ∷ (codes "view_workers", role_viewer)
    ∷ (codes "manage_workers", role_operator)
    ∷ (codes "manage_jobs", role_operator)
    ∷ (codes "manage_settings", role_admin)
    ∷ (codes "manage_users", role_admin)
    ∷ (codes "manage_security", role_admin)
    ∷ (codes "view_audit_logs", role_admin)
    ∷ (codes "use_terminal", role_operator)
    ∷ (codes "view_worker_policy", role_operator)
    ∷ []

-- The `switch` of `NormalizeRole`, on the role in small letters without spaces around it.
unfoldable pub normalized : Text → Text
normalized r =
    if text_eq r role_monitoring
    then role_monitoring
    else if text_eq r role_viewer
    then role_viewer
    else if text_eq r role_operator
    then role_operator
    else if text_eq r role_admin
    then role_admin
    else []

unfoldable pub normalize_role : Text → Text
normalize_role role = normalized (to_lower (trim_space role))

unfoldable pub must_normalize_role : Text → Text
must_normalize_role role = elim (normalize_role role) [ [] ↦ role_viewer | c ∷ r ↦ c ∷ r ]

-- The `switch` of `RoleRank`, on a normalized role.
unfoldable pub rank_of : Text → ℕ
rank_of r =
    if text_eq r role_monitoring
    then 1
    else if text_eq r role_viewer
    then 2
    else if text_eq r role_operator
    then 3
    else if text_eq r role_admin
    then 4
    else 0

unfoldable pub role_rank : Text → ℕ
role_rank role = rank_of (normalize_role role)

unfoldable pub at_least : Text → Text → Bool
at_least role minimum = leb (role_rank minimum) (role_rank role)

-- The body of the loop of `HighestRole`: the best role so far, against the next one.
unfoldable pub better_role : Text → Text → Text
better_role best role =
    if ltb (role_rank best) (role_rank (normalize_role role)) then normalize_role role else best

unfoldable pub highest_from : Text → List Text → Text
highest_from best [] = best
highest_from best (role ∷ roles) = highest_from (better_role best role) roles

unfoldable pub highest_role : List Text → Text
highest_role roles = highest_from [] roles

unfoldable pub minimum_role : Capability → Text
minimum_role capability = elim (lookup minimum_role_by_capability capability) [
  | some role ↦ role
  | none ↦ role_admin
]

unfoldable pub all_capabilities : List Capability
all_capabilities = sort_strings (keys minimum_role_by_capability)

unfoldable pub capabilities_for : Text → List Capability
capabilities_for role = keep (λ c. at_least role (minimum_role c)) all_capabilities

-- `e.Auth`: what the gates read of the record; `collection` is `none` where `Collection()` is nil.
pub record Auth : Type 0 where
  pub id : Text
  pub is_superuser : Bool
  pub collection : Option Text
  pub disabled : Bool
  pub role : Text

-- `e`: `none` is the nil event, `some none` an event without authentication.
abbrev pub Event : Type 0
Event = Option (Option Auth)

unfoldable pub in_collection : Auth → Text → Bool
in_collection a name = elim a.collection [ none ↦ false | some c ↦ text_eq c name ]

-- The role, the type of the actor and its id.
unfoldable pub resolve_auth : Auth → Text × Text × Text
resolve_auth a =
    if a.is_superuser
    then (role_admin, actor_user, a.id)
    else if in_collection a (codes "users") && a.disabled
    then ([], actor_user, a.id)
    else (
      normalize_role a.role,
      if in_collection a (codes "service_accounts") then actor_agent else actor_user,
      a.id,
    )

unfoldable pub resolve_actor : Event → Text × Text × Text
resolve_actor none = ([], [], [])
resolve_actor (some none) = ([], [], [])
resolve_actor (some (some a)) = resolve_auth a

unfoldable pub can : Event → Capability → Bool
can e capability = at_least (resolve_actor e).0 (minimum_role capability)

-- What a gate does with a request: it goes on, answers nothing, or answers with an error.
pub data Outcome : Type 0 where
  next : Outcome
  nothing : Outcome
  unauthorized : Outcome
  forbidden : Capability → Text → Text → Outcome
  not_superuser : Outcome

unfoldable pub refuse : Event → Outcome → Outcome
refuse none reply = nothing
refuse (some none) reply = unauthorized
refuse (some (some a)) reply = reply

unfoldable pub require : Capability → Event → Outcome
require capability e =
    if can e capability
    then next
    else refuse e (forbidden capability (minimum_role capability) (resolve_actor e).0)

unfoldable pub require_superuser : Event → Outcome
require_superuser none = nothing
require_superuser (some none) = unauthorized
require_superuser (some (some a)) = if a.is_superuser then next else not_superuser
