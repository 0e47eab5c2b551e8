-- ===== src/Rbac/Gates.antt =====
-- The gates `Require` and `RequireSuperuser`: who passes, and what the others are answered.
use wireops.Prelude.{
  ◌≤◌, ◌≡◌, refl, ap, sym, ◌∙◌, ◌↔◌, ◌⊎◌, inl, inr, true, false, ◌&&◌, none, some, [], arith,
  Bool-cases,
}
use wireops.Go.Text.{Text, codes}
use wireops.Rbac.{
  Capability, Auth, Event, next, nothing, unauthorized, forbidden, role_admin, role_rank, rank_of,
  at_least, minimum_role, in_collection, resolve_auth, resolve_actor, can, refuse, require,
  require_superuser,
}
use wireops.Rbac.Roles.{ranks, role_rank-normalize_role}
use wireops.Rbac.Grants.{minimum_role-pos}

-- Whether a record's own role counts: a disabled user has none.
abbrev pub IsActive : Auth → Type 0
IsActive a = (in_collection a (codes "users") && a.disabled) ≡ false

-- Whom a capability is granted to.
abbrev pub IsGranted : Capability → Auth → Type 0
IsGranted c a = (a.is_superuser ≡ true) ⊎ (IsActive a × (at_least a.role (minimum_role c) ≡ true))

role_rank-admin_max : (role : Text) → role_rank role ≤ role_rank role_admin
unfolding role_rank rank_of
role_rank-admin_max role = ground (arith, ranks)

superuser-at_least :
    (c : Capability) (a : Auth)
    → a.is_superuser ≡ true
    → at_least (resolve_auth a).0 (minimum_role c) ≡ true
unfolding resolve_auth at_least
superuser-at_least c a e = ground (arith, e, role_rank-admin_max (minimum_role c))

active-at_least :
    (c : Capability) (a : Auth)
    → a.is_superuser ≡ false
    → IsActive a
    → at_least (resolve_auth a).0 (minimum_role c) ≡ at_least a.role (minimum_role c)
unfolding resolve_auth at_least
active-at_least c a e f = ground (arith, e, f, role_rank-normalize_role a.role)

disabled-at_least :
    (c : Capability) (a : Auth)
    → a.is_superuser ≡ false
    → (in_collection a (codes "users") && a.disabled) ≡ true
    → at_least (resolve_auth a).0 (minimum_role c) ≡ false
unfolding resolve_auth at_least
disabled-at_least c a e f = ground (arith, e, f, minimum_role-pos c, ranks.0)

IsGranted-iff : (c : Capability) (a : Auth) → (can (some (some a)) c ≡ true) ↔ IsGranted c a
unfolding can resolve_actor
IsGranted-iff c a = (to, from)
  where
    to : can (some (some a)) c ≡ true → IsGranted c a
    to h = elim (Bool-cases a.is_superuser) [
      | inl e ↦ inl e
      | inr e ↦ elim (Bool-cases (in_collection a (codes "users") && a.disabled)) [
        | inl f ↦ cc (h, disabled-at_least c a e f)
        | inr f ↦ inr (f, sym (active-at_least c a e f) ∙ h)
      ]
    ]

    from : IsGranted c a → can (some (some a)) c ≡ true
    from (inl e) = superuser-at_least c a e
    from (inr (f, g)) = elim (Bool-cases a.is_superuser) [
      | inl e ↦ superuser-at_least c a e
      | inr e ↦ active-at_least c a e f ∙ g
    ]

anonymous-refused : (c : Capability) → at_least [] (minimum_role c) ≡ false
unfolding at_least
anonymous-refused c = ground (arith, minimum_role-pos c, ranks.0)

require-none : (c : Capability) → require c none ≡ nothing
unfolding require can resolve_actor refuse
require-none c = rw (anonymous-refused c) refl

require-anonymous : (c : Capability) → require c (some none) ≡ unauthorized
unfolding require can resolve_actor refuse
require-anonymous c = rw (anonymous-refused c) refl

require-open : (c : Capability) (e : Event) → can e c ≡ true → require c e ≡ next
unfolding require
require-open c e h = rw h refl

require-shut :
    (c : Capability) (a : Auth)
    → can (some (some a)) c ≡ false
    → require c (some (some a)) ≡ forbidden c (minimum_role c) (resolve_actor (some (some a))).0
unfolding require refuse
require-shut c a h = rw h refl

-- A request passes the gate of a capability exactly if it is authenticated by a superuser, or by a
-- record that is not a disabled user and whose role reaches the capability's least role.
pub require-next_iff :
    (c : Capability) (e : Event)
    → (require c e ≡ next) ↔ ((a : Auth) × (e ≡ some (some a)) × IsGranted c a)
require-next_iff c none = (λ h. cc (h, require-none c), λ (a, e, g). cc e)
require-next_iff c (some none) = (λ h. cc (h, require-anonymous c), λ (a, e, g). cc e)
require-next_iff c (some (some a)) = (
  λ h. elim (Bool-cases (can (some (some a)) c)) [
    | inl t ↦ (a, refl, (IsGranted-iff c a).0 t)
    | inr f ↦ cc (h, require-shut c a f)
  ],
  λ (b, e, g). require-open c _ (ap (λ x. can x c) e ∙ (IsGranted-iff c b).1 g),
)

-- Who does not pass the gate of a capability is answered by what is missing: nothing without an
-- event, 401 without an authentication, and else 403 with the capability, its least role and the
-- role of the actor.
pub require-refused :
    (c : Capability)
    → (require c none ≡ nothing)
      × (require c (some none) ≡ unauthorized)
      × ((a : Auth)
          → ¬ (IsGranted c a)
          → require c (some (some a))
            ≡ forbidden c (minimum_role c) (resolve_actor (some (some a))).0)
require-refused c = (
  require-none c,
  require-anonymous c,
  λ a n. elim (Bool-cases (can (some (some a)) c)) [
    | inl t ↦ absurd (n ((IsGranted-iff c a).0 t))
    | inr f ↦ require-shut c a f
  ],
)

-- Who passes the gate of superusers passes the gate of every capability.
pub require_superuser-all :
    (e : Event) → require_superuser e ≡ next → (c : Capability) → require c e ≡ next
unfolding require_superuser
require_superuser-all none h c = cc h
require_superuser-all (some none) h c = cc h
require_superuser-all (some (some a)) h c =
    (require-next_iff c (some (some a))).1 (a, refl, inl (ground (arith, h)))
