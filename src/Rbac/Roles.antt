-- ===== src/Rbac/Roles.antt =====
-- The order of the roles.
use wireops.Prelude.{
  ◌≤◌, ◌≡◌, refl, ap, sym, ◌∙◌, ◌⊎◌, inl, inr, true, List, [], ◌∷◌, arith, leb_iff, All, All-map,
  In, here, there,
}
use wireops.Go.Text.{Text, text_eq, trim_space, to_lower}
use wireops.Rbac.{
  role_monitoring, role_viewer, role_operator, role_admin, normalized, normalize_role, rank_of,
  role_rank, at_least, better_role, highest_from, highest_role,
}

-- A normalized role is empty or one of the four.
normalized-cases :
    (r : Text)
    → (normalized r ≡ [])
      ⊎ ((normalized r ≡ role_monitoring)
          ⊎ ((normalized r ≡ role_viewer)
              ⊎ ((normalized r ≡ role_operator) ⊎ (normalized r ≡ role_admin))))
unfolding normalized
normalized-cases r = ground arith

normalize_fixed :
    (normalize_role [] ≡ [])
    × (normalize_role role_monitoring ≡ role_monitoring)
    × (normalize_role role_viewer ≡ role_viewer)
    × (normalize_role role_operator ≡ role_operator)
    × (normalize_role role_admin ≡ role_admin)
unfolding normalize_role normalized trim_space to_lower text_eq
normalize_fixed = (refl, refl, refl, refl, refl)

normalize_role-cases :
    (role : Text)
    → (normalize_role role ≡ [])
      ⊎ ((normalize_role role ≡ role_monitoring)
          ⊎ ((normalize_role role ≡ role_viewer)
              ⊎ ((normalize_role role ≡ role_operator) ⊎ (normalize_role role ≡ role_admin))))
unfolding normalize_role
normalize_role-cases role = normalized-cases (to_lower (trim_space role))

pub ranks :
    (role_rank [] ≡ 0)
    × (role_rank role_monitoring ≡ 1)
    × (role_rank role_viewer ≡ 2)
    × (role_rank role_operator ≡ 3)
    × (role_rank role_admin ≡ 4)
unfolding role_rank rank_of normalize_role normalized trim_space to_lower text_eq
ranks = (refl, refl, refl, refl, refl)

fixed_at : {x y : Text} → x ≡ y → normalize_role y ≡ y → normalize_role x ≡ x
fixed_at e h = ap normalize_role e ∙ h ∙ sym e

pub normalize_role_idem : (role : Text) → normalize_role (normalize_role role) ≡ normalize_role role
normalize_role_idem role = elim (normalize_role-cases role) [
  | inl e ↦ fixed_at e normalize_fixed.0
  | inr (inl e) ↦ fixed_at e normalize_fixed.1
  | inr (inr (inl e)) ↦ fixed_at e normalize_fixed.2
  | inr (inr (inr (inl e))) ↦ fixed_at e normalize_fixed.3
  | inr (inr (inr (inr e))) ↦ fixed_at e normalize_fixed.4
]

pub role_rank-normalize_role : (role : Text) → role_rank (normalize_role role) ≡ role_rank role
unfolding role_rank
role_rank-normalize_role role = ap rank_of (normalize_role_idem role)

-- A role of rank 0 normalizes to the empty role: it is unknown, or empty.
pub role_rank-zero : (role : Text) → role_rank role ≡ 0 → normalize_role role ≡ []
role_rank-zero role z = elim (normalize_role-cases role) [
  | inl e ↦ e
  | inr (inl e) ↦ absurd (omega (arith, role_rank-normalize_role role, ap role_rank e, ranks.1))
  | inr (inr (inl e)) ↦
      absurd (omega (arith, role_rank-normalize_role role, ap role_rank e, ranks.2))
  | inr (inr (inr (inl e))) ↦
      absurd (omega (arith, role_rank-normalize_role role, ap role_rank e, ranks.3))
  | inr (inr (inr (inr e))) ↦
      absurd (omega (arith, role_rank-normalize_role role, ap role_rank e, ranks.4))
]

better_role-max :
    (best role : Text)
    → (role_rank best ≤ role_rank (better_role best role))
      × (role_rank role ≤ role_rank (better_role best role))
unfolding better_role
better_role-max best role = ground (arith, role_rank-normalize_role role)

better_role-cases :
    (best role : Text)
    → (better_role best role ≡ best) ⊎ (better_role best role ≡ normalize_role role)
unfolding better_role
better_role-cases best role = ground arith

highest_from-max :
    (best : Text) (roles : List Text)
    → (role_rank best ≤ role_rank (highest_from best roles))
      × All (λ r. role_rank r ≤ role_rank (highest_from best roles)) roles
unfolding highest_from
highest_from-max best [] = (omega arith, tt)
highest_from-max best (role ∷ roles) =
    let ih = highest_from-max (better_role best role) roles in
    let step = better_role-max best role in
    (omega (arith, ih.0, step), (omega (arith, ih.0, step), ih.1))

highest_from-among :
    (best : Text) (roles : List Text)
    → (highest_from best roles ≡ best)
      ⊎ ((role : Text) × In role roles × (highest_from best roles ≡ normalize_role role))
unfolding highest_from
highest_from-among best [] = inl refl
highest_from-among best (role ∷ roles) = elim (highest_from-among (better_role best role) roles) [
  | inl e ↦ elim (better_role-cases best role) [
    | inl b ↦ inl (e ∙ b)
    | inr n ↦ inr (role, here, e ∙ n)
  ]
  | inr (r, i, e) ↦ inr (r, there i, e)
]

-- The highest of some roles is at least each of them, and is empty or one of them, normalized.
pub highest_role_lem :
    (roles : List Text)
    → All (λ r. at_least (highest_role roles) r ≡ true) roles
      × ((highest_role roles ≡ [])
          ⊎ ((role : Text) × In role roles × (highest_role roles ≡ normalize_role role)))
unfolding highest_role at_least
highest_role_lem roles = (
  All-map roles (λ r h. (leb_iff _ _).1 h) (highest_from-max [] roles).1,
  highest_from-among [] roles,
)
