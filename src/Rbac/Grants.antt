-- ===== src/Rbac/Grants.antt =====
-- What a role grants.
use wireops.Prelude.{
  ◌≤◌, ◌≡◌, refl, sym, ◌∙◌, ◌↔◌, inl, inr, true, false, some, List, [], ◌∷◌, arith, All, All-In, In,
  here, there, Bool-cases, Option-cases, some_inj, keep_iff,
}
use wireops.Go.Text.{Text, text_eq}
use wireops.Go.Sort.{sort_strings-In, In-sort_strings}
use wireops.Go.Value.{keys, lookup}
use wireops.Rbac.{
  Capability, role_rank, at_least, minimum_role, minimum_role_by_capability, all_capabilities,
  capabilities_for,
}
use wireops.Rbac.Roles.{ranks}

lookup-here :
    (j w : Text) (m : List (Text × Text)) (k : Text)
    → text_eq j k ≡ true
    → lookup ((j, w) ∷ m) k ≡ some w
unfolding lookup
lookup-here j w m k t = rw (t, lookup) refl

lookup-there :
    (j w : Text) (m : List (Text × Text)) (k : Text)
    → text_eq j k ≡ false
    → lookup ((j, w) ∷ m) k ≡ lookup m k
unfolding lookup
lookup-there j w m k f = rw (f, lookup) refl

-- A value that a lookup finds stands in the map.
lookup-In :
    (m : List (Text × Text)) (k : Text) {v : Text} → lookup m k ≡ some v → (j : Text) × In (j, v) m
unfolding lookup
lookup-In [] k e = cc e
lookup-In ((j, w) ∷ m) k {v} e = elim (Bool-cases (text_eq j k)) [
  | inl t ↦ (j, rw (← some_inj (sym (lookup-here j w m k t) ∙ e)) here)
  | inr f ↦ let (i, at) = lookup-In m k (sym (lookup-there j w m k f) ∙ e) in (i, there at)
]

table_ranked : All (λ e. 1 ≤ role_rank e.1) minimum_role_by_capability
table_ranked = omega (arith, ranks)

-- Every capability, listed or not, asks for a known role: its least role has rank 1 at least.
pub minimum_role-pos : (c : Capability) → 1 ≤ role_rank (minimum_role c)
unfolding minimum_role
minimum_role-pos c = elim (Option-cases (lookup minimum_role_by_capability c)) [
  | inl e ↦ rw (e, minimum_role) (omega (arith, ranks))
  | inr (r, e) ↦
      rw (e, minimum_role)
        (All-In (λ e. 1 ≤ role_rank e.1) table_ranked (lookup-In minimum_role_by_capability c e).1)
]

known_sorted : (c : Capability) → In c all_capabilities ↔ In c (keys minimum_role_by_capability)
unfolding all_capabilities
known_sorted c = (In-sort_strings _, sort_strings-In)

-- A role is granted exactly the listed capabilities whose least role it reaches.
pub capabilities_for_iff :
    (role : Text) (c : Capability)
    → In c (capabilities_for role)
      ↔ (In c (keys minimum_role_by_capability) × (at_least role (minimum_role c) ≡ true))
unfolding capabilities_for
capabilities_for_iff role c =
    let (to, from) = keep_iff (λ c. at_least role (minimum_role c)) c all_capabilities in
    let (into, back) = known_sorted c in
    (λ i. (into (to i).0, (to i).1), λ (i, e). from (back i, e))
