-- ===== src/Prelude/Searches.antt =====
-- What the Boolean searches and the error loops over lists say.
use mathlib.Core.Path.{◌≡◌, refl, subst}
use mathlib.Core.Logic.{◌↔◌, inl, inr}
use mathlib.Core.Bool.{Bool, true}
use mathlib.Core.Option.{Option, none}
use mathlib.Core.List.{List, [], ◌∷◌}
use native.Mathlib.Omega.{arith}
use wireops.Prelude.Tests.{Bool-cases}
use wireops.Prelude.Lists.{any, keep, All, In, here, there, In-cons, first_some}

module _ {ℓ} {A : Type ℓ} (p : A → Bool) where
  pub any-In : {x : A} {xs : List A} → In x xs → p x ≡ true → any p xs ≡ true
  any-In (here {xs = xs}) e = ground (arith, e)
  any-In (there {x = y} i) e = ground (arith, any-In i e)

  pub find_any : (xs : List A) → any p xs ≡ true → (x : A) × In x xs × (p x ≡ true)
  find_any [] h = cc
  find_any (x ∷ xs) h = elim (Bool-cases (p x)) [
    | inl e ↦ (x, here, e)
    | inr e ↦ let (y, i, q) = find_any xs (ground arith) in (y, there i, q)
  ]

  pub any_iff : (xs : List A) → (any p xs ≡ true) ↔ ((x : A) × In x xs × (p x ≡ true))
  any_iff xs = (find_any xs, λ (x, i, e). any-In i e)

module _ {ℓ κ} {A : Type ℓ} {E : Type κ} (f : A → Option E) where
  pub first_some-none_iff : (xs : List A) → (first_some f xs ≡ none) ↔ All (λ x. f x ≡ none) xs
  first_some-none_iff xs = (to xs, from xs)
    where
      to : (xs : List A) → first_some f xs ≡ none → All (λ x. f x ≡ none) xs
      to [] h = tt
      to (x ∷ xs) h = (ground arith, to xs (ground arith))

      from : (xs : List A) → All (λ x. f x ≡ none) xs → first_some f xs ≡ none
      from [] h = refl
      from (x ∷ xs) h = ground (arith, h.0, from xs h.1)

module _ {ℓ} {A : Type ℓ} (p : A → Bool) where
  In-keep : {a : A} (xs : List A) → In a (keep p xs) → In a xs × (p a ≡ true)
  In-keep [] i = elim i [ ]
  In-keep {a} (x ∷ xs) i = elim (Bool-cases (p x)) [
    | inl t ↦ elim (In-cons (subst (In a) (rw (t, keep) refl) i)) [
      | inl e ↦ (rw e here, rw e t)
      | inr j ↦ let (k, e) = In-keep xs j in (there k, e)
    ]
    | inr f ↦ let (k, e) = In-keep xs (subst (In a) (rw (f, keep) refl) i) in (there k, e)
  ]

  keep-In : {a : A} {xs : List A} → In a xs → p a ≡ true → In a (keep p xs)
  keep-In here e = rw (e, keep) here
  keep-In (there {x = x} {xs = xs} i) e = elim (Bool-cases (p x)) [
    | inl t ↦ rw (t, keep) (there (keep-In i e))
    | inr f ↦ rw (f, keep) (keep-In i e)
  ]

  pub keep_iff : (a : A) (xs : List A) → In a (keep p xs) ↔ (In a xs × (p a ≡ true))
  keep_iff a xs = (In-keep xs, λ (i, e). keep-In i e)
