-- ===== src/Prelude/Lists.antt =====
-- Lists: lengths by native numbers, predicates by recursion, Boolean searches, first results.
use Prim.Native.Nat.{ℕ, zero, suc, ◌+◌}
use mathlib.Core.Path.{◌≡◌, refl}
use mathlib.Core.Logic.{◌⊎◌, inl, inr}
use mathlib.Core.Bool.{Bool, true, false, ◌||◌}
use mathlib.Core.Option.{Option, none, some}
use mathlib.Core.List.{List, [], ◌∷◌, ◌++◌}
use native.Mathlib.Omega.{arith}

module _ {ℓ} {A : Type ℓ} where
  abbrev pub length : List A → ℕ
  length [] = 0
  length (x ∷ xs) = suc (length xs)

  abbrev pub take : ℕ → List A → List A
  take zero xs = []
  take (suc n) [] = []
  take (suc n) (x ∷ xs) = x ∷ take n xs

  abbrev pub drop : ℕ → List A → List A
  drop zero xs = xs
  drop (suc n) [] = []
  drop (suc n) (x ∷ xs) = drop n xs

  pub length-append : (xs ys : List A) → length (xs ++ ys) ≡ length xs + length ys
  length-append [] ys = omega arith
  length-append (x ∷ xs) ys = omega (arith, length-append xs ys)

  -- Whether some item passes the test: the loop that returns true at the first that does.
  abbrev pub any : (A → Bool) → List A → Bool
  any p [] = false
  any p (x ∷ xs) = p x || any p xs

  abbrev pub keep : (A → Bool) → List A → List A
  keep p [] = []
  keep p (x ∷ xs) = let rest = keep p xs in elim (p x) [ true ↦ x ∷ rest | false ↦ rest ]

module _ {ℓ} {A : Type ℓ} where
  -- An item of the list, with the place where it stands.
  pub data In (a : A) : List A → Type ℓ where
    here : {xs : List A} → In a (a ∷ xs)
    there : {x : A} {xs : List A} → In a xs → In a (x ∷ xs)

  pub In-cons : {a x : A} {xs : List A} → In a (x ∷ xs) → (a ≡ x) ⊎ In a xs
  In-cons here = inl refl
  In-cons (there i) = inr i

  pub In-append_left : {a : A} {xs : List A} (ys : List A) → In a xs → In a (xs ++ ys)
  In-append_left ys here = here
  In-append_left ys (there i) = there (In-append_left ys i)

  pub In-append_right : {a : A} (xs : List A) {ys : List A} → In a ys → In a (xs ++ ys)
  In-append_right [] i = i
  In-append_right (x ∷ xs) i = there (In-append_right xs i)

  pub In-append_cases : {a y : A} (xs : List A) → In a (xs ++ (y ∷ [])) → In a xs ⊎ (a ≡ y)
  In-append_cases [] i = elim (In-cons i) [ inl e ↦ inr e | inr k ↦ elim k [ ] ]
  In-append_cases (x ∷ xs) i = elim (In-cons i) [
    | inl e ↦ inl (rw e here)
    | inr k ↦ elim (In-append_cases xs k) [ inl l ↦ inl (there l) | inr e ↦ inr e ]
  ]

module _ {ℓ κ} {A : Type ℓ} where
  abbrev pub All : (A → Type κ) → List A → Type κ
  All P [] = Unit
  All P (x ∷ xs) = P x × All P xs

  pub All-append :
      (P : A → Type κ) (front back : List A) → All P front → All P back → All P (front ++ back)
  All-append P [] back left right = right
  All-append P (a ∷ front) back (now, left) right = (now, All-append P front back left right)

  pub All-map : {P Q : A → Type κ} (xs : List A) → ((x : A) → P x → Q x) → All P xs → All Q xs
  All-map [] f h = tt
  All-map (x ∷ xs) f h = (f x h.0, All-map xs f h.1)

  pub All-In : (P : A → Type κ) {a : A} {xs : List A} → All P xs → In a xs → P a
  All-In P h here = h.0
  All-In P h (there i) = All-In P h.1 i

-- `if err := …; err != nil { return err }` before the rest of a function.
abbrev pub or_else {κ} : {E : Type κ} → Option E → Option E → Option E
or_else none e = e
or_else (some x) e = some x

-- A loop that returns the first error which an item gives.
module _ {ℓ κ} {A : Type ℓ} {E : Type κ} where
  abbrev pub first_some : (A → Option E) → List A → Option E
  first_some f [] = none
  first_some f (x ∷ xs) = or_else (f x) (first_some f xs)

  -- A loop that collects the errors of all items.
  abbrev pub all_some : (A → Option E) → List A → List E
  all_some f [] = []
  all_some f (x ∷ xs) = let rest = all_some f xs in elim (f x) [ none ↦ rest | some e ↦ e ∷ rest ]

abbrev pub first {κ} : {E : Type κ} → List E → Option E
first [] = none
first (x ∷ xs) = some x
