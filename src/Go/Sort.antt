-- ===== src/Go/Sort.antt =====
-- `sort.Strings`: the order of texts, and sorting by it. The library's sort is not stable, which
-- does not show, since equal strings are alike.
use mathlib.Core.List.{Permᴰ}
use mathlib.Core.Path.{subst}
use wireops.Prelude.{
  ◌≡◌, refl, ◌∙◌, Bool, true, false, List, [], ◌∷◌, arith, ltb, ◌==◌, if◌then◌else◌, Bool-cases,
  inl, inr, In, here, there, In-cons,
}
use wireops.Go.Text.{Text}

unfoldable pub text_ltb : Text → Text → Bool
text_ltb s [] = false
text_ltb [] (b ∷ t) = true
text_ltb (a ∷ s) (b ∷ t) = let rest = text_ltb s t in if a == b then rest else ltb a b

unfoldable pub insert_text : Text → List Text → List Text
insert_text x [] = x ∷ []
insert_text x (y ∷ ys) =
    let rest = insert_text x ys in if text_ltb y x then y ∷ rest else x ∷ y ∷ ys

unfoldable pub sort_strings : List Text → List Text
unfolding insert_text
sort_strings [] = []
sort_strings (x ∷ xs) = insert_text x (sort_strings xs)

text_ltb_asymm : (s t : Text) → text_ltb s t ≡ true → text_ltb t s ≡ false
unfolding text_ltb
text_ltb_asymm s [] h = ground arith
text_ltb_asymm [] (b ∷ t) h = refl
text_ltb_asymm (a ∷ s) (b ∷ t) h = ground (arith, text_ltb_asymm s t)

text_ltb_antisymm : (s t : Text) → text_ltb s t ≡ false → text_ltb t s ≡ false → s ≡ t
unfolding text_ltb
text_ltb_antisymm [] [] h k = refl
text_ltb_antisymm [] (b ∷ t) h k = ground arith
text_ltb_antisymm (a ∷ s) [] h k = ground arith
text_ltb_antisymm (a ∷ s) (b ∷ t) h k = ground (arith, text_ltb_antisymm s t)

-- What is not below `t` is not below anything at most `t`.
text_leb_trans : (s t u : Text) → text_ltb t s ≡ false → text_ltb u t ≡ false → text_ltb u s ≡ false
unfolding text_ltb
text_leb_trans [] t [] h k = refl
text_leb_trans [] [] (c ∷ u) h k = refl
text_leb_trans [] (b ∷ t) (c ∷ u) h k = refl
text_leb_trans (a ∷ s) [] u h k = ground arith
text_leb_trans (a ∷ s) (b ∷ t) [] h k = ground arith
text_leb_trans (a ∷ s) (b ∷ t) (c ∷ u) h k = ground (arith, text_leb_trans s t u)

insert_text_comm :
    (x y : Text) (l : List Text) → insert_text x (insert_text y l) ≡ insert_text y (insert_text x l)
unfolding insert_text
insert_text_comm x y [] =
    ground (arith, text_ltb_asymm x y, text_ltb_asymm y x, text_ltb_antisymm x y)
insert_text_comm x y (z ∷ l) = ground (
  arith,
  insert_text_comm x y l,
  text_ltb_asymm x y,
  text_ltb_asymm y x,
  text_ltb_antisymm x y,
  text_leb_trans x z y,
  text_leb_trans y z x,
  text_leb_trans z x y,
  text_leb_trans z y x,
  text_ltb_asymm z x,
  text_ltb_asymm z y,
)

-- The order in which `range` yields the keys of a map does not show after sorting.
pub sort_strings-perm : {l k : List Text} → Permᴰ l k → sort_strings l ≡ sort_strings k
unfolding sort_strings
sort_strings-perm Permᴰ.nil = refl
sort_strings-perm (Permᴰ.cons e p) = cc (e, sort_strings-perm p)
sort_strings-perm (Permᴰ.swap {a = a} {b = b} {l = l} e f) =
    cc (e, f, insert_text_comm a b (sort_strings l))
sort_strings-perm (Permᴰ.trans p q) = sort_strings-perm p ∙ sort_strings-perm q

insert_text-In : (x : Text) (l : List Text) → In x (insert_text x l)
unfolding insert_text
insert_text-In x [] = here
insert_text-In x (y ∷ ys) = elim (Bool-cases (text_ltb y x)) [
  | inl e ↦ rw e (there (insert_text-In x ys))
  | inr e ↦ rw e here
]

insert_text-In_old : {z : Text} (x : Text) {l : List Text} → In z l → In z (insert_text x l)
unfolding insert_text
insert_text-In_old {z} x (here {xs = ys}) = elim (Bool-cases (text_ltb z x)) [
  | inl e ↦ rw e here
  | inr e ↦ rw e (there here)
]
insert_text-In_old x (there {x = y} {xs = ys} i) = elim (Bool-cases (text_ltb y x)) [
  | inl e ↦ rw e (there (insert_text-In_old x i))
  | inr e ↦ rw e (there (there i))
]

-- Sorting loses no string.
pub sort_strings-In : {z : Text} {l : List Text} → In z l → In z (sort_strings l)
unfolding sort_strings
sort_strings-In (here {xs = xs}) = insert_text-In _ (sort_strings xs)
sort_strings-In (there {x = x} i) = insert_text-In_old x (sort_strings-In i)

In-insert_text : {z : Text} (x : Text) (l : List Text) → In z (insert_text x l) → In z (x ∷ l)
unfolding insert_text
In-insert_text x [] i = i
In-insert_text {z} x (y ∷ l) i = elim (Bool-cases (text_ltb y x)) [
  | inl t ↦ elim (In-cons (subst (In z) (rw (t, insert_text) refl) i)) [
    | inl e ↦ there (rw e here)
    | inr j ↦ elim (In-cons (In-insert_text x l j)) [ inl e ↦ rw e here | inr k ↦ there (there k) ]
  ]
  | inr f ↦ subst (In z) (rw (f, insert_text) refl) i
]

pub In-sort_strings : {z : Text} (l : List Text) → In z (sort_strings l) → In z l
unfolding sort_strings
In-sort_strings [] i = i
In-sort_strings (x ∷ l) i = elim (In-cons (In-insert_text x (sort_strings l) i)) [
  | inl e ↦ rw e here
  | inr j ↦ there (In-sort_strings l j)
]
