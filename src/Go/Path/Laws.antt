-- ===== src/Go/Path/Laws.antt =====
-- The components that `filepath.Clean` keeps are not empty and hold no slash, so the result has no
-- two slashes in a row at its start.
use mathlib.Core.List.{reverse, foldl, reverse-append}
use mathlib.Core.Path.{subst}
use wireops.Prelude.{
  ℕ, ◌≡◌, refl, Bool, true, false, ◌||◌, List, [], ◌∷◌, ◌++◌, arith, ◌==◌, Bool-cases, inl, inr,
  sym, All, All-append,
}
use wireops.Go.Text.{Text, push_front, codes, contains_rune, split, text_eq, is_empty, has_prefix}
use wireops.Go.Path.{slash, join_slash, push_component, above, components, render, clean}

abbrev pub NoSlash : Text → Type 0
NoSlash s = contains_rune s b'/' ≡ false

push_front-NoSlash :
    (x : ℕ)
    → (x == b'/') ≡ false
    → (parts : List Text) → All NoSlash parts
    → All NoSlash (push_front x parts)
unfolding contains_rune
push_front-NoSlash x n [] h = (ground (arith, n), tt)
push_front-NoSlash x n (part ∷ parts) h = (ground (arith, n, h.0), h.1)

pub split-NoSlash : (s : Text) → All NoSlash (split b'/' s)
unfolding split contains_rune
split-NoSlash [] = (refl, tt)
split-NoSlash (x ∷ s) = elim (Bool-cases (x == b'/')) [
  | inl e ↦ rw e (refl, split-NoSlash s)
  | inr n ↦ rw n (push_front-NoSlash x n (split b'/' s) (split-NoSlash s))
]

pub record IsComponent (c : Text) : Type 0 where
  pub not_empty : is_empty c ≡ false
  pub no_slash : NoSlash c

abbrev is_dot : Text → Bool
is_dot c = is_empty c || text_eq c (codes ".")

pop_or_keep :
    (rooted : Bool) (kept : List Text) (c : Text)
    → IsComponent c
    → All IsComponent kept
    → All IsComponent (above rooted kept c)
unfolding above
pop_or_keep true [] c w h = tt
pop_or_keep false [] c w h = (w, tt)
pop_or_keep rooted (top ∷ kept) c w h = elim (Bool-cases (text_eq top (codes ".."))) [
  | inl e ↦ rw (e, above) (w, h)
  | inr e ↦ rw (e, above) h.1
]

push_component-All :
    (rooted : Bool) (kept : List Text) (c : Text)
    → NoSlash c
    → All IsComponent kept
    → All IsComponent (push_component rooted kept c)
unfolding push_component
push_component-All rooted kept c n h = elim (Bool-cases (is_dot c)) [
  | inl d ↦ rw d h
  | inr d ↦
      let w : IsComponent c = record { not_empty = ground arith; no_slash = n } in
      rw d (elim (Bool-cases (text_eq c (codes ".."))) [
        | inl e ↦ rw e (pop_or_keep rooted kept c w h)
        | inr e ↦ rw e (w, h)
      ])
]

foldl-All :
    (rooted : Bool) (parts kept : List Text)
    → All NoSlash parts
    → All IsComponent kept
    → All IsComponent (foldl (push_component rooted) kept parts)
foldl-All rooted [] kept n h = h
foldl-All rooted (c ∷ parts) kept n h =
    foldl-All rooted parts (push_component rooted kept c) n.1
      (push_component-All rooted kept c n.0 h)

pub reverse-All {ℓ κ} : {A : Type ℓ} (P : A → Type κ) (xs : List A) → All P xs → All P (reverse xs)
reverse-All P [] h = tt
reverse-All P (x ∷ xs) h =
    subst (All P) (sym (reverse-append (x ∷ []) xs))
      (All-append P (reverse xs) (x ∷ []) (reverse-All P xs h.1) (h.0, tt))

pub components-All : (rooted : Bool) (path : Text) → All IsComponent (components rooted path)
unfolding components
components-All rooted path =
    reverse-All IsComponent _ (foldl-All rooted (split b'/' path) [] (split-NoSlash path) tt)

join_no_slash : (cs : List Text) → All IsComponent cs → has_prefix (join_slash cs) slash ≡ false
unfolding has_prefix contains_rune
join_no_slash [] h = refl
join_no_slash ([] ∷ cs) h = cc (h.0.not_empty)
join_no_slash ((x ∷ c) ∷ []) h = ground (arith, h.0.no_slash)
join_no_slash ((x ∷ c) ∷ d ∷ cs) h = ground (arith, h.0.no_slash)

one_slash_needed : (s : Text) → has_prefix s slash ≡ false → has_prefix s (slash ++ slash) ≡ false
unfolding has_prefix
one_slash_needed [] h = refl
one_slash_needed (x ∷ s) h = ground arith

render-no_double_slash :
    (rooted : Bool) (cs : List Text)
    → All IsComponent cs
    → has_prefix (render rooted cs) (slash ++ slash) ≡ false
unfolding render
render-no_double_slash true cs h = unfold has_prefix in join_no_slash cs h
render-no_double_slash false [] h = unfold has_prefix in refl
render-no_double_slash false (c ∷ cs) h =
    one_slash_needed (join_slash (c ∷ cs)) (join_no_slash (c ∷ cs) h)

-- A cleaned path never begins with two slashes.
pub clean-no_double_slash : (path : Text) → has_prefix (clean path) (slash ++ slash) ≡ false
unfolding clean
clean-no_double_slash path =
    let rooted = has_prefix path slash in
    render-no_double_slash rooted (components rooted path) (components-All rooted path)
