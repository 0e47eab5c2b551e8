-- ===== src/Go/Path/Joined.antt =====
-- `filepath.Join` of a directory and a relative path that does not climb.
use mathlib.Core.List.{reverse, foldl, foldl-append, reverse-append}
use wireops.Prelude.{
  ℕ, ◌≡◌, refl, ap, ◌∙◌, Bool, false, ◌||◌, List, [], ◌∷◌, ◌++◌, Bool-cases, inl, inr, All, ◌==◌,
}
use wireops.Go.Text.{Text, codes, text_eq, is_empty, has_prefix, split, push_front}
use wireops.Go.Path.{slash, push_component, components, render, clean}
use wireops.Go.Path.Climbing.{IsStep}

push_front-twice :
    (x y : ℕ) (ps qs : List Text)
    → push_front x (push_front y ps ++ qs) ≡ push_front x (push_front y ps) ++ qs
push_front-twice x y [] qs = refl
push_front-twice x y (p ∷ ps) qs = refl

-- There is a first part, which takes the rune.
push_front-split :
    (x : ℕ) (s : Text) (qs : List Text)
    → push_front x (split b'/' s ++ qs) ≡ push_front x (split b'/' s) ++ qs
unfolding split
push_front-split x [] qs = refl
push_front-split x (y ∷ s) qs = elim (Bool-cases (y == b'/')) [
  | inl e ↦ rw (e, split) refl
  | inr n ↦ rw (n, split) (push_front-twice x y (split b'/' s) qs)
]

-- The parts of two texts with a slash between them.
split-slash : (s t : Text) → split b'/' (s ++ (slash ++ t)) ≡ split b'/' s ++ split b'/' t
unfolding split
split-slash [] t = refl
split-slash (x ∷ s) t = elim (Bool-cases (x == b'/')) [
  | inl e ↦ rw (e, split) (ap (λ ps. [] ∷ ps) (split-slash s t))
  | inr n ↦
      rw (n, split) (ap (push_front x) (split-slash s t) ∙ push_front-split x s (split b'/' t))
]

push_component-step :
    (rooted : Bool) (c : Text) (kept base : List Text)
    → IsStep c
    → push_component rooted (kept ++ base) c ≡ push_component false kept c ++ base
unfolding push_component
push_component-step rooted c kept base n = elim (Bool-cases (is_empty c || text_eq c (codes "."))) [
  | inl d ↦ rw d refl
  | inr d ↦ rw d (rw n refl)
]

-- Parts that do not climb leave the components that are there.
foldl-steps :
    (rooted : Bool) (parts kept base : List Text)
    → All IsStep parts
    → foldl (push_component rooted) (kept ++ base) parts
      ≡ foldl (push_component false) kept parts ++ base
foldl-steps rooted [] kept base h = refl
foldl-steps rooted (c ∷ parts) kept base h =
    ap (λ k. foldl (push_component rooted) k parts) (push_component-step rooted c kept base h.0)
    ∙ foldl-steps rooted parts (push_component false kept c) base h.1

pub components-joined :
    (rooted : Bool) (dir path : Text)
    → All IsStep (split b'/' path)
    → components rooted (dir ++ (slash ++ path)) ≡ components rooted dir ++ components false path
unfolding components
components-joined rooted dir path h =
    ap (λ ps. reverse (foldl (push_component rooted) [] ps)) (split-slash dir path)
    ∙ ap reverse (
        foldl-append (push_component rooted) [] (split b'/' dir) (split b'/' path)
        ∙ foldl-steps rooted (split b'/' path) [] _ h)
    ∙ reverse-append (foldl (push_component false) [] (split b'/' path))
        (foldl (push_component rooted) [] (split b'/' dir))

-- `filepath.Join` of two elements that are not empty.
abbrev pub join : Text → Text → Text
join dir path = clean (dir ++ (slash ++ path))

abbrev pub is_rooted : Text → Bool
is_rooted path = has_prefix path slash

clean-rendered : (dir : Text) → clean dir ≡ render (is_rooted dir) (components (is_rooted dir) dir)
unfolding clean
clean-rendered dir = refl

-- A directory, and what a path that is joined to it names: the components of the path stand behind
-- those of the directory, which all stay.
abbrev pub IsJoined : Text → Text → Type 0
IsJoined dir path =
    (clean dir ≡ render (is_rooted dir) (components (is_rooted dir) dir))
    × (join dir path
        ≡ render (is_rooted dir) (components (is_rooted dir) dir ++ components false path))

pub join-steps : (c : ℕ) (cs path : Text) → All IsStep (split b'/' path) → IsJoined (c ∷ cs) path
unfolding clean has_prefix
join-steps c cs path h = (
  clean-rendered (c ∷ cs),
  ap (render (is_rooted (c ∷ cs))) (components-joined (is_rooted (c ∷ cs)) (c ∷ cs) path h),
)
