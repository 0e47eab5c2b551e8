-- ===== src/Go/Path/Climbing.antt =====
-- Where `filepath.Clean` leaves "..": a cleaned relative path that does not begin with it has none.
use mathlib.Core.List.{reverse, foldl, reverse-append}
use mathlib.Core.Path.{subst}
use wireops.Prelude.{
  ◌≡◌, refl, sym, ap, ◌∙◌, Bool, true, false, ◌||◌, List, [], ◌∷◌, ◌++◌, arith, Bool-cases, inl,
  inr, All,
}
use wireops.Go.Text.{Text, codes, contains_rune, split, text_eq, is_empty, has_prefix}
use wireops.Go.Path.{slash, join_slash, push_component, above, components, render, clean}
use wireops.Go.Path.Laws.{NoSlash, IsComponent, reverse-All, components-All}

abbrev pub IsUp : Text → Type 0
IsUp c = text_eq c (codes "..") ≡ true

abbrev pub IsStep : Text → Type 0
IsStep c = text_eq c (codes "..") ≡ false

-- On the stack of components, below a ".." there is nothing but "..".
abbrev IsStack : List Text → Type 0
IsStack [] = Unit
IsStack (c ∷ kept) = (IsUp c → All IsUp kept) × IsStack kept

above-IsStack :
    (rooted : Bool) (kept : List Text) (c : Text) → IsStack kept → IsStack (above rooted kept c)
unfolding above
above-IsStack true [] c h = tt
above-IsStack false [] c h = ((λ _. tt), tt)
above-IsStack rooted (top ∷ kept) c h = elim (Bool-cases (text_eq top (codes ".."))) [
  | inl e ↦ rw (e, above) ((λ _. (e, h.0 e)), h)
  | inr e ↦ rw (e, above) h.1
]

push_component-IsStack :
    (rooted : Bool) (kept : List Text) (c : Text)
    → IsStack kept
    → IsStack (push_component rooted kept c)
unfolding push_component
push_component-IsStack rooted kept c h = elim (Bool-cases (is_empty c || text_eq c (codes "."))) [
  | inl d ↦ rw d h
  | inr d ↦ elim (Bool-cases (text_eq c (codes ".."))) [
    | inl e ↦ rw d (rw e (above-IsStack rooted kept c h))
    | inr e ↦ rw d (rw e ((λ u. absurd (cc (u, e))), h))
  ]
]

foldl-IsStack :
    (rooted : Bool) (parts kept : List Text)
    → IsStack kept
    → IsStack (foldl (push_component rooted) kept parts)
foldl-IsStack rooted [] kept h = h
foldl-IsStack rooted (c ∷ parts) kept h =
    foldl-IsStack rooted parts (push_component rooted kept c)
      (push_component-IsStack rooted kept c h)

-- The first component of the path is the lowest of the stack.
abbrev FirstIsStep : List Text → Type 0
FirstIsStep [] = Unit
FirstIsStep (c ∷ cs) = IsStep c

first_of_append :
    (xs ys : List Text) (x : Text)
    → FirstIsStep ((xs ++ (x ∷ [])) ++ ys)
    → FirstIsStep (xs ++ (x ∷ []))
first_of_append [] ys x h = h
first_of_append (y ∷ xs) ys x h = h

no_climbing : (kept : List Text) → IsStack kept → FirstIsStep (reverse kept) → All IsStep kept
no_climbing [] s h = tt
no_climbing (c ∷ []) s h = (h, tt)
no_climbing (c ∷ d ∷ kept) s h =
    let e = reverse-append (c ∷ []) (d ∷ kept) in
    let lower = subst FirstIsStep e h in
    let f = reverse-append (d ∷ []) kept in
    let below = no_climbing (d ∷ kept) s.1 (
      subst FirstIsStep (sym f) (
        first_of_append (reverse kept) (c ∷ []) d
          (subst (λ l. FirstIsStep (l ++ (c ∷ []))) f lower))) in
    (
      elim (Bool-cases (text_eq c (codes ".."))) [
        | inl u ↦ absurd (cc ((s.0 u).0, below.0))
        | inr n ↦ n
      ],
      below,
    )

split-component : (c s : Text) → NoSlash c → split b'/' (c ++ (slash ++ s)) ≡ c ∷ split b'/' s
unfolding split contains_rune
split-component [] s n = refl
split-component (x ∷ c) s n = ground (arith, n, split-component c s)

split-single : (c : Text) → NoSlash c → split b'/' c ≡ c ∷ []
unfolding split contains_rune
split-single [] n = refl
split-single (x ∷ c) n = ground (arith, n, split-single c)

-- Splitting takes the components apart again.
split-join_slash :
    (c : Text) (cs : List Text)
    → All IsComponent (c ∷ cs)
    → split b'/' (join_slash (c ∷ cs)) ≡ c ∷ cs
split-join_slash c [] h = split-single c h.0.no_slash
split-join_slash c (d ∷ cs) h =
    split-component c (join_slash (d ∷ cs)) h.0.no_slash
    ∙ ap (λ l. c ∷ l) (split-join_slash d cs h.1)

first-IsStep :
    (c : Text) (cs : List Text) → has_prefix (join_slash (c ∷ cs)) (codes "..") ≡ false → IsStep c
unfolding has_prefix text_eq
first-IsStep [] cs h = refl
first-IsStep (a ∷ []) cs h = ground arith
first-IsStep (a ∷ b ∷ []) [] h = ground (arith, h)
first-IsStep (a ∷ b ∷ []) (d ∷ cs) h = ground (arith, h)
first-IsStep (a ∷ b ∷ x ∷ c) cs h = ground arith

render-steps :
    (cs : List Text)
    → All IsComponent cs
    → (FirstIsStep cs → All IsStep cs)
    → has_prefix (render false cs) (codes "..") ≡ false
    → All IsStep (split b'/' (render false cs))
unfolding render
render-steps [] h up n = unfold split text_eq in (refl, tt)
render-steps (c ∷ cs) h up n = rw (split-join_slash c cs h) (up (first-IsStep c cs n))

components-steps : (p : Text) → FirstIsStep (components false p) → All IsStep (components false p)
unfolding components
components-steps p h =
    reverse-All IsStep _ (no_climbing _ (foldl-IsStack false (split b'/' p) [] tt) h)

rendered-steps :
    (rooted : Bool) (p : Text)
    → has_prefix (render rooted (components rooted p)) slash ≡ false
    → has_prefix (render rooted (components rooted p)) (codes "..") ≡ false
    → All IsStep (split b'/' (render rooted (components rooted p)))
rendered-steps true p relative n = absurd (unfold render has_prefix in cc relative)
rendered-steps false p relative n =
    render-steps (components false p) (components-All false p) (components-steps p) n

-- A cleaned path that is neither absolute nor begins with ".." does not climb anywhere.
pub clean-steps :
    (p : Text)
    → has_prefix (clean p) slash ≡ false
    → has_prefix (clean p) (codes "..") ≡ false
    → All IsStep (split b'/' (clean p))
unfolding clean
clean-steps p relative n = rendered-steps (has_prefix p slash) p relative n
