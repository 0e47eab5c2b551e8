-- ===== src/Go/Replace.antt =====
-- `strings.Contains` and `strings.ReplaceAll`, and what a replacement leaves of a text.
use wireops.Prelude.{
  ℕ, zero, suc, ◌-◌, ◌≡◌, refl, Bool, true, false, ◌||◌, [], ◌∷◌, ◌++◌, arith, length, Bool-cases,
  inl, inr,
}
use mathlib.Core.List.{append_assoc}
use wireops.Go.Text.{Text, has_prefix, contains_rune, is_empty}

first_false : (a b : Bool) → (a || b) ≡ false → a ≡ false
first_false a b e = ground (arith, e)

second_false : (a b : Bool) → (a || b) ≡ false → b ≡ false
second_false a b e = ground (arith, e)

both_false : {a b : Bool} → a ≡ false → b ≡ false → (a || b) ≡ false
both_false e f = ground (arith, e, f)

not-true : (a : Bool) → ¬ (a ≡ true) → a ≡ false
not-true true n = absurd (n refl)
not-true false n = refl

unfoldable pub contains : Text → Text → Bool
contains [] p = has_prefix [] p
contains (c ∷ s) p = has_prefix (c ∷ s) p || contains s p

-- From a place where `skip` characters are part of a match that is replaced already.
unfoldable pub replace_from : Text → Text → ℕ → Text → Text
replace_from old new skip [] = []
replace_from old new (suc skip) (c ∷ s) = replace_from old new skip s
replace_from old new zero (c ∷ s) = elim (has_prefix (c ∷ s) old) [
  | true ↦ new ++ replace_from old new (length old - 1) s
  | false ↦ c ∷ replace_from old new 0 s
]

-- `old` is not empty.
unfoldable pub replace_all : Text → Text → Text → Text
unfolding replace_from
replace_all text old new = replace_from old new 0 text

-- A replacement that begins with `mark` adds no beginning without `mark`.
pub has_prefix-replace_from :
    (old new : Text) (mark : ℕ) (s p : Text)
    → contains_rune p mark ≡ false
    → has_prefix (replace_from old (mark ∷ new) 0 s) p ≡ true
    → has_prefix s p ≡ true
unfolding replace_from has_prefix contains_rune
has_prefix-replace_from old new mark [] p n h = h
has_prefix-replace_from old new mark (c ∷ s) [] n h = refl
has_prefix-replace_from old new mark (c ∷ s) (d ∷ p) n h =
    elim (Bool-cases (has_prefix (c ∷ s) old)) [
      | inl m ↦ ground (arith, m, n, h)
      | inr m ↦ ground (arith, m, n, h, has_prefix-replace_from old new mark s p)
    ]

-- What begins within `w` and has no `stop` ends before a `stop` behind `w`.
has_prefix-stop :
    (w t p : Text) (stop : ℕ)
    → contains_rune p stop ≡ false
    → has_prefix (w ++ (stop ∷ t)) p ≡ true
    → has_prefix w p ≡ true
unfolding has_prefix contains_rune
has_prefix-stop [] t [] stop n h = refl
has_prefix-stop [] t (d ∷ p) stop n h = ground (arith, n, h)
has_prefix-stop (c ∷ w) t [] stop n h = refl
has_prefix-stop (c ∷ w) t (d ∷ p) stop n h = ground (arith, n, h, has_prefix-stop w t p stop)

-- A text without `stop` that is not in `w`, and not behind the `stop`, is not across it either.
contains-stop :
    (w t p : Text) (stop d : ℕ)
    → contains_rune (d ∷ p) stop ≡ false
    → contains w (d ∷ p) ≡ false
    → contains t (d ∷ p) ≡ false
    → contains (w ++ (stop ∷ t)) (d ∷ p) ≡ false
unfolding contains
contains-stop [] t p stop d n no_w no_t = unfold contains_rune has_prefix in ground (arith, n, no_t)
contains-stop (c ∷ w) t p stop d n no_w no_t =
    elim (Bool-cases (has_prefix (c ∷ (w ++ (stop ∷ t))) (d ∷ p))) [
      | inl h ↦ cc (
        has_prefix-stop (c ∷ w) t (d ∷ p) stop n h,
        first_false (has_prefix (c ∷ w) (d ∷ p)) _ no_w,
      )
      | inr h ↦
          rw h
            (contains-stop w t p stop d n (second_false (has_prefix (c ∷ w) (d ∷ p)) _ no_w) no_t)
    ]

-- A text that has nothing in common with a placeholder: `open`, then `word`, then `stop`.
pub record IsApart (p : Text) (mark : ℕ) (word : Text) (stop : ℕ) : Type 0 where
  pub no_mark : contains_rune p mark ≡ false
  pub no_stop : contains_rune p stop ≡ false
  pub not_in_word : contains word p ≡ false
  pub not_empty : is_empty p ≡ false

module _ (mark : ℕ) (word : Text) (stop : ℕ) where
  abbrev pub placeholder : Text
  placeholder = mark ∷ (word ++ (stop ∷ []))

  contains-placeholder :
      (t p : Text)
      → IsApart p mark word stop
      → contains t p ≡ false
      → contains (placeholder ++ t) p ≡ false
  unfolding contains
  contains-placeholder t [] v h = cc (v.not_empty)
  contains-placeholder t (d ∷ p) v h =
      let rest = contains-stop word t p stop d v.no_stop v.not_in_word h in
      rw append_assoc (unfold has_prefix contains_rune in ground (arith, v.no_mark, rest))

  -- A character that no match begins at is kept, and what begins at it is as it was.
  kept_head :
      (old p : Text) (c : ℕ) (s : Text)
      → IsApart p mark word stop
      → has_prefix (c ∷ s) old ≡ false
      → has_prefix (c ∷ s) p ≡ false
      → has_prefix (c ∷ replace_from old placeholder 0 s) p ≡ false
  unfolding replace_from
  kept_head old p c s v m n =
      not-true _ (λ (k : has_prefix (c ∷ replace_from old placeholder 0 s) p ≡ true). cc (
        n,
        has_prefix-replace_from old (word ++ (stop ∷ [])) mark (c ∷ s) p v.no_mark
            (rw (m, replace_from) k),
      ))

  -- Replacing anything by the placeholder adds no such text.
  pub contains-replace_from :
      (old p : Text) (skip : ℕ) (s : Text)
      → IsApart p mark word stop
      → contains s p ≡ false
      → contains (replace_from old placeholder skip s) p ≡ false
  unfolding replace_from contains
  contains-replace_from old p skip [] v h = h
  contains-replace_from old p (suc skip) (c ∷ s) v h =
      contains-replace_from old p skip s v (second_false (has_prefix (c ∷ s) p) _ h)
  contains-replace_from old p zero (c ∷ s) v h =
      let later = second_false (has_prefix (c ∷ s) p) _ h in
      elim (Bool-cases (has_prefix (c ∷ s) old)) [
        | inl m ↦
            rw (m, replace_from)
              (contains-placeholder _ p v (contains-replace_from old p (length old - 1) s v later))
        | inr m ↦
            rw (m, replace_from)
              (both_false (kept_head old p c s v m (first_false _ _ h))
                (contains-replace_from old p 0 s v later))
      ]

  nothing-contains : (p : Text) → is_empty p ≡ false → contains [] p ≡ false
  unfolding contains has_prefix
  nothing-contains [] e = cc e
  nothing-contains (d ∷ p) e = refl

  -- Replacing a text removes it.
  pub contains-replaced :
      (p : Text) (skip : ℕ) (s : Text)
      → IsApart p mark word stop
      → contains (replace_from p placeholder skip s) p ≡ false
  unfolding replace_from contains
  contains-replaced p skip [] v = nothing-contains p v.not_empty
  contains-replaced p (suc skip) (c ∷ s) v = contains-replaced p skip s v
  contains-replaced p zero (c ∷ s) v = elim (Bool-cases (has_prefix (c ∷ s) p)) [
    | inl m ↦
        rw (m, replace_from) (contains-placeholder _ p v (contains-replaced p (length p - 1) s v))
    | inr m ↦
        rw (m, replace_from) (both_false (kept_head p p c s v m m) (contains-replaced p 0 s v))
  ]
