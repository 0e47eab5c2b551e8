-- ===== src/Go/Trim.antt =====
-- What `strings.TrimFunc` leaves as it is.
use mathlib.Core.List.{reverse, reverse-append, reverse-reverse}
use mathlib.Core.Path.{subst}
use wireops.Prelude.{
  ℕ, ◌≤◌, ◌≡◌, refl, sym, ap, ◌∙◌, Bool, true, false, List, [], ◌∷◌, ◌++◌, arith, any, length,
  length-append, Bool-cases, inl, inr, ◌⊎◌,
}
use wireops.Go.Text.{Text, trim_left, trim}

module _ (f : ℕ → Bool) where
  trim_left-kept : (c : ℕ) (s : Text) → f c ≡ false → trim_left f (c ∷ s) ≡ c ∷ s
  unfolding trim_left
  trim_left-kept c s n = ground (arith, n)

  -- Nothing is trimmed of a text whose first and last characters stay.
  pub trim-ends :
      (c d : ℕ) (s p : Text)
      → f c ≡ false
      → f d ≡ false
      → c ∷ s ≡ p ++ (d ∷ [])
      → trim f (c ∷ s) ≡ c ∷ s
  unfolding trim
  trim-ends c d s p first last e =
      ap (λ t. reverse (trim_left f (reverse t))) (trim_left-kept c s first ∙ e)
      ∙ ap (λ t. reverse (trim_left f t)) (reverse-append p (d ∷ []))
      ∙ ap reverse (trim_left-kept d (reverse p) last)
      ∙ ap reverse (sym (reverse-append p (d ∷ [])))
      ∙ reverse-reverse (p ++ (d ∷ []))
      ∙ sym e

length-reverse {ℓ} : {A : Type ℓ} (xs : List A) → length (reverse xs) ≡ length xs
length-reverse [] = refl
length-reverse (x ∷ xs) =
    ap length (reverse-append (x ∷ []) xs)
    ∙ omega (arith, length-append (reverse xs) (x ∷ []), length-reverse xs)

-- A text is empty, or something before a last character.
pub last-cases : (s : Text) → (s ≡ []) ⊎ ((p : Text) × (d : ℕ) × (s ≡ p ++ (d ∷ [])))
last-cases [] = inl refl
last-cases (c ∷ s) = elim (last-cases s) [
  | inl e ↦ inr ([], c, ap (λ t. c ∷ t) e)
  | inr (p, d, e) ↦ inr (c ∷ p, d, ap (λ t. c ∷ t) e)
]

pub any-added : (f : ℕ → Bool) (p : Text) (d : ℕ) → any f (p ++ (d ∷ [])) ≡ false → f d ≡ false
any-added f [] d h = ground (arith, h)
any-added f (c ∷ p) d h = any-added f p d (ground (arith, h))

-- Nothing is trimmed of a text that holds no character to trim.
pub trim_none : (f : ℕ → Bool) (s : Text) → any f s ≡ false → trim f s ≡ s
trim_none f [] h = unfold trim trim_left in refl
trim_none f (c ∷ s) h = elim (last-cases (c ∷ s)) [
  | inl e ↦ cc e
  | inr (p, d, e) ↦
      trim-ends f c d s p (ground (arith, h)) (any-added f p d (subst (λ t. any f t ≡ false) e h)) e
]

length-trim_left : (f : ℕ → Bool) (s : Text) → length (trim_left f s) ≤ length s
unfolding trim_left
length-trim_left f [] = omega arith
length-trim_left f (c ∷ s) = ground (arith, length-trim_left f s)

length-trim : (f : ℕ → Bool) (s : Text) → length (trim f s) ≤ length (trim_left f s)
unfolding trim
length-trim f s = omega (
  arith,
  length-reverse (trim_left f (reverse (trim_left f s))),
  length-trim_left f (reverse (trim_left f s)),
  length-reverse (trim_left f s),
)

-- A text that trimming leaves whole begins with no character to trim.
pub trimmed_head : (f : ℕ → Bool) (c : ℕ) (s : Text) → trim f (c ∷ s) ≡ c ∷ s → f c ≡ false
trimmed_head f c s e = elim (Bool-cases (f c)) [
  | inl t ↦
      absurd
        (omega (arith, ap length e, length-trim f (c ∷ s), length-trim_left f s, shorter f c s t))
  | inr n ↦ n
]
  where
    shorter :
        (f : ℕ → Bool) (c : ℕ) (s : Text) → f c ≡ true → length (trim_left f (c ∷ s)) ≤ length s
    shorter f c s t = unfold trim_left in ground (arith, t, length-trim_left f s)
