-- ===== src/Go/Cuts.antt =====
-- Texts that are cut at their first separator or behind their last one.
use wireops.Prelude.{
  ℕ, ◌≡◌, refl, ap, ◌⊎◌, inl, inr, true, false, ◌||◌, [], ◌∷◌, ◌++◌, arith, ◌==◌, ==_iff,
  Bool-cases,
}
use wireops.Go.Text.{Text, contains_rune, before, after_last}

pub contains_rune-append :
    (s t : Text) (c : ℕ) → contains_rune (s ++ t) c ≡ (contains_rune s c || contains_rune t c)
unfolding contains_rune
contains_rune-append [] t c = refl
contains_rune-append (x ∷ s) t c = ground (arith, contains_rune-append s t c)

pub before-free : (c : ℕ) (s : Text) → contains_rune (before c s) c ≡ false
unfolding before contains_rune
before-free c [] = refl
before-free c (x ∷ s) = ground (arith, before-free c s)

pub before-split :
    (c : ℕ) (s : Text) → (s ≡ before c s) ⊎ ((rest : Text) × (s ≡ before c s ++ (c ∷ rest)))
unfolding before
before-split c [] = inl refl
before-split c (x ∷ s) = elim (Bool-cases (x == c)) [
  | inl e ↦ inr (s, rw (e, before) (ap (λ y. y ∷ s) ((==_iff x c).0 e)))
  | inr f ↦ elim (before-split c s) [
    | inl e ↦ inl (rw (f, before) (ap (λ t. x ∷ t) e))
    | inr (rest, e) ↦ inr (rest, rw (f, before) (ap (λ t. x ∷ t) e))
  ]
]

pub before-append :
    (c : ℕ) (s rest : Text) → contains_rune s c ≡ false → before c (s ++ (c ∷ rest)) ≡ s
unfolding before contains_rune
before-append c [] rest h = ground arith
before-append c (x ∷ s) rest h = ground (arith, h, before-append c s rest)

pub after_last-free : (c : ℕ) (s : Text) → contains_rune (after_last c s) c ≡ false
unfolding after_last contains_rune
after_last-free c [] = refl
after_last-free c (x ∷ s) = ground (arith, after_last-free c s)

after_last-no_sep : (c : ℕ) (s : Text) → contains_rune s c ≡ false → after_last c s ≡ s
unfolding after_last contains_rune
after_last-no_sep c [] h = refl
after_last-no_sep c (x ∷ s) h = ground (arith, h)

-- The part behind the last separator ends the text.
pub after_last-ends : (c : ℕ) (s : Text) → (pre : Text) × (s ≡ pre ++ after_last c s)
unfolding after_last contains_rune
after_last-ends c [] = ([], refl)
after_last-ends c (x ∷ s) = elim (Bool-cases (contains_rune s c)) [
  | inl e ↦
      let (pre, at) = after_last-ends c s in (x ∷ pre, rw (e, after_last) (ap (λ t. x ∷ t) at))
  | inr f ↦ elim (Bool-cases (x == c)) [
    | inl g ↦ (x ∷ [], rw (f, after_last) (rw g refl))
    | inr g ↦ ([], rw (f, after_last) (rw g refl))
  ]
]

pub after_last-split :
    (c : ℕ) (s : Text) → contains_rune s c ≡ true → (pre : Text) × (s ≡ pre ++ (c ∷ after_last c s))
unfolding after_last contains_rune
after_last-split c [] h = cc h
after_last-split c (x ∷ s) h = elim (Bool-cases (contains_rune s c)) [
  | inl e ↦
      let (pre, at) = after_last-split c s e in (x ∷ pre, rw (e, after_last) (ap (λ t. x ∷ t) at))
  | inr f ↦ elim (Bool-cases (x == c)) [
    | inl g ↦ ([], rw (f, after_last) (rw g (ap (λ y. y ∷ s) ((==_iff x c).0 g))))
    | inr g ↦ absurd (ground (arith, h, f, g))
  ]
]

-- What has no separator stays behind the last one.
pub after_last-append :
    (c : ℕ) (s t : Text) → contains_rune t c ≡ false → after_last c (s ++ t) ≡ after_last c s ++ t
unfolding after_last contains_rune
after_last-append c [] t h = after_last-no_sep c t h
after_last-append c (x ∷ s) t h =
    ground (arith, h, after_last-append c s t h, contains_rune-append s t c)

pub after_last-behind :
    (c : ℕ) (s t : Text) → contains_rune t c ≡ false → after_last c (s ++ (c ∷ t)) ≡ t
unfolding after_last contains_rune
after_last-behind c [] t h = ground (arith, h)
after_last-behind c (x ∷ s) t h =
    ground (arith, h, after_last-behind c s t h, contains_rune-append s (c ∷ t) c)
