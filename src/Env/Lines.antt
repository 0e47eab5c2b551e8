-- ===== src/Env/Lines.antt =====
-- One line of the .env file, from the server's writer to the worker's reader.
use mathlib.Core.Path.{subst}
use wireops.Prelude.{
  ℕ, ◌≡◌, refl, sym, ap, Bool, true, false, ◌&&◌, not, [], ◌∷◌, ◌++◌, arith, any, ◌==◌, Bool-cases,
  inl, inr, ◌⊎◌,
}
use wireops.Go.Text.{Text, contains_rune, is_space, trim}
use wireops.Go.Cuts.{contains_rune-append}
use wireops.Go.Trim.{trim-ends, trim_none, last-cases, any-added}
use wireops.Env.{
  is_special, needs_quote, escape_rune, escape, between, is_single_quotable, quote_env_value,
}

-- White space next to the blanks, tabs and line ends that the writer puts between quotes.
abbrev pub is_odd_space : ℕ → Bool
is_odd_space c = is_space c && not (is_special c)

pub any-contains_rune :
    (f : ℕ → Bool) (s : Text) (c : ℕ) → f c ≡ true → any f s ≡ false → contains_rune s c ≡ false
unfolding contains_rune
any-contains_rune f [] c t h = refl
any-contains_rune f (x ∷ s) c t h = elim (Bool-cases (x == c)) [
  | inl e ↦ let e' : x ≡ c = ground arith in absurd (cc_bool (subst (λ y. f y ≡ true) (sym e') t) h)
  | inr n ↦ ground (arith, n, any-contains_rune f s c t)
]
  where
    cc_bool : f x ≡ true → any f (x ∷ s) ≡ false → ⊥
    cc_bool t h = ground (arith, t, h)

escape_rune-one_line : (c : ℕ) → contains_rune (escape_rune c) b'\n' ≡ false
unfolding escape_rune contains_rune
escape_rune-one_line c = ground arith

escape-one_line : (s : Text) → contains_rune (escape s) b'\n' ≡ false
unfolding escape
escape-one_line [] = unfold contains_rune in refl
escape-one_line (c ∷ s) =
    rw (contains_rune-append (escape_rune c) (escape s) b'\n', escape_rune-one_line c)
      (escape-one_line s)

between-one_line :
    (q : ℕ) (s : Text)
    → (q == b'\n') ≡ false
    → contains_rune s b'\n' ≡ false
    → contains_rune (between q s) b'\n' ≡ false
unfolding contains_rune
between-one_line q s n h = ground (arith, n, h, contains_rune-append s (q ∷ []) b'\n')

-- What a value is written as: itself, or something between quotes.
pub data Written (val : Text) : Text → Type 0 where
  plain : any is_special val ≡ false → Written val val
  quoted :
      (q : ℕ) (s : Text)
      → (q ≡ b'\'') ⊎ (q ≡ b'"')
      → contains_rune s b'\n' ≡ false
      → Written val (between q s)

pub quote-Written : (val : Text) → Written val (quote_env_value val)
unfolding quote_env_value
quote-Written val = elim (Bool-cases (needs_quote val)) [
  | inl y ↦ elim (Bool-cases (is_single_quotable val)) [
    | inl e ↦ rw y (rw e (quoted b'\'' val (inl refl) (ground arith)))
    | inr e ↦ rw y (rw e (quoted b'"' (escape val) (inr refl) (escape-one_line val)))
  ]
  | inr n ↦ rw n (plain (unfold needs_quote in ground (arith, n)))
]

pub Written-one_line : {val q : Text} → Written val q → contains_rune q b'\n' ≡ false
Written-one_line {val} (plain n) = any-contains_rune is_special val b'\n' refl n
Written-one_line (quoted q s (inl e) n) = between-one_line q s (ground (arith, e)) n
Written-one_line (quoted q s (inr e) n) = between-one_line q s (ground (arith, e)) n

plain-no_space :
    (s : Text) → any is_special s ≡ false → any is_odd_space s ≡ false → any is_space s ≡ false
plain-no_space [] n o = refl
plain-no_space (c ∷ s) n o = ground (arith, n, o, plain-no_space s)

quote-not_space : (q : ℕ) → (q ≡ b'\'') ⊎ (q ≡ b'"') → is_space q ≡ false
unfolding is_space
quote-not_space q (inl e) = rw e refl
quote-not_space q (inr e) = rw e refl

-- What is written has no white space at its ends.
pub Written-trimmed :
    {val q : Text} → any is_odd_space val ≡ false → Written val q → trim is_space q ≡ q
Written-trimmed {val} o (plain n) = trim_none is_space val (plain-no_space val n o)
Written-trimmed o (quoted q s h n) =
    trim-ends is_space q q (s ++ (q ∷ [])) (q ∷ s) (quote-not_space q h) (quote-not_space q h) refl

pub Written-end :
    {val q : Text}
    → any is_odd_space val ≡ false
    → Written val q
    → (p : Text) × (d : ℕ) × (b'=' ∷ q ≡ p ++ (d ∷ [])) × (is_space d ≡ false)
unfolding is_space
Written-end {val} o (plain n) = elim (last-cases val) [
  | inl e ↦ ([], b'=', ap (λ t. b'=' ∷ t) e, refl)
  | inr (p, d, e) ↦ (
    b'=' ∷ p,
    d,
    ap (λ t. b'=' ∷ t) e,
    any-added is_space p d (subst (λ t. any is_space t ≡ false) e (plain-no_space val n o)),
  )
]
Written-end o (quoted q s h n) = (b'=' ∷ q ∷ s, q, refl, quote-not_space q h)
