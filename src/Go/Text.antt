-- ===== src/Go/Text.antt =====
-- Go strings as lists of code points, and the functions of package strings that the code calls.
-- Every string is taken to be valid UTF-8, so that code points compare as bytes do.
use Prim.Native.Char.{code}
use Prim.Native.String.{String}
use wireops.Prelude.{
  ℕ, zero, suc, ◌+◌, ◌≡◌, refl, ◌↔◌, Bool, true, false, ◌&&◌, ◌||◌, List, [], ◌∷◌, ◌++◌, map, arith,
  leb, ltb, ◌==◌, ◌≢◌, ◌⊎◌, inl, inr, Bool-cases, if◌then◌else◌,
}
use mathlib.Core.List.{reverse}

abbrev pub Text : Type 0
Text = List ℕ

abbrev pub codes : String → Text
codes String.[] = []
codes (String.◌∷◌ c s) = code c ∷ codes s

unfoldable pub text_eq : Text → Text → Bool
text_eq [] [] = true
text_eq (a ∷ s) (b ∷ t) = a == b && text_eq s t
text_eq _ _ = false

pub text_eq_iff : (s t : Text) → (text_eq s t ≡ true) ↔ (s ≡ t)
unfolding text_eq
text_eq_iff [] [] = ((λ _. refl), (λ _. refl))
text_eq_iff [] (b ∷ t) = ground arith
text_eq_iff (a ∷ s) [] = ground arith
text_eq_iff (a ∷ s) (b ∷ t) = ground (arith, text_eq_iff s t)

pub text_eq_refl : (s : Text) → text_eq s s ≡ true
text_eq_refl s = (text_eq_iff s s).1 refl

pub text_eq-apart : {s t : Text} → s ≢ t → text_eq s t ≡ false
text_eq-apart {s} {t} n = elim (Bool-cases (text_eq s t)) [
  | inl e ↦ absurd (n ((text_eq_iff s t).0 e))
  | inr f ↦ f
]

pub Text-cases : (s t : Text) → (s ≡ t) ⊎ (s ≢ t)
Text-cases s t = elim (Bool-cases (text_eq s t)) [
  | inl e ↦ inl ((text_eq_iff s t).0 e)
  | inr f ↦ inr (λ e. cc (f, (text_eq_iff s t).1 e))
]

abbrev pub is_empty : Text → Bool
is_empty [] = true
is_empty (_ ∷ _) = false

-- `strings.HasPrefix(s, prefix)`.
unfoldable pub has_prefix : Text → Text → Bool
has_prefix s [] = true
has_prefix [] (p ∷ pre) = false
has_prefix (c ∷ s) (p ∷ pre) = c == p && has_prefix s pre

pub has_prefix-append : (pre rest : Text) → has_prefix (pre ++ rest) pre ≡ true
unfolding has_prefix
has_prefix-append [] rest = refl
has_prefix-append (p ∷ pre) rest = ground (arith, has_prefix-append pre rest)

-- What a string with the prefix is made of.
pub has_prefix-split : (s pre : Text) → has_prefix s pre ≡ true → (rest : Text) × (s ≡ pre ++ rest)
unfolding has_prefix
has_prefix-split s [] h = (s, refl)
has_prefix-split [] (p ∷ pre) h = ground arith
has_prefix-split (c ∷ s) (p ∷ pre) h =
    let (rest, e) = has_prefix-split s pre (ground arith) in (rest, ground (arith, e))

unfoldable pub contains_rune : Text → ℕ → Bool
contains_rune [] c = false
contains_rune (x ∷ s) c = x == c || contains_rune s c

-- The part before the first `c`, and what follows it.
unfoldable pub before : ℕ → Text → Text
before c [] = []
before c (x ∷ s) = let rest = before c s in if x == c then [] else x ∷ rest

unfoldable pub after : ℕ → Text → Text
after c [] = []
after c (x ∷ s) = let rest = after c s in if x == c then s else rest

-- What follows the last `c`: `s[strings.LastIndex(s, c)+1:]`, the whole of `s` where there is none.
unfoldable pub after_last : ℕ → Text → Text
after_last c [] = []
after_last c (x ∷ s) =
    let rest = after_last c s in if contains_rune s c then rest else if x == c then s else x ∷ s

-- `strings.SplitN(s, sep, n)` for a separator of one character and n > 0.
unfoldable pub split_n : ℕ → Text → ℕ → List Text
split_n c s zero = []
split_n c s (suc zero) = s ∷ []
split_n c s (suc (suc n)) =
    let rest = split_n c (after c s) (suc n) in
    if contains_rune s c then before c s ∷ rest else s ∷ []

-- `strings.Split(s, sep)` for a separator of one character: it has one part at least.
abbrev pub push_front : ℕ → List Text → List Text
push_front x [] = (x ∷ []) ∷ []
push_front x (part ∷ parts) = (x ∷ part) ∷ parts

unfoldable pub split : ℕ → Text → List Text
split c [] = [] ∷ []
split c (x ∷ s) = let rest = split c s in if x == c then [] ∷ rest else push_front x rest

-- `parts[0]`, of a slice that has one part at least.
abbrev pub first_part : List Text → Text
first_part [] = []
first_part (p ∷ _) = p

pub before-no_sep : (c : ℕ) (s : Text) → contains_rune s c ≡ false → before c s ≡ s
unfolding before contains_rune
before-no_sep c [] h = refl
before-no_sep c (x ∷ s) h = ground (arith, before-no_sep c s)

pub first_part-split_n :
    (c : ℕ) (s : Text) (n : ℕ) → first_part (split_n c s (suc (suc n))) ≡ before c s
unfolding split_n
first_part-split_n c s n = ground (arith, before-no_sep c s)

-- `unicode.IsSpace`.
unfoldable pub is_space : ℕ → Bool
is_space c =
    (leb 9 c && leb c 13)
    || c == 32
    || c == 133
    || c == 160
    || c == 0x1680
    || (leb 0x2000 c && leb c 0x200a)
    || c == 0x2028
    || c == 0x2029
    || c == 0x202f
    || c == 0x205f
    || c == 0x3000

unfoldable pub trim_left : (ℕ → Bool) → Text → Text
trim_left f [] = []
trim_left f (c ∷ s) = let rest = trim_left f s in if f c then rest else c ∷ s

-- `strings.TrimFunc`; `strings.TrimSpace`; `strings.Trim` with its cutset as a test.
unfoldable pub trim : (ℕ → Bool) → Text → Text
unfolding trim_left
trim f s = reverse (trim_left f (reverse (trim_left f s)))

unfoldable pub trim_space : Text → Text
unfolding trim is_space
trim_space s = trim is_space s

-- `strings.TrimPrefix` with a prefix of one character.
abbrev pub trim_prefix : ℕ → Text → Text
trim_prefix c [] = []
trim_prefix c (x ∷ s) = if x == c then s else x ∷ s

-- `unicode.ToLower` as far as comparison with ASCII text sees it: the capitals of ASCII, and the
-- two characters outside it whose small letter is in ASCII (U+0130 and U+212A).
unfoldable pub to_lower_rune : ℕ → ℕ
to_lower_rune c =
    if leb 65 c && leb c 90
    then c + 32
    else if c == 0x130
    then 105
    else if c == 0x212a
    then 107
    else c

unfoldable pub to_lower : Text → Text
unfolding to_lower_rune
to_lower s = map to_lower_rune s

-- `len(s)`: the bytes of the characters in UTF-8.
unfoldable pub rune_length : ℕ → ℕ
rune_length c = if ltb c 0x80 then 1 else if ltb c 0x800 then 2 else if ltb c 0x10000 then 3 else 4

unfoldable pub byte_length : Text → ℕ
byte_length [] = 0
byte_length (c ∷ s) = rune_length c + byte_length s

pub byte_length-append : (s t : Text) → byte_length (s ++ t) ≡ byte_length s + byte_length t
unfolding byte_length
byte_length-append [] t = omega arith
byte_length-append (c ∷ s) t = omega (arith, byte_length-append s t)
