-- ===== src/Go/Glob.antt =====
-- `filepath.Match` on Unix, as package path/filepath writes it: the pattern is taken chunk by
-- chunk, a star commits to the leftmost place where its chunk fits, and crosses no "/".
-- Places are code points. A star of filepath.Match steps by bytes, so that a "?" behind it can also match
-- a part of a character of several bytes, which is left out.
pub mod Laws
use wireops.Prelude.{
  ℕ, zero, suc, ◌+◌, ◌≡◌, refl, Bool, true, false, not, ◌&&◌, ◌||◌, Option, none, some, List, [],
  ◌∷◌, ◌++◌, leb, ◌==◌, if◌then◌else◌, any, length,
}
use wireops.Go.Text.{Text, codes, contains_rune, text_eq}

-- `scanChunk`: what follows the leading stars, up to the next star outside brackets.
scan : Bool → Text → Text × Text
scan inrange [] = ([], [])
scan inrange (c ∷ []) = if c == b'*' && not inrange then ([], c ∷ []) else (c ∷ [], [])
scan inrange (c ∷ d ∷ p) =
    let escaped = scan inrange p in
    let opened = scan true (d ∷ p) in
    let closed = scan false (d ∷ p) in
    let next = scan inrange (d ∷ p) in
    if c == b'\\'
    then (c ∷ d ∷ escaped.0, escaped.1)
    else if c == b'['
    then (c ∷ opened.0, opened.1)
    else if c == b']'
    then (c ∷ closed.0, closed.1)
    else if c == b'*' && not inrange
    then ([], c ∷ d ∷ p)
    else (c ∷ next.0, next.1)

skip_stars : Text → Bool × Text
skip_stars [] = (false, [])
skip_stars (c ∷ p) = let rest = skip_stars p in if c == b'*' then (true, rest.1) else (false, c ∷ p)

-- The flag says whether the chunk stood behind a star.
scan_chunk : Text → Bool × Text × Text
unfolding scan skip_stars
scan_chunk pattern =
    let (star, rest) = skip_stars pattern in
    let (chunk, left) = scan false rest in (star, chunk, left)

-- `getEsc`: a possibly escaped character of a class, `none` where the pattern is bad.
not_last : ℕ → Text → Option (ℕ × Text)
not_last r [] = none
not_last r (c ∷ chunk) = some (r, c ∷ chunk)

get_esc : Text → Option (ℕ × Text)
unfolding not_last
get_esc [] = none
get_esc (c ∷ []) = none
get_esc (c ∷ d ∷ chunk) =
    if c == b'-' || c == b']'
    then none
    else if c == b'\\'
    then not_last d chunk
    else some (c, d ∷ chunk)

-- The ranges of a class up to its closing bracket; `nrange` says that one was read.
class_end : Bool → Text → Option Text
class_end nrange [] = none
class_end nrange (c ∷ chunk) = if c == b']' && nrange then some chunk else none

range_high : ℕ → Text → Option (ℕ × Text)
unfolding get_esc
range_high lo [] = some (lo, [])
range_high lo (c ∷ chunk) = if c == b'-' then get_esc chunk else some (lo, c ∷ chunk)

add_range : ℕ × ℕ → Option (List (ℕ × ℕ) × Text) → Option (List (ℕ × ℕ) × Text)
add_range r none = none
add_range r (some (rs, chunk)) = some (r ∷ rs, chunk)

ranges : ℕ → Bool → Text → Option (List (ℕ × ℕ) × Text)
unfolding get_esc class_end range_high add_range
ranges zero nrange chunk = none
ranges (suc fuel) nrange chunk = elim (class_end nrange chunk) [
  | some rest ↦ some ([], rest)
  | none ↦ elim (get_esc chunk) [
    | none ↦ none
    | some (lo, rest) ↦ elim (range_high lo rest) [
      | none ↦ none
      | some (hi, rest') ↦ add_range (lo, hi) (ranges fuel true rest')
    ]
  ]
]

in_ranges : ℕ → List (ℕ × ℕ) → Bool
in_ranges r [] = false
in_ranges r ((lo, hi) ∷ rs) = (leb lo r && leb r hi) || in_ranges r rs

-- `matchChunk`: a bad pattern, no match, or what is left of the name.
pub data Chunk : Type 0 where
  bad : Chunk
  no_match : Chunk
  rest : Text → Chunk

-- The name that is left to read; `none` once the match has failed.
advance : (ℕ → Bool) → Option Text → Option Text
advance fits none = none
advance fits (some []) = none
advance fits (some (c ∷ name)) = if fits c then some name else none

literal : ℕ → ℕ → Bool
literal p c = p == c

negation : Text → Bool × Text
negation [] = (false, [])
negation (c ∷ chunk) = if c == b'^' then (true, chunk) else (false, c ∷ chunk)

in_class : Bool → List (ℕ × ℕ) → ℕ → Bool
unfolding in_ranges
in_class negated rs c = if negated then not (in_ranges c rs) else in_ranges c rs

finish_chunk : Option Text → Chunk
finish_chunk none = no_match
finish_chunk (some name) = rest name

match_chunk : ℕ → Text → Option Text → Chunk
unfolding advance literal negation in_class ranges finish_chunk
match_chunk zero chunk name = bad
match_chunk (suc fuel) [] name = finish_chunk name
match_chunk (suc fuel) (p ∷ chunk) name = elim (p == b'[') [
  | true ↦
      let (negated, inside) = negation chunk in
      elim (ranges (length chunk + 1) false inside) [
        | none ↦ bad
        | some (rs, chunk') ↦ match_chunk fuel chunk' (advance (in_class negated rs) name)
      ]
  | false ↦ elim (p == b'?') [
    | true ↦ match_chunk fuel chunk (advance (λ c. not (c == b'/')) name)
    | false ↦ elim (p == b'\\') [
      | true ↦ elim chunk [
        | [] ↦ bad
        | d ∷ chunk' ↦ match_chunk fuel chunk' (advance (literal d) name)
      ]
      | false ↦ match_chunk fuel chunk (advance (literal p) name)
    ]
  ]
]

-- The chunk behind a star, tried ever further to the right, but not past a "/"; the last chunk has
-- to end where the name does.
fits_here : Bool → Chunk → Bool
fits_here last bad = false
fits_here last no_match = false
fits_here last (rest []) = true
fits_here last (rest (_ ∷ _)) = not last

skip_to : Bool → Text → Text → Chunk
unfolding match_chunk fits_here
skip_to last chunk [] = no_match
skip_to last chunk (c ∷ name) =
    let later = skip_to last chunk name in
    let found = match_chunk (length chunk + 1) chunk (some name) in
    if c == b'/' then no_match else if fits_here last found then found else later

-- One round of the loop of `Match`: it returns, or goes on with the rest of pattern and name. A bad
-- pattern returns as one that does not fit: the caller does not tell the two apart.
pub data Round : Type 0 where
  return : Bool → Round
  go_on : Text → Text → Round

after_chunk : Text → Chunk → Round
after_chunk left bad = return false
after_chunk left no_match = return false
after_chunk left (rest name) = go_on left name

round : Bool × Text × Text → Text → Round
unfolding skip_to after_chunk
round (star, chunk, left) name =
    let last = text_eq left [] in
    let found = match_chunk (length chunk + 1) chunk (some name) in
    if star && text_eq chunk []
    then return (not (contains_rune name b'/'))
    else if fits_here last found
    then after_chunk left found
    else if star
    then after_chunk left (skip_to last chunk name)
    else return false

match_loop : ℕ → Text → Text → Bool
match_loop zero pattern name = false
match_loop (suc fuel) [] name = text_eq name []
match_loop (suc fuel) (p ∷ pattern) name = elim (round (scan_chunk (p ∷ pattern)) name) [
  | return matched ↦ matched
  | go_on left name' ↦ match_loop fuel left name'
]

-- `matched, err := filepath.Match(pattern, name)`, as `err == nil && matched`. Each round takes a
-- character of the pattern at least.
unfoldable pub glob_match : Text → Text → Bool
unfolding match_loop round scan_chunk text_eq contains_rune
glob_match pattern name = match_loop (length pattern + 1) pattern name

any_tag : glob_match (codes "nginx:*") (codes "nginx:1.27") ≡ true
unfolding glob_match
any_tag = refl

no_slash : glob_match (codes "ghcr.io/*") (codes "ghcr.io/org/app") ≡ false
unfolding glob_match
no_slash = refl

classes : glob_match (codes "app-[a-c^]?*\\*x") (codes "app-b1yy*x") ≡ true
unfolding glob_match
classes = refl
