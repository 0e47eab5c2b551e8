-- ===== src/Go/Glob/Laws.antt =====
-- What `filepath.Match` does on patterns without special characters, with and without one star at
-- their end.
use wireops.Prelude.{
  ℕ, zero, suc, ◌+◌, ◌<◌, ◌≡◌, refl, ◌↔◌, Bool, true, false, not, ◌||◌, none, some, [], ◌∷◌, ◌++◌,
  ◌==◌, arith, length, length-append, if◌then◌else◌, ap, ◌∙◌,
}
use wireops.Go.Text.{Text, contains_rune, text_eq}
use wireops.Go.Glob.{
  Chunk, bad, no_match, rest, scan, skip_stars, scan_chunk, match_chunk, match_loop, glob_match,
  fits_here, round, after_chunk, Round, return, go_on,
}

abbrev pub is_special : ℕ → Bool
is_special c = c == b'*' || c == b'?' || c == b'[' || c == b'\\'

abbrev pub IsLiteral : Text → Type 0
IsLiteral [] = Unit
IsLiteral (c ∷ p) = (is_special c ≡ false) × IsLiteral p

-- The scan of a chunk in a literal pattern stops at its end, or at the star that follows.
scan-literal : (b : Bool) (p : Text) → IsLiteral p → scan b p ≡ (p, [])
unfolding scan
scan-literal b [] h = refl
scan-literal b (c ∷ []) h = ground arith
scan-literal b (c ∷ d ∷ p) h = ground (
  arith,
  scan-literal true (d ∷ p) h.1,
  scan-literal false (d ∷ p) h.1,
  scan-literal b (d ∷ p) h.1,
)

scan-literal_star : (p : Text) → IsLiteral p → scan false (p ++ b'*' ∷ []) ≡ (p, b'*' ∷ [])
unfolding scan
scan-literal_star [] h = refl
scan-literal_star (c ∷ []) h = ground arith
scan-literal_star (c ∷ d ∷ p) h = ground (arith, scan-literal_star (d ∷ p) h.1)

abbrev strip : Text → Text → Chunk
strip [] name = rest name
strip (p ∷ chunk) [] = no_match
strip (p ∷ chunk) (c ∷ name) = if p == c then strip chunk name else no_match

match_chunk-failed :
    (fuel : ℕ) (p : Text) → length p < fuel → IsLiteral p → match_chunk fuel p none ≡ no_match
unfolding match_chunk
match_chunk-failed zero p lt h = absurd (omega arith)
match_chunk-failed (suc fuel) [] lt h = refl
match_chunk-failed (suc fuel) (c ∷ p) lt h = ground (arith, match_chunk-failed fuel p)

match_chunk-literal :
    (fuel : ℕ) (p name : Text)
    → length p < fuel
    → IsLiteral p
    → match_chunk fuel p (some name) ≡ strip p name
unfolding match_chunk
match_chunk-literal zero p name lt h = absurd (omega arith)
match_chunk-literal (suc fuel) [] name lt h = refl
match_chunk-literal (suc fuel) (c ∷ p) [] lt h = ground (arith, match_chunk-failed fuel p)
match_chunk-literal (suc fuel) (c ∷ p) (d ∷ name) lt h =
    ground (arith, match_chunk-failed fuel p, match_chunk-literal fuel p name)

strip-append : (p t : Text) → strip p (p ++ t) ≡ rest t
strip-append [] t = refl
strip-append (c ∷ p) t = ground (arith, strip-append p t)

strip-eq_rest : (p name t : Text) → strip p name ≡ rest t → name ≡ p ++ t
strip-eq_rest [] name t h = cc
strip-eq_rest (c ∷ p) [] t h = cc
strip-eq_rest (c ∷ p) (d ∷ name) t h = ground (arith, strip-eq_rest p name t)

abbrev crosses_no_slash : Chunk → Bool
crosses_no_slash (rest t) = not (contains_rune t b'/')
crosses_no_slash bad = false
crosses_no_slash no_match = false

skip_stars-literal : (c : ℕ) (p : Text) → is_special c ≡ false → skip_stars (c ∷ p) ≡ (false, c ∷ p)
unfolding skip_stars
skip_stars-literal c p h = ground arith

scan_chunk-literal_star :
    (c : ℕ) (p : Text)
    → IsLiteral (c ∷ p)
    → scan_chunk (c ∷ p ++ b'*' ∷ []) ≡ (false, c ∷ p, b'*' ∷ [])
unfolding scan_chunk
scan_chunk-literal_star c p h =
    rw (skip_stars-literal c (p ++ b'*' ∷ []) h.0) (rw (scan-literal_star (c ∷ p) h))

scan_chunk-literal :
    (c : ℕ) (p : Text) → IsLiteral (c ∷ p) → scan_chunk (c ∷ p) ≡ (false, c ∷ p, [])
unfolding scan_chunk
scan_chunk-literal c p h = rw (skip_stars-literal c p h.0) (rw (scan-literal false (c ∷ p) h))

round-literal_star :
    (c : ℕ) (p name : Text)
    → IsLiteral (c ∷ p)
    → round (false, c ∷ p, b'*' ∷ []) name ≡ after_chunk (b'*' ∷ []) (strip (c ∷ p) name)
unfolding round text_eq fits_here
round-literal_star c p name h =
    rw (match_chunk-literal (length (c ∷ p) + 1) (c ∷ p) name (omega arith) h)
      (star_round (strip (c ∷ p) name))
  where
    star_round :
        (k : Chunk)
        → (if fits_here false k then after_chunk (b'*' ∷ []) k else return false)
          ≡ after_chunk (b'*' ∷ []) k
    star_round bad = refl
    star_round no_match = refl
    star_round (rest []) = refl
    star_round (rest (d ∷ t)) = refl

-- What the rest of the loop makes of a round that goes on with `left`.
abbrev loop_result : ℕ → Round → Bool
loop_result fuel (return matched) = matched
loop_result fuel (go_on left name) = match_loop fuel left name

match_loop-round :
    (fuel c : ℕ) (p name : Text)
    → match_loop (suc fuel) (c ∷ p) name ≡ loop_result fuel (round (scan_chunk (c ∷ p)) name)
unfolding match_loop
match_loop-round fuel c p name = ground arith

loop_result-star :
    (fuel : ℕ) (k : Chunk) → loop_result (suc fuel) (after_chunk (b'*' ∷ []) k) ≡ crosses_no_slash k
unfolding after_chunk match_loop round scan_chunk text_eq
loop_result-star fuel bad = refl
loop_result-star fuel no_match = refl
loop_result-star fuel (rest t) = refl

match_loop-literal_star :
    (fuel : ℕ) (p name : Text)
    → IsLiteral p
    → match_loop (suc (suc fuel)) (p ++ b'*' ∷ []) name ≡ crosses_no_slash (strip p name)
match_loop-literal_star fuel [] name h = unfold match_loop round scan_chunk text_eq in refl
match_loop-literal_star fuel (c ∷ p) name h =
    match_loop-round (suc fuel) c (p ++ b'*' ∷ []) name
    ∙ ap (λ r. loop_result (suc fuel) (round r name)) (scan_chunk-literal_star c p h)
    ∙ ap (loop_result (suc fuel)) (round-literal_star c p name h)
    ∙ loop_result-star fuel (strip (c ∷ p) name)

glob_match-strip :
    (p name : Text)
    → IsLiteral p
    → glob_match (p ++ b'*' ∷ []) name ≡ crosses_no_slash (strip p name)
unfolding glob_match
glob_match-strip p name h =
    let e : length (p ++ b'*' ∷ []) + 1 ≡ suc (suc (length p)) =
      omega (arith, length-append p (b'*' ∷ [])) in
    rw e (match_loop-literal_star (length p) p name h)

-- A literal text with one star behind it matches the names that begin with the text and have no
-- "/" after it.
pub glob_match-literal_star :
    (p name : Text)
    → IsLiteral p
    → (glob_match (p ++ b'*' ∷ []) name ≡ true)
      ↔ ((t : Text) × (name ≡ p ++ t) × (contains_rune t b'/' ≡ false))
glob_match-literal_star p name h = (to (strip p name) refl, from)
  where
    to :
        (k : Chunk)
        → strip p name ≡ k
        → glob_match (p ++ b'*' ∷ []) name ≡ true
        → (t : Text) × (name ≡ p ++ t) × (contains_rune t b'/' ≡ false)
    to bad e m = cc (glob_match-strip p name h, ap crosses_no_slash e)
    to no_match e m = cc (glob_match-strip p name h, ap crosses_no_slash e)
    to (rest t) e m = (
      t,
      strip-eq_rest p name t e,
      ground (arith, glob_match-strip p name h, ap crosses_no_slash e),
    )

    from :
        (t : Text) × (name ≡ p ++ t) × (contains_rune t b'/' ≡ false)
        → glob_match (p ++ b'*' ∷ []) name ≡ true
    from (t, e, c) = rw (e, glob_match-strip p (p ++ t) h, strip-append p t) (ground (arith, c))
