-- ===== src/Policy/Images.antt =====
-- internal/policy/policy.go: which images a policy permits, described without the loops.
use wireops.Prelude.{
  ◌≡◌, ◌↔◌, ◌⊎◌, inl, inr, true, false, none, List, [], ◌∷◌, ◌++◌, arith, All, Bool-cases,
}
use wireops.Go.Text.{Text, text_eq, text_eq_iff, contains_rune}
use wireops.Go.Glob.{glob_match}
use wireops.Go.Glob.Laws.{IsLiteral, glob_match-literal_star}
use wireops.Policy.{
  WorkerPolicy, image_not_listed, elems, match_pattern, validate_image, validate_images,
  is_latest_or_untagged,
}
use wireops.Policy.Tags.{IsPinned, is_latest_or_untagged_iff}
use wireops.Policy.Allow.{IsOpenOr, check_list_iff, switched_loop_iff}

-- A pattern names the image, or matches it as a glob.
abbrev pub Names : Text → Text → Type 0
Names image pattern = (pattern ≡ image) ⊎ (glob_match pattern image ≡ true)

abbrev pub IsPermittedImage : WorkerPolicy → Text → Type 0
IsPermittedImage p image =
    (p.prevent_latest_images ≡ true → IsPinned image)
    × IsOpenOr (Names image) (elems p.allowed_images)

match_pattern_iff :
    (image pattern : Text) → (match_pattern image pattern ≡ true) ↔ Names image pattern
unfolding match_pattern
match_pattern_iff image pattern = (
  λ h. elim (Bool-cases (text_eq pattern image)) [
    | inl e ↦ inl ((text_eq_iff pattern image).0 e)
    | inr e ↦ inr (ground arith)
  ],
  elim [ inl e ↦ ground (arith, (text_eq_iff pattern image).1 e) | inr g ↦ ground (arith, g) ],
)

validate_image_iff :
    (p : WorkerPolicy) (image : Text) → (validate_image p image ≡ none) ↔ IsPermittedImage p image
unfolding validate_image
validate_image_iff p image =
    let listed =
      check_list_iff (match_pattern image) (image_not_listed image) (match_pattern_iff image)
        (elems p.allowed_images) in
    let pinned = is_latest_or_untagged_iff image in
    (
      λ h. (λ b. pinned.0 (ground arith), listed.0 (ground arith)),
      λ (tagged, l).
          let fixed : p.prevent_latest_images ≡ true → is_latest_or_untagged image ≡ false =
            λ b. pinned.1 (tagged b) in
          ground (arith, listed.1 l, fixed),
    )

-- The images pass exactly if the policy is disabled, or it permits each: with a tag that is not empty
-- and not latest where that is asked for, and named by a pattern of the list unless the list is empty.
-- The tag stands behind the last colon of what precedes the first "@", and no slash follows that colon.
pub validate_images_iff :
    (p : WorkerPolicy) (images : List Text)
    → (validate_images p images ≡ none) ↔ ((p.disabled ≡ true) ⊎ All (IsPermittedImage p) images)
unfolding validate_images
validate_images_iff p images = switched_loop_iff p.disabled _ (validate_image_iff p) images

-- A pattern that is a literal text with one star behind it names itself and the images that begin
-- with the text and have no slash after it: the star stops at a slash.
pub match_pattern-star_iff :
    (image p : Text)
    → IsLiteral p
    → (match_pattern image (p ++ (b'*' ∷ [])) ≡ true) ↔ (
        (p ++ (b'*' ∷ []) ≡ image)
        ⊎ ((t : Text) × (image ≡ p ++ t) × (contains_rune t b'/' ≡ false)))
match_pattern-star_iff image p h =
    let (to, from) = match_pattern_iff image (p ++ (b'*' ∷ [])) in
    let (split_star, match_star) = glob_match-literal_star p image h in
    (
      λ e. elim (to e) [ inl s ↦ inl s | inr g ↦ inr (split_star g) ],
      elim [ inl s ↦ from (inl s) | inr t ↦ from (inr (match_star t)) ],
    )
