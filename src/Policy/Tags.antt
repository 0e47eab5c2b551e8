-- ===== src/Policy/Tags.antt =====
-- internal/policy/policy.go: which images count as untagged or as latest, described without the
-- searches for the separators.
use mathlib.Core.List.{append_assoc}
use wireops.Prelude.{
  ◌≡◌, ◌≢◌, refl, sym, ap, ◌∙◌, ◌↔◌, ◌⊎◌, inl, inr, true, false, ◌||◌, [], ◌∷◌, ◌++◌, arith,
  Bool-cases,
}
use wireops.Go.Text.{
  Text, codes, text_eq, text_eq_iff, text_eq-apart, is_empty, contains_rune, before, before-no_sep,
  after_last,
}
use wireops.Go.Cuts.{
  contains_rune-append, before-free, before-split, before-append, after_last-free, after_last-ends,
  after_last-split, after_last-append, after_last-behind,
}
use wireops.Policy.{is_latest_or_untagged}

-- The reference of an image: what stands before its first "@".
abbrev pub IsReference : Text → Text → Type 0
IsReference image ref =
    (contains_rune ref b'@' ≡ false)
    × ((image ≡ ref) ⊎ ((digest : Text) × (image ≡ ref ++ (b'@' ∷ digest))))

-- The tag of a reference: what stands behind its last colon, unless a slash follows that colon.
abbrev pub IsTag : Text → Text → Type 0
IsTag ref tag =
    (contains_rune tag b':' ≡ false)
    × (contains_rune tag b'/' ≡ false)
    × ((name : Text) × (ref ≡ name ++ (b':' ∷ tag)))

-- An image with a tag that is not empty and not "latest".
abbrev pub IsPinned : Text → Type 0
IsPinned image =
    (ref : Text) × (tag : Text) × IsReference image ref
    × IsTag ref tag
    × (tag ≢ [])
    × (tag ≢ codes "latest")

before-IsReference : (image : Text) → IsReference image (before b'@' image)
before-IsReference image = (before-free b'@' image, before-split b'@' image)

before-reference : (image ref : Text) → IsReference image ref → before b'@' image ≡ ref
before-reference image ref (free, inl e) = ap (before b'@') e ∙ before-no_sep b'@' ref free
before-reference image ref (free, inr (digest, e)) =
    ap (before b'@') e ∙ before-append b'@' ref digest free

-- A tag that is neither empty nor "latest".
abbrev IsFixed : Text → Type 0
IsFixed tag = (tag ≢ []) × (tag ≢ codes "latest")

not_latest_iff :
    (tag : Text) → ((is_empty tag || text_eq tag (codes "latest")) ≡ false) ↔ IsFixed tag
not_latest_iff [] = (λ h. cc h, λ h. absurd (h.0 refl))
not_latest_iff (c ∷ tag) = (
  λ h. (λ e. cc e, λ e. cc (h, (text_eq_iff (c ∷ tag) (codes "latest")).1 e)),
  λ h. text_eq-apart h.1,
)

-- The part behind the last slash has a colon exactly if the reference has a tag, the part behind the
-- last colon of it.
after_last-IsTag :
    (ref : Text)
    → contains_rune (after_last b'/' ref) b':' ≡ true
    → IsTag ref (after_last b':' (after_last b'/' ref))
after_last-IsTag ref h =
    let (pre, e) = after_last-ends b'/' ref in
    let (mid, f) = after_last-split b':' (after_last b'/' ref) h in
    let slashes = after_last-free b'/' ref in
    let parts = contains_rune-append mid (b':' ∷ after_last b':' (after_last b'/' ref)) b'/' in
    (
      after_last-free b':' (after_last b'/' ref),
      unfold contains_rune in ground (arith, ap (λ t. contains_rune t b'/') f, slashes, parts),
      (pre ++ mid, e ∙ ap (λ t. pre ++ t) f ∙ sym (append_assoc pre mid _)),
    )

tagged-suffix :
    (ref tag : Text)
    → IsTag ref tag
    → (contains_rune (after_last b'/' ref) b':' ≡ true)
      × (after_last b':' (after_last b'/' ref) ≡ tag)
unfolding contains_rune
tagged-suffix ref tag (colon, slash, (name, e)) =
    let behind : after_last b'/' ref ≡ after_last b'/' name ++ (b':' ∷ tag) =
      ap (after_last b'/') e ∙ after_last-append b'/' name (b':' ∷ tag) slash in
    (
      ap (λ t. contains_rune t b':') behind
          ∙ contains_rune-append (after_last b'/' name) (b':' ∷ tag) b':'
          ∙ ground arith,
      ap (after_last b':') behind ∙ after_last-behind b':' (after_last b'/' name) tag colon,
    )

-- An image passes the exclusion of the tag latest exactly if it is pinned.
pub is_latest_or_untagged_iff :
    (image : Text) → (is_latest_or_untagged image ≡ false) ↔ IsPinned image
unfolding is_latest_or_untagged
is_latest_or_untagged_iff image =
    let ref = before b'@' image in
    (
      λ h. elim (Bool-cases (contains_rune (after_last b'/' ref) b':')) [
        | inl has ↦
            let (full, other) = (not_latest_iff _).0 (rw has at h) in
            (
              ref,
              after_last b':' (after_last b'/' ref),
              before-IsReference image,
              after_last-IsTag ref has,
              full,
              other,
            )
        | inr lacks ↦ cc (rw lacks at h)
      ],
      λ (r, tag, is_reference, is_tag, full, other).
          let at = before-reference image r is_reference in
          let (has, same) = tagged-suffix r tag is_tag in
          rw (at, has, same) ((not_latest_iff tag).1 (full, other)),
    )
