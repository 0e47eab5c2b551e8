-- ===== src/Policy/Volumes.antt =====
-- internal/policy/policy.go: which volumes a policy permits, described without the loops.
use wireops.Prelude.{
  any, any_iff, sym, ◌≡◌, refl, ap, ◌∙◌, ◌↔◌, ◌⊎◌, inl, inr, true, false, ◌||◌, none, List, [], ◌∷◌,
  ◌++◌, arith, All, In, here, there, Bool-cases,
}
use wireops.Go.Text.{
  Text, codes, text_eq, text_eq_iff, has_prefix, has_prefix-append, has_prefix-split, before,
  first_part-split_n,
}
use wireops.Go.Path.{slash, clean, clean_root}
use wireops.Go.Path.Laws.{clean-no_double_slash}
use mathlib.Core.Path.{subst}
use wireops.Policy.{
  WorkerPolicy, elems, is_host_path, volume_allowed, validate_volume_source, validate_single_volume,
  validate_volumes, volume_not_listed,
}
use wireops.Policy.Allow.{IsOpenOr, check_list_iff, switched_loop_iff}

-- The source of a volume or mount: what stands before its first colon.
abbrev pub source_of : Text → Text
source_of = before b':'

-- A path that is the allowed one, or begins with it and one more slash.
abbrev pub IsWithin : Text → Text → Type 0
IsWithin host allowed = (host ≡ allowed) ⊎ ((rest : Text) × (host ≡ (allowed ++ slash) ++ rest))

-- A source that is a path of the host: it begins with one of the four marks.
abbrev pub host_marks : List Text
host_marks = codes "/" ∷ codes "./" ∷ codes "../" ∷ codes "~" ∷ []

abbrev pub IsHostPath : Text → Type 0
IsHostPath src = (mark : Text) × (rest : Text) × In mark host_marks × (src ≡ mark ++ rest)

-- What an entry of the allow list asks: that a host path lies within it, that a named volume is it.
abbrev pub Allows : Text → Text → Type 0
Allows host allowed =
    (IsHostPath host × IsWithin (clean host) (clean allowed))
    ⊎ ((¬ (IsHostPath host)) × (host ≡ allowed))

is_host_path-any : (src : Text) → is_host_path src ≡ any (has_prefix src) host_marks
unfolding is_host_path
is_host_path-any src = ground arith

is_host_path_iff : (src : Text) → (is_host_path src ≡ true) ↔ IsHostPath src
is_host_path_iff src =
    let (to, from) = any_iff (has_prefix src) host_marks in
    (
      λ h.
          let (mark, i, begins) = to (sym (is_host_path-any src) ∙ h) in
          let (rest, e) = has_prefix-split src mark begins in (mark, rest, i, e),
      λ (mark, rest, i, e).
          is_host_path-any src
          ∙ from (mark, i, ap (λ t. has_prefix t mark) e ∙ has_prefix-append mark rest),
    )

IsWithin-iff :
    (host allowed : Text)
    → ((text_eq host allowed || has_prefix host (allowed ++ slash)) ≡ true) ↔ IsWithin host allowed
IsWithin-iff host allowed = (
  λ h. elim (Bool-cases (text_eq host allowed)) [
    | inl e ↦ inl ((text_eq_iff host allowed).0 e)
    | inr e ↦ inr (has_prefix-split host (allowed ++ slash) (ground arith))
  ],
  elim [
    | inl e ↦ ground (arith, (text_eq_iff host allowed).1 e)
    | inr (rest, e) ↦ ground (arith, e, has_prefix-append (allowed ++ slash) rest)
  ],
)

volume_allowed_iff :
    (host a : Text) → (volume_allowed (is_host_path host) host a ≡ true) ↔ Allows host a
unfolding volume_allowed
volume_allowed_iff host a = elim (Bool-cases (is_host_path host)) [
  | inl bind ↦
      let (to, from) = IsWithin-iff (clean host) (clean a) in
      (
        λ h. inl ((is_host_path_iff host).0 bind, to (rw bind at h)),
        elim [
          | inl (path, w) ↦ rw bind (from w)
          | inr (named, e) ↦ absurd (named ((is_host_path_iff host).0 bind))
        ],
      )
  | inr named ↦
      let (to, from) = text_eq_iff host a in
      let other : ¬ (IsHostPath host) = λ path. cc (named, (is_host_path_iff host).1 path) in
      (
        λ h. inr (other, to (rw named at h)),
        elim [ inl (path, w) ↦ absurd (other path) | inr (n, e) ↦ rw named (from e) ],
      )
]

-- What the policy asks of a volume source: no host path where those are blocked, and an entry that
-- allows it unless the list is empty.
abbrev pub IsPermittedVolume : WorkerPolicy → Text → Type 0
IsPermittedVolume p host =
    (p.block_host_volumes ≡ true → ¬ (IsHostPath host))
    × IsOpenOr (Allows host) (elems p.allowed_volumes)

validate_volume_source_iff :
    (p : WorkerPolicy) (host : Text)
    → (validate_volume_source p host ≡ none) ↔ IsPermittedVolume p host
unfolding validate_volume_source
validate_volume_source_iff p host =
    let listed =
      check_list_iff (volume_allowed (is_host_path host) host) (volume_not_listed host)
        (volume_allowed_iff host) (elems p.allowed_volumes) in
    (
      λ h. (λ b path. ground (arith, (is_host_path_iff host).1 path), listed.0 (ground arith)),
      λ (open_, l).
          let named : p.block_host_volumes ≡ true → is_host_path host ≡ false = λ b.
            elim (Bool-cases (is_host_path host)) [
              | inl path ↦ absurd (open_ b ((is_host_path_iff host).0 path))
              | inr f ↦ f
            ] in
          ground (arith, listed.1 l, named),
    )

-- The volumes pass exactly if the policy is disabled, or it permits the source of each: no path of the
-- host where those are blocked, and an entry of the allow list that fits unless the list is empty. An
-- entry fits a path if, both cleaned, it is the path, or the entry with one more slash behind it begins
-- the path, so that the root and "." fit only themselves; it fits a named volume if it is the name.
pub validate_volumes_iff :
    (p : WorkerPolicy) (volumes : List Text)
    → (validate_volumes p volumes ≡ none)
      ↔ ((p.disabled ≡ true) ⊎ All (λ vol. IsPermittedVolume p (source_of vol)) volumes)
unfolding validate_volumes validate_single_volume
validate_volumes_iff p volumes =
    switched_loop_iff p.disabled _
      (λ vol. rw (first_part-split_n b':' vol 1) (validate_volume_source_iff p (source_of vol)))
      volumes

root_within : (host : Text) → IsWithin (clean host) (clean slash) → clean host ≡ slash
root_within host (inl e) = e ∙ clean_root
root_within host (inr (rest, e)) = cc (
  clean-no_double_slash host,
  e,
  ap (λ (r : Text). has_prefix ((r ++ slash) ++ rest) (slash ++ slash)) clean_root,
  has_prefix-append (slash ++ slash) rest,
)

In-one : {a b : Text} → In a (b ∷ []) → a ≡ b
In-one here = refl
In-one (there i) = elim i [ ]

listed_root :
    (host : Text) {allowed : List Text}
    → allowed ≡ slash ∷ []
    → IsHostPath host
    → IsOpenOr (Allows host) allowed
    → clean host ≡ slash
listed_root host l path (inl e) = cc (e, l)
listed_root host l path (inr (a, i, inl (again, w))) =
    root_within host (subst (λ r. IsWithin (clean host) (clean r)) (In-one (subst (In a) l i)) w)
listed_root host l path (inr (a, i, inr (named, e))) = absurd (named path)

-- An allow list that holds the root alone permits no host path but the root itself: an enabled
-- policy refuses the paths below it, although the root is above each.
pub root_permits_root_only :
    (p : WorkerPolicy) (vol : Text)
    → p.disabled ≡ false
    → elems p.allowed_volumes ≡ slash ∷ []
    → is_host_path (source_of vol) ≡ true
    → validate_volumes p (vol ∷ []) ≡ none
    → clean (source_of vol) ≡ slash
root_permits_root_only p vol d l b v = elim ((validate_volumes_iff p (vol ∷ [])).0 v) [
  | inl e ↦ cc (e, d)
  | inr all ↦ listed_root (source_of vol) l ((is_host_path_iff (source_of vol)).0 b) all.0.1
]
