-- ===== src/Policy/Allow.antt =====
-- What passes an allow list of policy.go, without its loop.
use wireops.Prelude.{
  ◌≡◌, refl, ◌↔◌, ◌⊎◌, inl, inr, Bool, true, false, Option, none, List, [], ◌∷◌, arith,
  if◌then◌else◌, any-In, find_any, All, All-map, In, first_some, first_some-none_iff,
}
use wireops.Go.Text.{Text}
use wireops.Policy.{PolicyError, check_list}

-- An allow list that passes: it is empty, or has an entry that fits.
abbrev pub IsOpenOr : (Text → Type 0) → List Text → Type 0
IsOpenOr Fits allowed = (allowed ≡ []) ⊎ ((a : Text) × In a allowed × Fits a)

pub check_list_iff :
    {Fits : Text → Type 0} (fits : Text → Bool) (error : PolicyError)
    → ((a : Text) → (fits a ≡ true) ↔ Fits a)
    → (allowed : List Text) → (check_list fits error allowed ≡ none) ↔ IsOpenOr Fits allowed
unfolding check_list
check_list_iff fits error iff [] = (λ _. inl refl, λ _. refl)
check_list_iff fits error iff (b ∷ bs) = (
  λ h. let (a, i, e) = find_any fits (b ∷ bs) (ground arith) in inr (a, i, (iff a).0 e),
  elim [ inl e ↦ absurd (cc e) | inr (a, i, w) ↦ rw (any-In fits i ((iff a).1 w), check_list) ],
)

-- The loop of a check over all values, which a switch turns off: it passes exactly if the switch is
-- on, or every value passes.
pub switched_loop_iff :
    {Fits : Text → Type 0} (off : Bool) (check : Text → Option PolicyError)
    → ((x : Text) → (check x ≡ none) ↔ Fits x)
    → (xs : List Text)
    → ((if off then none else first_some check xs) ≡ none) ↔ ((off ≡ true) ⊎ All Fits xs)
switched_loop_iff true check iff xs = (λ _. inl refl, λ _. refl)
switched_loop_iff false check iff xs = (
  λ h. inr (All-map xs (λ x. (iff x).0) ((first_some-none_iff check xs).0 h)),
  elim [
    | inl e ↦ cc e
    | inr all ↦ (first_some-none_iff check xs).1 (All-map xs (λ x. (iff x).1) all)
  ],
)
