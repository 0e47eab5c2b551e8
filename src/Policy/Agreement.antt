-- ===== src/Policy/Agreement.antt =====
-- The check that stops and the report of everything agree: `ValidateComposeConfig` returns the
-- message of the first violation that `ComposeViolations` lists.
use wireops.Prelude.{
  ◌≡◌, refl, ap, ◌∙◌, Bool, Option, none, some, List, [], ◌∷◌, ◌++◌, arith, or_else, first_some,
  first,
}
use wireops.Go.Text.{Text}
use wireops.Go.Value.{Map}
use wireops.Policy.{
  WorkerPolicy, PolicyError, capability_not_listed, device_not_listed, security_opt_not_listed,
  elems, validate_images, validate_volumes, validate_network, validate_services,
  validate_docker_socket, validate_listed, validate_cap_add, validate_devices,
  validate_security_opt,
}
use wireops.Policy.Refs.{OwnedRef, ComposeRefs, values, extract_compose_refs}
use wireops.Policy.Compose.{
  Message, Violation, check_with, violations_of, own_services, validate_refs, refs_violations,
  validate_compose_config, compose_violations,
}

abbrev pub message? : Option Violation → Option Message
message? none = none
message? (some v) = some v.message

-- A validator of a list that is a loop over its items.
abbrev IsLoop : (List Text → Option PolicyError) → Type 0
IsLoop validate =
    (validate [] ≡ none)
    × ((x : Text) (xs : List Text) → validate (x ∷ xs) ≡ or_else (validate (x ∷ [])) (validate xs))

message?-append :
    (vs ws : List Violation)
    → message? (first (vs ++ ws)) ≡ or_else (message? (first vs)) (message? (first ws))
message?-append [] ws = refl
message?-append (v ∷ vs) ws = refl

first-violations_of :
    (validate : List Text → Option PolicyError)
    → IsLoop validate
    → (check prefix : Text) (refs : List OwnedRef)
    → message? (first (violations_of check prefix validate refs))
      ≡ check_with prefix (validate (values refs))
unfolding violations_of
first-violations_of validate loop check prefix [] = ground (arith, loop.0)
first-violations_of validate loop check prefix (r ∷ refs) =
    ground
      (arith, loop.1 r.value (values refs), first-violations_of validate loop check prefix refs)

values-own_services : (ss : List Text) → values (own_services ss) ≡ ss
values-own_services [] = refl
values-own_services (s ∷ ss) = rw (values-own_services ss)

module _ (p : WorkerPolicy) where
  IsLoop-images : IsLoop (validate_images p)
  unfolding validate_images
  IsLoop-images = (ground arith, λ x xs. ground arith)

  IsLoop-volumes : IsLoop (validate_volumes p)
  unfolding validate_volumes
  IsLoop-volumes = (ground arith, λ x xs. ground arith)

  IsLoop-networks : IsLoop (first_some (validate_network p))
  IsLoop-networks = (refl, λ x xs. ground arith)

  services_step :
      (blocks : WorkerPolicy → Bool) (error : Text → PolicyError) (x : Text) (xs : List Text)
      → validate_services blocks error p (x ∷ xs)
        ≡ or_else (validate_services blocks error p (x ∷ [])) (validate_services blocks error p xs)
  unfolding validate_services
  services_step blocks error x [] = ground arith
  services_step blocks error x (y ∷ xs) = ground arith

  IsLoop-services :
      (blocks : WorkerPolicy → Bool) (error : Text → PolicyError)
      → IsLoop (validate_services blocks error p)
  IsLoop-services blocks error = (unfold validate_services in refl, services_step blocks error)

  IsLoop-socket : IsLoop (validate_docker_socket p)
  unfolding validate_docker_socket
  IsLoop-socket = (ground arith, λ x xs. ground arith)

  IsLoop-listed :
      (error : Text → PolicyError) (allowed : List Text) → IsLoop (validate_listed error p allowed)
  unfolding validate_listed
  IsLoop-listed error [] = (refl, λ x xs. refl)
  IsLoop-listed error (a ∷ as') = (ground arith, λ x xs. ground arith)

  first-services :
      (check prefix : Text) (blocks : WorkerPolicy → Bool) (error : Text → PolicyError)
      (ss : List Text)
      → message?
          (first (violations_of check prefix (validate_services blocks error p) (own_services ss)))
        ≡ check_with prefix (validate_services blocks error p ss)
  first-services check prefix blocks error ss =
      first-violations_of (validate_services blocks error p) (IsLoop-services blocks error) check
        prefix (own_services ss)
      ∙ ap (λ l. check_with prefix (validate_services blocks error p l)) (values-own_services ss)

  first-refs_violations :
      (refs : ComposeRefs) → message? (first (refs_violations p refs)) ≡ validate_refs p refs
  unfolding refs_violations validate_refs
  first-refs_violations refs = simp (
    message?-append,
    first-violations_of (validate_images p) IsLoop-images,
    first-violations_of (validate_volumes p) IsLoop-volumes,
    first-violations_of (first_some (validate_network p)) IsLoop-networks,
    first-violations_of (validate_docker_socket p) IsLoop-socket,
    first-violations_of (validate_cap_add p)
        (IsLoop-listed capability_not_listed (elems p.allowed_cap_add)),
    first-violations_of (validate_devices p)
        (IsLoop-listed device_not_listed (elems p.allowed_devices)),
    first-violations_of (validate_security_opt p)
        (IsLoop-listed security_opt_not_listed (elems p.allowed_security_opt)),
    first-services,
  )

-- On every config, `ValidateComposeConfig` returns the message of the first violation that
-- `ComposeViolations` lists, and nil where it lists none.
pub first-compose_violations :
    (p : WorkerPolicy) (config : Map)
    → validate_compose_config p config ≡ message? (first (compose_violations p config))
unfolding validate_compose_config compose_violations
first-compose_violations p config =
    ground (arith, first-refs_violations p (extract_compose_refs config))
