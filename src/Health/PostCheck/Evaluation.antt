-- ===== src/Health/PostCheck/Evaluation.antt =====
-- What the evaluation of the statuses says of a stack.
use mathlib.Core.List.{append_assoc, append-nil}
use wireops.Prelude.{
  keep, not, ◌++◌, ◌⊎◌, ◌≢◌, ◌==◌, ==_iff, ℕ, suc, ◌+◌, ◌≤◌, ◌≡◌, refl, ap, sym, ◌∙◌, ◌↔◌, inl, inr,
  Bool, true, false, Bool-cases, Option, List, [], ◌∷◌, length, arith, All,
}
use wireops.Go.Text.{Text}
use wireops.Health.{
  ServiceHealthState, service_healthy, service_starting, service_missing, service_unhealthy,
  service_restart_looping, ServiceStatus,
}
use wireops.Health.PostCheck.{
  active, failed, passed, report, build_post_check_detail, Buckets, no_names, place, overall,
  is_init_service, state_of, place_all, evaluate_post_check,
}

-- How many names the buckets hold.
abbrev pub total : Buckets → ℕ
total b = length b.ok + (length b.missing + (length b.unhealthy + length b.restart_looping))

-- The bucket by the state of a service: an init service that still starts hangs, and another one that
-- starts is not there yet.
abbrev ok_by : ServiceHealthState → Bool
ok_by service_healthy = true
ok_by service_starting = false
ok_by service_missing = false
ok_by service_unhealthy = false
ok_by service_restart_looping = false

abbrev missing_by : Bool → ServiceHealthState → Bool
missing_by is_init service_healthy = false
missing_by is_init service_starting = not is_init
missing_by is_init service_missing = true
missing_by is_init service_unhealthy = false
missing_by is_init service_restart_looping = false

abbrev unhealthy_by : Bool → ServiceHealthState → Bool
unhealthy_by is_init service_healthy = false
unhealthy_by is_init service_starting = is_init
unhealthy_by is_init service_missing = false
unhealthy_by is_init service_unhealthy = true
unhealthy_by is_init service_restart_looping = false

abbrev looping_by : ServiceHealthState → Bool
looping_by service_healthy = false
looping_by service_starting = false
looping_by service_missing = false
looping_by service_unhealthy = false
looping_by service_restart_looping = true

abbrev joined : Buckets → Buckets → Buckets
joined a b = record {
  ok = a.ok ++ b.ok;
  missing = a.missing ++ b.missing;
  unhealthy = a.unhealthy ++ b.unhealthy;
  restart_looping = a.restart_looping ++ b.restart_looping;
}

abbrev in_front : Bool → Text → ServiceHealthState → Buckets → Buckets
in_front is_init n s r = record {
  ok = elim (ok_by s) [ true ↦ n ∷ r.ok | false ↦ r.ok ];
  missing = elim (missing_by is_init s) [ true ↦ n ∷ r.missing | false ↦ r.missing ];
  unhealthy = elim (unhealthy_by is_init s) [ true ↦ n ∷ r.unhealthy | false ↦ r.unhealthy ];
  restart_looping = elim (looping_by s) [
    | true ↦ n ∷ r.restart_looping
    | false ↦ r.restart_looping
  ];
}

-- A service at the end of what is sorted out stands in front of what follows.
place-joined :
    (b : Bool) (n : Text) (s : ServiceHealthState) (k r : Buckets)
    → joined (place b n s k) r ≡ joined k (in_front b n s r)
unfolding place
place-joined b n service_healthy k r =
    ap (λ x. record (joined k r) { ok = x }) (append_assoc k.ok (n ∷ []) r.ok)
place-joined true n service_starting k r =
    ap (λ x. record (joined k r) { unhealthy = x }) (append_assoc k.unhealthy (n ∷ []) r.unhealthy)
place-joined false n service_starting k r =
    ap (λ x. record (joined k r) { missing = x }) (append_assoc k.missing (n ∷ []) r.missing)
place-joined b n service_missing k r =
    ap (λ x. record (joined k r) { missing = x }) (append_assoc k.missing (n ∷ []) r.missing)
place-joined b n service_unhealthy k r =
    ap (λ x. record (joined k r) { unhealthy = x }) (append_assoc k.unhealthy (n ∷ []) r.unhealthy)
place-joined b n service_restart_looping k r =
    ap (λ x. record (joined k r) { restart_looping = x })
      (append_assoc k.restart_looping (n ∷ []) r.restart_looping)

in_front-total :
    (b : Bool) (n : Text) (s : ServiceHealthState) (r : Buckets)
    → total (in_front b n s r) ≡ suc (total r)
in_front-total b n service_healthy r = omega arith
in_front-total true n service_starting r = omega arith
in_front-total false n service_starting r = omega arith
in_front-total b n service_missing r = omega arith
in_front-total b n service_unhealthy r = omega arith
in_front-total b n service_restart_looping r = omega arith

-- A test that all names pass, or none.
module _ (p : Text → Bool) where
  length-keep : (ns : List Text) → length (keep p ns) ≤ length ns
  length-keep [] = omega arith
  length-keep (n ∷ ns) = ground (arith, length-keep ns)

  keep-All : (ns : List Text) → (length (keep p ns) ≡ length ns) ↔ All (λ n. p n ≡ true) ns
  keep-All [] = (λ h. tt, λ h. refl)
  keep-All (n ∷ ns) =
      let (to, from) = keep-All ns in
      elim (Bool-cases (p n)) [
        | inl e ↦ (λ h. (e, to (ground (arith, h, e))), λ h. ground (arith, e, from h.1))
        | inr f ↦ (λ h. absurd (ground (arith, h, f, length-keep ns)), λ h. cc (f, h.0))
      ]

  none-kept : (ns : List Text) → (length (keep p ns) ≡ 0) ↔ All (λ n. p n ≡ false) ns
  none-kept [] = (λ h. tt, λ h. refl)
  none-kept (n ∷ ns) =
      let (to, from) = none-kept ns in
      elim (Bool-cases (p n)) [
        | inl e ↦ (λ h. absurd (ground (arith, h, e)), λ h. cc (e, h.0))
        | inr f ↦ (λ h. (f, to (ground (arith, h, f))), λ h. ground (arith, f, from h.1))
      ]

overall-active : (size : ℕ) (b : Buckets) → (overall size b ≡ active) ↔ (length b.ok ≡ size)
unfolding overall
overall-active size b = ground arith

overall-failed : (size : ℕ) (b : Buckets) → 1 ≤ size → (overall size b ≡ failed) ↔ (length b.ok ≡ 0)
unfolding overall
overall-failed size b h = ground (arith, h)

build_post_check_detail-lem :
    (size : ℕ) (b : Buckets)
    → ((overall size b ≡ active) × (build_post_check_detail size b ≡ passed size))
      ⊎ ((overall size b ≢ active) × (build_post_check_detail size b ≡ report size b))
unfolding overall build_post_check_detail
build_post_check_detail-lem size b = elim (Bool-cases (length b.ok == size)) [
  | inl e ↦ inl (rw e refl, rw e refl)
  | inr f ↦ inr (λ e. cc (f, (==_iff _ _).1 ((overall-active size b).0 e)), rw f refl)
]

module _ (parse_time : Text → Option ℕ) (init_set : List Text) (now : ℕ)
    (statuses : List ServiceStatus) where
  -- Whether the service counts as healthy, as missing, as unhealthy, or as in a restart loop.
  abbrev pub is_healthy : Text → Bool
  is_healthy n = ok_by (state_of parse_time init_set now statuses n)

  abbrev pub is_missing : Text → Bool
  is_missing n =
      missing_by (is_init_service parse_time init_set n)
        (state_of parse_time init_set now statuses n)

  abbrev pub is_unhealthy : Text → Bool
  is_unhealthy n =
      unhealthy_by (is_init_service parse_time init_set n)
        (state_of parse_time init_set now statuses n)

  abbrev pub is_looping : Text → Bool
  is_looping n = looping_by (state_of parse_time init_set now statuses n)

  abbrev pub sorted_out : List Text → Buckets
  sorted_out ns = record {
    ok = keep is_healthy ns;
    missing = keep is_missing ns;
    unhealthy = keep is_unhealthy ns;
    restart_looping = keep is_looping ns;
  }

  total-sorted_out : (ns : List Text) → total (sorted_out ns) ≡ length ns
  total-sorted_out [] = refl
  total-sorted_out (n ∷ ns) =
      in_front-total (is_init_service parse_time init_set n) n
        (state_of parse_time init_set now statuses n) (sorted_out ns)
      ∙ ap suc (total-sorted_out ns)

  joined-none : (k : Buckets) → joined k no_names ≡ k
  joined-none k =
      rw
        (
          append-nil k.ok,
          append-nil k.missing,
          append-nil k.unhealthy,
          append-nil k.restart_looping,
        )
        refl

  place_all-joined :
      (ns : List Text) (k : Buckets)
      → place_all parse_time init_set now statuses ns k ≡ joined k (sorted_out ns)
  unfolding place_all
  place_all-joined [] k = sym (joined-none k)
  place_all-joined (n ∷ ns) k =
      place_all-joined ns _
      ∙ place-joined (is_init_service parse_time init_set n) n
          (state_of parse_time init_set now statuses n) k (sorted_out ns)

  place_all-sorted_out :
      (ns : List Text) → place_all parse_time init_set now statuses ns no_names ≡ sorted_out ns
  place_all-sorted_out ns = place_all-joined ns no_names

  -- The evaluation of at least one expected service: the stack is active exactly if all of them count
  -- as healthy, and in error exactly if none does. Each bucket holds the services that count as what
  -- it stands for, in their order, and each service is in one bucket: an init service that still
  -- starts counts as unhealthy, another service that starts as missing. The detail of an active stack
  -- is the number of the services, and that of another one quotes the buckets; the check was not
  -- skipped.
  pub evaluate_post_check-lem :
      (n : Text) (ns : List Text)
      → let r = evaluate_post_check parse_time init_set (n ∷ ns) now statuses in
        ((r.status ≡ active) ↔ All (λ m. is_healthy m ≡ true) (n ∷ ns))
        × ((r.status ≡ failed) ↔ All (λ m. is_healthy m ≡ false) (n ∷ ns))
        × (place_all parse_time init_set now statuses (n ∷ ns) no_names ≡ sorted_out (n ∷ ns))
        × (total (sorted_out (n ∷ ns)) ≡ length (n ∷ ns))
        × (((r.status ≡ active) × (r.detail ≡ passed (length (n ∷ ns))))
            ⊎ ((r.status ≢ active) × (r.detail ≡ report (length (n ∷ ns)) (sorted_out (n ∷ ns)))))
        × (r.skipped ≡ false)
  unfolding evaluate_post_check
  evaluate_post_check-lem n ns =
      let b = sorted_out (n ∷ ns) in
      let at = place_all-sorted_out (n ∷ ns) in
      let (to, from) = overall-active (length (n ∷ ns)) b in
      let (to_failed, from_failed) = overall-failed (length (n ∷ ns)) b (omega arith) in
      let (all_of, of_all) = keep-All is_healthy (n ∷ ns) in
      let (none_of, of_none) = none-kept is_healthy (n ∷ ns) in
      rw at (
        (λ h. all_of (to h), λ h. from (of_all h)),
        (λ h. none_of (to_failed h), λ h. from_failed (of_none h)),
        refl,
        total-sorted_out (n ∷ ns),
        build_post_check_detail-lem (length (n ∷ ns)) b,
        refl,
      )
