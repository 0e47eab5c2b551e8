-- ===== src/Health/Verdicts.antt =====
-- When a service counts as healthy: all its containers are steady, or one is, by the mode.
use wireops.Prelude.{
  ℕ, ◌≡◌, refl, ap, sym, ◌∙◌, ◌↔◌, inl, inr, Bool, true, false, not, ◌&&◌, ◌||◌, Option, List, [],
  ◌∷◌, arith, any, any-In, any_iff, All, In, here, Bool-cases,
}
use wireops.Go.Text.{Text, codes, text_eq, text_eq_iff}
use wireops.Go.Int.{is_zero}
use wireops.Health.{
  service_healthy, ServiceStatus, Seen, nothing_seen, is_restart_looping, see_init, see_service,
  see, see_all, verdict, classify_service_instances,
}

-- A status has one name.
status_apart : (s a b : Text) → text_eq a b ≡ false → text_eq s a ≡ true → text_eq s b ≡ false
status_apart s a b n e = elim (Bool-cases (text_eq s b)) [
  | inl f ↦ cc (n, (text_eq_iff a b).1 (sym ((text_eq_iff s a).0 e) ∙ (text_eq_iff s b).0 f))
  | inr f ↦ f
]

running_apart :
    (text_eq (codes "running") (codes "exited") ≡ false)
    × (text_eq (codes "running") (codes "dead") ≡ false)
unfolding text_eq
running_apart = (refl, refl)

not_exited : (s : Text) → text_eq s (codes "running") ≡ true → text_eq s (codes "exited") ≡ false
not_exited s e = status_apart s (codes "running") (codes "exited") running_apart.0 e

not_dead : (s : Text) → text_eq s (codes "running") ≡ true → text_eq s (codes "dead") ≡ false
not_dead s e = status_apart s (codes "running") (codes "dead") running_apart.1 e

or_assoc : (a b c : Bool) → ((a || b) || c) ≡ (a || (b || c))
or_assoc true b c = refl
or_assoc false b c = refl

or_false : (a : Bool) → a ≡ (a || false)
or_false true = refl
or_false false = refl

any-not :
    {A : Type 0} (p : A → Bool) (xs : List A)
    → (any (λ x. not (p x)) xs ≡ false) ↔ All (λ x. p x ≡ true) xs
any-not p xs = (to xs, from xs)
  where
    to : (xs : List _) → any (λ x. not (p x)) xs ≡ false → All (λ x. p x ≡ true) xs
    to [] h = tt
    to (x ∷ xs) h = (ground (arith, h), to xs (ground (arith, h)))

    from : (xs : List _) → All (λ x. p x ≡ true) xs → any (λ x. not (p x)) xs ≡ false
    from [] h = refl
    from (x ∷ xs) h = ground (arith, h.0, from xs h.1)

module _ (parse_time : Text → Option ℕ) (now : ℕ) where
  -- A container that is as it should be: not in a restart loop, and for an init service running or
  -- done without an error, for another one running and not unhealthy, in the strict mode not
  -- starting either.
  abbrev pub is_steady : Bool → Bool → ServiceStatus → Bool
  is_steady true all_replicas i =
      not (is_restart_looping parse_time now i)
      && (text_eq i.status (codes "running")
          || (text_eq i.status (codes "exited") && is_zero i.exit_code))
  is_steady false all_replicas i =
      not (is_restart_looping parse_time now i)
      && (text_eq i.status (codes "running")
          && (not (text_eq i.health (codes "unhealthy"))
              && not (all_replicas && text_eq i.health (codes "starting"))))

  abbrev bad : Seen → Bool
  bad seen = seen.looping || (seen.unhealthy || seen.starting)

  see-healthy :
      (is_init all_replicas : Bool) (i : ServiceStatus) (seen : Seen)
      → (see parse_time now is_init all_replicas i seen).healthy
        ≡ (seen.healthy || is_steady is_init all_replicas i)
  unfolding see see_init see_service
  see-healthy true a i seen = ground arith
  see-healthy false a i seen = ground (arith, not_exited i.status, not_dead i.status)

  see-bad :
      (is_init : Bool) (i : ServiceStatus) (seen : Seen)
      → bad (see parse_time now is_init true i seen) ≡ (bad seen || not (is_steady is_init true i))
  unfolding see see_init see_service
  see-bad true i seen = ground arith
  see-bad false i seen = ground (arith, not_exited i.status, not_dead i.status)

  see_all-healthy :
      (is_init all_replicas : Bool) (is : List ServiceStatus) (seen : Seen)
      → (see_all parse_time now is_init all_replicas is seen).healthy
        ≡ (seen.healthy || any (is_steady is_init all_replicas) is)
  unfolding see_all
  see_all-healthy b a [] seen = ground arith
  see_all-healthy b a (i ∷ is) seen =
      see_all-healthy b a is (see parse_time now b a i seen)
      ∙ ap (λ h. h || any (is_steady b a) is) (see-healthy b a i seen)
      ∙ or_assoc seen.healthy (is_steady b a i) (any (is_steady b a) is)

  see_all-bad :
      (is_init : Bool) (is : List ServiceStatus) (seen : Seen)
      → bad (see_all parse_time now is_init true is seen)
        ≡ (bad seen || any (λ i. not (is_steady is_init true i)) is)
  unfolding see_all
  see_all-bad b [] seen = or_false (bad seen)
  see_all-bad b (i ∷ is) seen =
      see_all-bad b is (see parse_time now b true i seen)
      ∙ ap (λ h. h || any (λ j. not (is_steady b true j)) is) (see-bad b i seen)
      ∙ or_assoc (bad seen) (not (is_steady b true i)) (any (λ j. not (is_steady b true j)) is)

  verdict-strict :
      (is_init : Bool) (seen : Seen)
      → (verdict is_init true seen ≡ service_healthy) ↔ ((bad seen ≡ false) × (seen.healthy ≡ true))
  unfolding verdict
  verdict-strict b seen = ground arith

  verdict-lenient :
      (is_init : Bool) (seen : Seen)
      → (verdict is_init false seen ≡ service_healthy) ↔ (seen.healthy ≡ true)
  unfolding verdict
  verdict-lenient b seen = ground arith

  -- In the strict mode a service with containers is healthy exactly if each of them is steady: not
  -- in a restart loop, and running, or for an init service exited without an error, and else neither
  -- unhealthy nor starting.
  pub classify-strict_iff :
      (is_init : Bool) (i : ServiceStatus) (is : List ServiceStatus)
      → (classify_service_instances parse_time now (i ∷ is) is_init true ≡ service_healthy)
        ↔ All (λ j. is_steady is_init true j ≡ true) (i ∷ is)
  unfolding classify_service_instances
  classify-strict_iff b i is =
      let seen = see_all parse_time now b true (i ∷ is) nothing_seen in
      let (to, from) = verdict-strict b seen in
      let (all_of, none_of) = any-not (is_steady b true) (i ∷ is) in
      (
        λ h. all_of (sym (see_all-bad b (i ∷ is) nothing_seen) ∙ (to h).0),
        λ h. from (
          see_all-bad b (i ∷ is) nothing_seen ∙ none_of h,
          see_all-healthy b true (i ∷ is) nothing_seen ∙ any-In (is_steady b true) here h.0,
        ),
      )

  -- In the lenient mode it is exactly if one of them is.
  pub classify-lenient_iff :
      (is_init : Bool) (i : ServiceStatus) (is : List ServiceStatus)
      → (classify_service_instances parse_time now (i ∷ is) is_init false ≡ service_healthy)
        ↔ ((j : ServiceStatus) × In j (i ∷ is) × (is_steady is_init false j ≡ true))
  unfolding classify_service_instances
  classify-lenient_iff b i is =
      let seen = see_all parse_time now b false (i ∷ is) nothing_seen in
      let (to, from) = verdict-lenient b seen in
      let (find, put) = any_iff (is_steady b false) (i ∷ is) in
      (
        λ h. find (sym (see_all-healthy b false (i ∷ is) nothing_seen) ∙ to h),
        λ h. from (see_all-healthy b false (i ∷ is) nothing_seen ∙ put h),
      )

  steady-lenient :
      (is_init : Bool) (i : ServiceStatus)
      → is_steady is_init true i ≡ true
      → is_steady is_init false i ≡ true
  steady-lenient true i h = h
  steady-lenient false i h = ground (arith, h)

  -- What live health calls healthy passes the check after a deploy, for any service.
  pub classify-strict_lenient :
      (is_init : Bool) (is : List ServiceStatus)
      → classify_service_instances parse_time now is is_init true ≡ service_healthy
      → classify_service_instances parse_time now is is_init false ≡ service_healthy
  unfolding classify_service_instances
  classify-strict_lenient b [] h = h
  classify-strict_lenient b (i ∷ is) h =
      (classify-lenient_iff b i is).1
        (i, here, steady-lenient b i ((classify-strict_iff b i is).0 h).0)
