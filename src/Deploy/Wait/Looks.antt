-- ===== src/Deploy/Wait/Looks.antt =====
-- The looks of the loop of a deploy that waits: what the last one saw, and that it is the last.
use wireops.Prelude.{sym, ◌≤◌, ◌+◌, order-cases}
use mathlib.Core.Path.{subst}
use wireops.Prelude.{some_inj, ap, ◌∙◌}
use wireops.Prelude.{
  ℕ, zero, suc, ◌≡◌, ◌<◌, refl, inl, inr, true, Option, none, some, List, [], ◌∷◌, arith,
  Option-cases, Bool-cases, length,
}
use wireops.Go.Text.{Text}
use wireops.Go.Int.{ℤ}
use wireops.Jobs.{JobRun}
use wireops.Deploy.Wait.{
  Environment, Ended, interrupted, unknown, cleared, expired, is_past, active_at, decide, round,
  poll,
}

-- A look that does not hold a deploy back: no active run, or no answer.
abbrev pub IsFree : Option (List (Text × JobRun)) → Type 0
IsFree none = Unit
IsFree (some []) = Unit
IsFree (some (x ∷ xs)) = ⊥

abbrev pub look_of : Ended → ℕ
look_of (cleared n) = n
look_of (unknown n) = n
look_of (interrupted n e) = n
look_of (expired n k) = n

-- What the loop saw at the look that ended it.
abbrev pub IsSeen : Environment → Text → Option ℤ → Ended → Type 0
IsSeen env repo deadline (cleared n) = active_at env repo n ≡ some []
IsSeen env repo deadline (unknown n) = active_at env repo n ≡ none
IsSeen env repo deadline (interrupted n e) = env.cancelled n ≡ some e
IsSeen env repo deadline (expired n k) =
    (is_past deadline (env.clock 0) (env.clock n) ≡ true)
    × (runs : List (Text × JobRun)) × (active_at env repo n ≡ some runs)
    × (k ≡ length runs)
    × (0 < k)

module _ (env : Environment) where
  decide-IsSeen :
      (repo : Text) (deadline : Option ℤ) (n : ℕ) (o : Option (List (Text × JobRun))) (e : Ended)
      → active_at env repo n ≡ o
      → decide env deadline n o ≡ some e
      → IsSeen env repo deadline e
  unfolding decide
  decide-IsSeen repo deadline n none e at h = subst (IsSeen env repo deadline) (some_inj h) at
  decide-IsSeen repo deadline n (some []) e at h = subst (IsSeen env repo deadline) (some_inj h) at
  decide-IsSeen repo deadline n (some (x ∷ xs)) e at h =
      elim (Bool-cases (is_past deadline (env.clock 0) (env.clock n))) [
        | inl late ↦
            subst (IsSeen env repo deadline) (some_inj (rw late at h))
              (late, x ∷ xs, at, refl, omega arith)
        | inr early ↦ cc (rw early at h)
      ]

  round-IsSeen :
      (repo : Text) (deadline : Option ℤ) (n : ℕ) (e : Ended)
      → round env repo deadline n ≡ some e
      → IsSeen env repo deadline e
  unfolding round
  round-IsSeen repo deadline n e h = elim (Option-cases (env.cancelled n)) [
    | inr (err, c) ↦ subst (IsSeen env repo deadline) (some_inj (rw (c, round) at h)) c
    | inl c ↦ decide-IsSeen repo deadline n (active_at env repo n) e refl (rw (c, round) at h)
  ]

  pub poll-IsSeen :
      (fuel : ℕ) (repo : Text) (deadline : Option ℤ) (n : ℕ) (e : Ended)
      → poll env fuel repo deadline n ≡ some e
      → IsSeen env repo deadline e
  unfolding poll
  poll-IsSeen zero repo deadline n e h = cc h
  poll-IsSeen (suc fuel) repo deadline n e h = elim (Option-cases (round env repo deadline n)) [
    | inl later ↦ poll-IsSeen fuel repo deadline (suc n) e (rw (later, poll) at h)
    | inr (f, now) ↦ round-IsSeen repo deadline n e (now ∙ (rw (now, poll) at h))
  ]

  decide-look :
      (deadline : Option ℤ) (n : ℕ) (o : Option (List (Text × JobRun))) (e : Ended)
      → decide env deadline n o ≡ some e
      → look_of e ≡ n
  unfolding decide
  decide-look deadline n none e h = ap look_of (sym (some_inj h))
  decide-look deadline n (some []) e h = ap look_of (sym (some_inj h))
  decide-look deadline n (some (x ∷ xs)) e h =
      elim (Bool-cases (is_past deadline (env.clock 0) (env.clock n))) [
        | inl late ↦ ap look_of (sym (some_inj (rw late at h)))
        | inr early ↦ cc (rw early at h)
      ]

  round-look :
      (repo : Text) (deadline : Option ℤ) (n : ℕ) (e : Ended)
      → round env repo deadline n ≡ some e
      → look_of e ≡ n
  unfolding round
  round-look repo deadline n e h = elim (Option-cases (env.cancelled n)) [
    | inr (err, c) ↦ ap look_of (sym (some_inj (rw (c, round) at h)))
    | inl c ↦ decide-look deadline n (active_at env repo n) e (rw (c, round) at h)
  ]

  decide-held :
      (deadline : Option ℤ) (n : ℕ) (o : Option (List (Text × JobRun)))
      → decide env deadline n o ≡ none
      → IsFree o
      → ⊥
  unfolding decide
  decide-held deadline n none h f = cc h
  decide-held deadline n (some []) h f = cc h
  decide-held deadline n (some (x ∷ xs)) h f = f

  round-held :
      (repo : Text) (deadline : Option ℤ) (n : ℕ)
      → round env repo deadline n ≡ none
      → IsFree (active_at env repo n)
      → ⊥
  unfolding round
  round-held repo deadline n h = elim (Option-cases (env.cancelled n)) [
    | inr (err, c) ↦ cc (rw (c, round) at h)
    | inl c ↦ decide-held deadline n (active_at env repo n) (rw (c, round) at h)
  ]

  -- The end comes at a look within the fuel, and every look before it held the deploy back.
  pub poll-first :
      (fuel : ℕ) (repo : Text) (deadline : Option ℤ) (n : ℕ) (e : Ended)
      → poll env fuel repo deadline n ≡ some e
      → (n ≤ look_of e)
        × (look_of e < n + fuel)
        × ((m : ℕ) → n ≤ m → m < look_of e → IsFree (active_at env repo m) → ⊥)
  unfolding poll
  poll-first zero repo deadline n e h = cc h
  poll-first (suc fuel) repo deadline n e h = elim (Option-cases (round env repo deadline n)) [
    | inr (f, now) ↦
        let at = round-look repo deadline n e (now ∙ (rw (now, poll) at h)) in
        (omega (arith, at), omega (arith, at), λ m a b. absurd (omega (arith, at, a, b)))
    | inl later ↦
        let (from, upto, held) = poll-first fuel repo deadline (suc n) e (rw (later, poll) at h) in
        (
          omega (arith, from),
          omega (arith, upto),
          λ m a b f. elim (order-cases n m) [
            | inl after ↦ held m (omega (arith, after)) b f
            | inr (inl same) ↦
                round-held repo deadline n later
                  (subst (λ k. IsFree (active_at env repo k)) (sym same) f)
            | inr (inr early) ↦ absurd (omega (arith, early, a))
          ],
        )
  ]

  -- The loop has made the look that ends it, and none after it: less fuel is not enough, and more is not
  -- used.
  pub poll-enough :
      (fuel k : ℕ) (repo : Text) (deadline : Option ℤ) (n : ℕ) (e : Ended)
      → poll env fuel repo deadline n ≡ some e
      → look_of e < n + k
      → poll env k repo deadline n ≡ some e
  unfolding poll
  poll-enough zero k repo deadline n e h b = cc h
  poll-enough (suc fuel) zero repo deadline n e h b =
      absurd (omega (arith, b, (poll-first (suc fuel) repo deadline n e (unfold poll in h)).0))
  poll-enough (suc fuel) (suc k) repo deadline n e h b =
      elim (Option-cases (round env repo deadline n)) [
        | inr (f, now) ↦ rw (now, poll) (rw (now, poll) at h)
        | inl later ↦
            rw (later, poll)
              (poll-enough fuel k repo deadline (suc n) e (rw (later, poll) at h)
                (omega (arith, b)))
      ]

  pub poll-too_few :
      (fuel k : ℕ) (repo : Text) (deadline : Option ℤ) (n : ℕ) (e : Ended)
      → poll env fuel repo deadline n ≡ some e
      → n + k ≤ look_of e
      → poll env k repo deadline n ≡ none
  poll-too_few fuel k repo deadline n e h b = elim (Option-cases (poll env k repo deadline n)) [
    | inl none_yet ↦ none_yet
    | inr (f, early) ↦
        let (from, upto, held) = poll-first k repo deadline n f early in
        let same = some_inj (
          sym h
          ∙ poll-enough k fuel repo deadline n f early
              (omega (arith, upto, b, (poll-first fuel repo deadline n e h).1))) in
        absurd (omega (arith, upto, b, ap look_of same))
  ]
