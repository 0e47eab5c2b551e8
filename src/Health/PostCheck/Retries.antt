-- ===== src/Health/PostCheck/Retries.antt =====
-- The retries of the check after a deploy.
use wireops.Prelude.{
  ℕ, zero, suc, ◌+◌, ◌≤◌, ◌<◌, ◌≡◌, refl, ap, sym, ◌∙◌, ◌⊎◌, inl, inr, Bool, true, false, Option,
  none, some, List, [], length, ltb, ◌==◌, ◌&&◌, not, if◌then◌else◌, arith, Bool-cases,
  Option-cases, some_inj,
}
use wireops.Go.Text.{Text, is_empty}
use wireops.Health.{ServiceStatus}
use wireops.Health.PostCheck.{
  active, passed, interrupted, PostCheckResult, Reply, undelivered, answered, post_check_attempts,
  evaluate_post_check, skip, Attempt, take_statuses, attempt_result, attempts, post_deploy_check,
}

if_some : {A : Type 0} (b : Bool) {x r : A} → (if b then some x else none) ≡ some r → x ≡ r
if_some true e = some_inj e
if_some false e = cc e

module _ (parse_time : Text → Option ℕ) (init_set : List Text)
    (decode : Text → List ServiceStatus → Bool × List ServiceStatus) (dispatch : ℕ → Reply)
    (clock : ℕ → ℕ) (done : ℕ → Bool) (expected : List Text) where
  -- Attempt `m` brought statuses: the worker answered without an error, and its answer was decoded.
  abbrev pub Brought : ℕ → Type 0
  Brought m =
      (error out : Text) × (before : List ServiceStatus) × (dispatch m ≡ answered error out)
      × (is_empty error ≡ true)
      × ((decode out before).0 ≡ true)

  abbrev one_attempt : ℕ → List ServiceStatus → Bool → Attempt
  one_attempt n statuses got =
      attempt_result parse_time init_set decode dispatch clock done expected n statuses got

  -- A result is unverified only if it says so, and then it says active.
  abbrev pub IsHonest : Bool → ℕ → ℕ → PostCheckResult → Type 0
  IsHonest got n end r =
      ((r.skipped ≡ true) × (r.status ≡ active))
      ⊎ ((r.skipped ≡ false) × ((got ≡ true) ⊎ ((m : ℕ) × (n ≤ m) × (m < end) × Brought m)))

  taken-cases :
      (n : ℕ) (got : Bool) (d : Bool × List ServiceStatus)
      → let a = take_statuses parse_time init_set decode dispatch clock done expected n got d in
        ((a.0 ≡ none) × (a.2 ≡ got))
        ⊎ ((d.0 ≡ true) × ((r : PostCheckResult) → a.0 ≡ some r → r.skipped ≡ false))
  unfolding take_statuses
  taken-cases n got (false, statuses) = inl (refl, refl)
  taken-cases n got (true, statuses) =
      inr (refl, λ r e. let same : fine ≡ r = if_some _ e in sym (ap (λ q. q.skipped) same))
    where
      fine : PostCheckResult
      fine = record { status = active; detail = passed (length expected); skipped = false }

  -- What an attempt brought: nothing, or an answer that was decoded.
  attempt-cases :
      (n : ℕ) (statuses : List ServiceStatus) (got : Bool)
      → (((one_attempt n statuses got).0 ≡ none) × ((one_attempt n statuses got).2 ≡ got))
        ⊎ (Brought n
            × ((r : PostCheckResult) → (one_attempt n statuses got).0 ≡ some r → r.skipped ≡ false))
  unfolding attempt_result
  attempt-cases n statuses got = by_reply (dispatch n) refl
    where
      by_reply :
          (q : Reply)
          → dispatch n ≡ q
          → (((one_attempt n statuses got).0 ≡ none) × ((one_attempt n statuses got).2 ≡ got))
            ⊎ (Brought n
                × ((r : PostCheckResult)
                    → (one_attempt n statuses got).0 ≡ some r
                    → r.skipped ≡ false))
      by_reply undelivered e = rw (e, attempt_result) (inl (refl, refl))
      by_reply (answered error out) e =
          rw (e, attempt_result)
            (elim (Bool-cases (is_empty error)) [
              | inl t ↦ rw t (elim (taken-cases n got (decode out statuses)) [
                | inl nothing ↦ inl nothing
                | inr (d, fresh) ↦ inr ((error, out, statuses, refl, t, d), fresh)
              ])
              | inr f ↦ rw f (inl (refl, refl))
            ])

  attempts-stop :
      (left n : ℕ) (statuses : List ServiceStatus) (got : Bool) {r : PostCheckResult}
      → (one_attempt n statuses got).0 ≡ some r
      → attempts parse_time init_set decode dispatch clock done expected (suc left) n statuses got
        ≡ r
  unfolding attempts
  attempts-stop left n statuses got e = rw (e, attempts) refl

  attempts-go :
      (left n : ℕ) (statuses : List ServiceStatus) (got : Bool)
      → (one_attempt n statuses got).0 ≡ none
      → let a = one_attempt n statuses got in
        attempts parse_time init_set decode dispatch clock done expected (suc left) n statuses got
        ≡ (if ltb n post_check_attempts && done n
            then skip interrupted
            else attempts parse_time init_set decode dispatch clock done expected left
                (suc n)
                a.1
                a.2)
  unfolding attempts
  attempts-go left n statuses got e = rw (e, attempts) refl

  later-IsHonest :
      (got got_now : Bool) (n left : ℕ) (r : PostCheckResult)
      → (got_now ≡ true → (got ≡ true) ⊎ ((m : ℕ) × (n ≤ m) × (m < n + suc left) × Brought m))
      → IsHonest got_now (suc n) (suc n + left) r
      → IsHonest got n (n + suc left) r
  later-IsHonest got got_now n left r f (inl h) = inl h
  later-IsHonest got got_now n left r f (inr (s, inl g)) = inr (s, f g)
  later-IsHonest got got_now n left r f (inr (s, inr (m, low, high, b))) =
      inr (s, inr (m, omega (arith, low), omega (arith, high), b))

  got_before :
      (n left : ℕ) (statuses : List ServiceStatus) (got : Bool)
      → (one_attempt n statuses got).2 ≡ true
      → (got ≡ true) ⊎ ((m : ℕ) × (n ≤ m) × (m < n + suc left) × Brought m)
  got_before n left statuses got h = elim (attempt-cases n statuses got) [
    | inl (idle, same) ↦ inl (sym same ∙ h)
    | inr (b, fresh) ↦ inr (n, omega arith, omega arith, b)
  ]

  evaluated :
      (n : ℕ) (statuses : List ServiceStatus)
      → (evaluate_post_check parse_time init_set expected (clock n) statuses).skipped ≡ false
  unfolding evaluate_post_check
  evaluated n statuses = refl

  attempts-IsHonest :
      (left n : ℕ) (statuses : List ServiceStatus) (got : Bool)
      → IsHonest got n
          (n + left)
          (attempts parse_time init_set decode dispatch clock done expected left n statuses got)
  unfolding attempts
  attempts-IsHonest zero n statuses true = inr (evaluated n statuses, inl refl)
  attempts-IsHonest zero n statuses false = inl (refl, refl)
  attempts-IsHonest (suc left) n statuses got = elim (Option-cases (one_attempt n statuses got).0) [
    | inr (r, e) ↦ rw (attempts-stop left n statuses got e) (elim (attempt-cases n statuses got) [
      | inl (idle, same) ↦ cc (e, idle)
      | inr (b, fresh) ↦ inr (fresh r e, inr (n, omega arith, omega arith, b))
    ])
    | inl e ↦
        rw (attempts-go left n statuses got e)
          (elim (Bool-cases (ltb n post_check_attempts && done n)) [
            | inl t ↦ rw t (inl (refl, refl))
            | inr f ↦
                let a = one_attempt n statuses got in
                rw f (
                  later-IsHonest got a.2 n left
                    (attempts parse_time init_set decode dispatch clock done expected left (suc n)
                      a.1 a.2)
                    (got_before n left statuses got) (attempts-IsHonest left (suc n) a.1 a.2))
          ])
  ]

  -- The result of the check after a deploy either says that it was skipped, and then reports the
  -- stack as active, or one of the at most three attempts brought statuses of the worker.
  pub post_deploy_check-IsHonest :
      (parsed : Bool)
      → IsHonest false 1 4
          (post_deploy_check parse_time init_set decode dispatch clock done expected parsed)
  unfolding post_deploy_check
  post_deploy_check-IsHonest parsed = elim (Bool-cases (parsed && not (length expected == 0))) [
    | inl t ↦ rw (t, post_deploy_check) (attempts-IsHonest 3 1 [] false)
    | inr f ↦ rw (f, post_deploy_check) (inl (refl, refl))
  ]
