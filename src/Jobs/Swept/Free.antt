-- ===== src/Jobs/Swept/Free.antt =====
-- What a sweep over the runs keeps, and what it frees of bad runs.
use wireops.Prelude.{
  ℕ, ◌≡◌, inl, inr, refl, sym, ◌∙◌, Bool, true, false, Option, none, some, List, [], ◌∷◌, arith,
  Bool-cases, Option-cases, or_else, some_inj, In, here, there,
}
use wireops.Go.Text.{Text, Text-cases, text_eq, text_eq_iff}
use wireops.Go.Value.{lookup}
use wireops.Go.Assoc.{put, lookup-put, lookup-put_other}
use wireops.Jobs.{JobRun, Store, RunError, tick, find_run, save_run, modify}
use wireops.Jobs.Sweep.{for_each}

-- The run with the id, if there is one, is none of the bad ones.
pub record IsFree (bad : JobRun → Bool) (s : Store) (id : Text) : Type 0 where
  pub is_good : (r : JobRun) → lookup s.runs id ≡ some r → bad r ≡ false

pub lookup-In :
    {V : Type 0} (m : List (Text × V)) (k : Text) {v : V} → lookup m k ≡ some v → In (k, v) m
unfolding lookup
lookup-In [] k h = cc h
lookup-In ((j, w) ∷ m) k {v} h = elim (Bool-cases (text_eq j k)) [
  | inl e ↦ let same : w ≡ v = ground (arith, e, h) in rw (← (text_eq_iff j k).0 e, ← same) here
  | inr n ↦ there (lookup-In m k (ground (arith, n, h)))
]

module _ (fails : ℕ → Bool) (bad : JobRun → Bool) (now : ℕ) (change : JobRun → Option JobRun)
    (good : (r q : JobRun) → change r ≡ some q → bad (record q { updated = now }) ≡ false) where
  saved :
      (s : Store) (id : Text) (q : JobRun)
      → bad q ≡ false
      → IsFree bad (record (tick s) { runs = put s.runs id q }) id
  saved s id q b = record { is_good = λ r e. rw (← some_inj (sym (lookup-put s.runs id q) ∙ e)) b }

  put-IsFree :
      (s : Store) (id : Text) (q : JobRun) (k : Text)
      → bad q ≡ false
      → IsFree bad s k
      → IsFree bad (record (tick s) { runs = put s.runs id q }) k
  put-IsFree s id q k b h = elim (Text-cases id k) [
    | inl same ↦ rw (← same) (saved s id q b)
    | inr other ↦ record {
      is_good = λ r e. h.is_good r (sym (lookup-put_other s.runs q other) ∙ e);
    }
  ]

  ticked : (s : Store) (k : Text) → IsFree bad s k → IsFree bad (tick s) k
  ticked s k h = record { is_good = λ r e. h.is_good r e }

  save-IsFree :
      (on_save : Option RunError) (id : Text) (r : JobRun) (o : Option JobRun) (s : Store)
      (k : Text)
      → change r ≡ o
      → IsFree bad s k
      → IsFree bad (save_run fails on_save id now o s).1 k
  unfolding save_run
  save-IsFree on_save id r none s k e h = h
  save-IsFree on_save id r (some q) s k e h = elim (Bool-cases (fails s.calls)) [
    | inl f ↦ rw (f, save_run) (ticked s k h)
    | inr f ↦ rw (f, save_run) (put-IsFree s id (record q { updated = now }) k (good r q e) h)
  ]

  -- A change keeps what is free of bad runs so.
  pub modify-IsFree :
      (on_find on_save : Option RunError) (id : Text) (s : Store) (k : Text)
      → IsFree bad s k
      → IsFree bad (modify fails on_find on_save id now change s).1 k
  unfolding modify
  modify-IsFree on_find on_save id s k h = elim (Option-cases (find_run fails id s)) [
    | inl e ↦ rw (e, modify) (ticked s k h)
    | inr (r, e) ↦
        rw (e, modify) (save-IsFree on_save id r (change r) (tick s) k refl (ticked s k h))
  ]

  -- While the database takes every call, a change that leaves only good runs alone frees its id.
  module _ (works : (n : ℕ) → fails n ≡ false)
      (left : (r : JobRun) → change r ≡ none → bad r ≡ false) where
    find_run-lookup : (id : Text) (s : Store) → find_run fails id s ≡ lookup s.runs id
    unfolding find_run
    find_run-lookup id s = rw (works s.calls) refl

    save-frees :
        (on_save : Option RunError) (id : Text) (r : JobRun) (o : Option JobRun) (s : Store)
        → lookup s.runs id ≡ some r
        → change r ≡ o
        → IsFree bad (save_run fails on_save id now o s).1 id
    unfolding save_run
    save-frees on_save id r none s l e = record {
      is_good = λ q k. rw (← some_inj (sym l ∙ k)) (left r e);
    }
    save-frees on_save id r (some q) s l e =
        rw (works s.calls, save_run) (saved s id (record q { updated = now }) (good r q e))

    pub modify-frees :
        (on_find on_save : Option RunError) (id : Text) (s : Store)
        → IsFree bad (modify fails on_find on_save id now change s).1 id
    unfolding modify
    modify-frees on_find on_save id s = elim (Option-cases (lookup s.runs id)) [
      | inl e ↦
          rw (find_run-lookup id s ∙ e, modify) (record { is_good = λ r k. absurd (cc (e, k)) })
      | inr (r, e) ↦
          rw (find_run-lookup id s ∙ e, modify) (save-frees on_save id r (change r) (tick s) e refl)
    ]

-- What is shared by the two sweeps: a step that skips the records that are not old enough.
module _ (bad : JobRun → Bool) (old : JobRun → Bool)
    (step : Text × JobRun → Store → Option RunError × Store)
    (keeps : (x : Text × JobRun) (s : Store) (k : Text)
      → IsFree bad s k
      → IsFree bad (step x s).1 k) where
  pub for_each-keeps :
      (xs : List (Text × JobRun)) (first : Option RunError) (s : Store) (k : Text)
      → IsFree bad s k
      → IsFree bad (for_each step xs first s).1 k
  unfolding for_each
  for_each-keeps [] first s k h = h
  for_each-keeps (x ∷ xs) first s k h =
      for_each-keeps xs (or_else first (step x s).0) (step x s).1 k (keeps x s k h)

  pub for_each-frees :
      (frees : (id : Text) (r : JobRun) (s : Store)
        → old r ≡ true
        → IsFree bad (step (id, r) s).1 id)
      (id : Text) (r : JobRun) {xs : List (Text × JobRun)} (first : Option RunError) (s : Store)
      → old r ≡ true
      → In (id, r) xs
      → IsFree bad (for_each step xs first s).1 id
  unfolding for_each
  for_each-frees frees id r first s o (here {xs = xs}) =
      for_each-keeps xs (or_else first (step (id, r) s).0) (step (id, r) s).1 id (frees id r s o)
  for_each-frees frees id r first s o (there {x = x} i) =
      for_each-frees frees id r (or_else first (step x s).0) (step x s).1 o i
