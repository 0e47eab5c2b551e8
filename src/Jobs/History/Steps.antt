-- ===== src/Jobs/History/Steps.antt =====
-- What it means that a call takes no run back, for the writes that the calls consist of.
use wireops.Prelude.{
  ℕ, ◌≤◌, ◌≡◌, inl, inr, refl, sym, ap, ◌∙◌, Bool, Option, none, some, List, [], ◌∷◌, arith,
  Bool-cases, Option-cases, or_else, some_inj,
}
use wireops.Go.Text.{Text, Text-cases}
use wireops.Go.Value.{lookup}
use wireops.Go.Assoc.{put, lookup-put, lookup-put_other}
use wireops.Jobs.{JobRun, Store, RunError, tick, find_run, add_run, save_run, modify}
use wireops.Jobs.Sweep.{for_each}
use wireops.Jobs.History.{progress}

-- Every run of the first store is in the second, and is as far there.
pub record IsForward (s t : Store) : Type 0 where
  pub keeps :
      (id : Text) (r : JobRun)
      → lookup s.runs id ≡ some r
      → (q : JobRun) × (lookup t.runs id ≡ some q) × (progress r.status ≤ progress q.status)

pub stays : (s : Store) → IsForward s (tick s)
stays s = record { keeps = λ id r e. (r, e, omega arith) }

pub unchanged : (s : Store) → IsForward s s
unchanged s = record { keeps = λ id r e. (r, e, omega arith) }

pub after : {s t u : Store} → IsForward s t → IsForward t u → IsForward s u
after f g = record {
  keeps = λ id r e.
      let (q, e', le) = f.keeps id r e in
      let (x, e'', le') = g.keeps id q e' in (x, e'', omega arith);
}

-- A run is saved over one that is not as far, or where there was none.
put-IsForward :
    (s : Store) (id : Text) (q : JobRun)
    → ((r : JobRun) → lookup s.runs id ≡ some r → progress r.status ≤ progress q.status)
    → IsForward s (record (tick s) { runs = put s.runs id q })
put-IsForward s id q h = record {
  keeps = λ k r e. elim (Text-cases id k) [
    | inl same ↦ (q, rw (← same) (lookup-put s.runs id q), h r (rw same e))
    | inr other ↦ (r, lookup-put_other s.runs q other ∙ e, omega arith)
  ];
}

put_new :
    (s : Store) (id : Text) (q : JobRun)
    → lookup s.runs id ≡ none
    → IsForward s (record s { runs = put s.runs id q })
put_new s id q n = record {
  keeps = λ k r e. elim (Text-cases id k) [
    | inl same ↦ absurd (cc (n, ap (lookup s.runs) same, e))
    | inr other ↦ (r, lookup-put_other s.runs q other ∙ e, omega arith)
  ];
}

pub add_run-IsForward : (id : Text) (r : JobRun) (s : Store) → IsForward s (add_run id r s).1
unfolding add_run
add_run-IsForward id r s = elim (Option-cases (lookup s.runs id)) [
  | inl e ↦ rw (e, add_run) (put_new s id r e)
  | inr (old, e) ↦ rw (e, add_run) (unchanged s)
]

-- A change that takes no run back.
pub record Advances (change : JobRun → Option JobRun) : Type 0 where
  pub up : (r q : JobRun) → change r ≡ some q → progress r.status ≤ progress q.status

pub for_each-IsForward :
    (step : Text × JobRun → Store → Option RunError × Store)
    → ((x : Text × JobRun) (s : Store) → IsForward s (step x s).1)
    → (xs : List (Text × JobRun)) (first : Option RunError) (s : Store)
    → IsForward s (for_each step xs first s).1
unfolding for_each
for_each-IsForward step h [] first s = unchanged s
for_each-IsForward step h (x ∷ xs) first s =
    after (h x s) (for_each-IsForward step h xs (or_else first (step x s).0) (step x s).1)

module _ (fails : ℕ → Bool) where
  pub save_run-IsForward :
      (on_save : Option RunError) (id : Text) (now : ℕ) (q : JobRun) (s : Store)
      → ((r : JobRun) → lookup s.runs id ≡ some r → progress r.status ≤ progress q.status)
      → IsForward s (save_run fails on_save id now (some q) s).1
  unfolding save_run
  save_run-IsForward on_save id now q s h = elim (Bool-cases (fails s.calls)) [
    | inl f ↦ rw (f, save_run) (stays s)
    | inr f ↦ rw (f, save_run) (put-IsForward s id (record q { updated = now }) h)
  ]

  changed :
      (on_save : Option RunError) (id : Text) (now : ℕ) (r : JobRun) (o : Option JobRun) (s : Store)
      → lookup s.runs id ≡ some r
      → ((q : JobRun) → o ≡ some q → progress r.status ≤ progress q.status)
      → IsForward s (save_run fails on_save id now o s).1
  changed on_save id now r none s e h = unfold save_run in unchanged s
  changed on_save id now r (some q) s e h =
      save_run-IsForward on_save id now q s (λ x e'. rw (some_inj (sym e' ∙ e)) (h q refl))

  find_run-lookup :
      (id : Text) (r : JobRun) (s : Store)
      → find_run fails id s ≡ some r
      → lookup s.runs id ≡ some r
  unfolding find_run
  find_run-lookup id r s h = ground (arith, h)

  pub modify-IsForward :
      (on_find on_save : Option RunError) (id : Text) (now : ℕ) (change : JobRun → Option JobRun)
      (s : Store)
      → Advances change
      → IsForward s (modify fails on_find on_save id now change s).1
  unfolding modify
  modify-IsForward on_find on_save id now change s h = elim (Option-cases (find_run fails id s)) [
    | inl e ↦ rw (e, modify) (stays s)
    | inr (r, e) ↦
        rw (e, modify)
          (after (stays s)
            (changed on_save id now r (change r) (tick s) (find_run-lookup id r s e) (h.up r)))
  ]
