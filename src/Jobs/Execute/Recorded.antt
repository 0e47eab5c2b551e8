-- ===== src/Jobs/Execute/Recorded.antt =====
-- internal/jobscheduler/scheduler.go: what createJobRun adds to the runs, and what it keeps.
use wireops.Prelude.{
  ℕ, suc, ◌≡◌, refl, inl, inr, ap, ◌∙◌, Bool, none, some, Bool-cases, Option-cases,
}
use wireops.Go.Text.{Text, Text-cases}
use wireops.Go.Value.{lookup}
use wireops.Go.Assoc.{lookup-put, lookup-put_other}
use wireops.Jobs.{JobRun, Store, RunStatus, tick, add_run, create_job_run}

-- Runs are added to the database, and none is changed.
pub record IsKept (s t : Store) : Type 0 where
  pub same : (id : Text) (r : JobRun) → lookup s.runs id ≡ some r → lookup t.runs id ≡ some r

pub untouched : {s t : Store} → s.runs ≡ t.runs → IsKept s t
untouched e = record { same = λ id r k. rw (← e) k }

pub both_kept : {s t u : Store} → IsKept s t → IsKept t u → IsKept s u
both_kept f g = record { same = λ id r k. g.same id r (f.same id r k) }

add_run-IsKept : (id : Text) (q : JobRun) (s : Store) → IsKept s (add_run id q s).1
unfolding add_run
add_run-IsKept id q s = elim (Option-cases (lookup s.runs id)) [
  | inl e ↦
      rw (e, add_run)
        (record {
          same = λ k r h. elim (Text-cases id k) [
            | inl same ↦ absurd (cc (e, ap (lookup s.runs) same, h))
            | inr other ↦ lookup-put_other s.runs q other ∙ h
          ];
        })
  | inr (r, e) ↦ rw (e, add_run) (untouched refl)
]

add_run-adds :
    (id : Text) (q : JobRun) (s : Store)
    → (add_run id q s).0 ≡ none
    → lookup (add_run id q s).1.runs id ≡ some q
unfolding add_run
add_run-adds id q s h = elim (Option-cases (lookup s.runs id)) [
  | inl e ↦ rw (e, add_run) (lookup-put s.runs id q)
  | inr (r, e) ↦ cc (rw (e, add_run) at h)
]

-- The run that a call of createJobRun asks for.
pub record IsRun (job worker trigger : Text) (status : RunStatus) (r : JobRun) : Type 0 where
  pub job_ok : r.job ≡ job
  pub worker_ok : r.worker ≡ worker
  pub trigger_ok : r.trigger ≡ trigger
  pub status_ok : r.status ≡ status

-- There is such a run under the id.
abbrev pub Has : Store → Text → (JobRun → Type 0) → Type 0
Has s id P = (r : JobRun) × (lookup s.runs id ≡ some r) × P r

module _ (fails : ℕ → Bool) where
  pub create_job_run-IsKept :
      (id job worker trigger : Text) (status : RunStatus) (output : Text) (now : ℕ) (s : Store)
      → IsKept s (create_job_run fails id job worker trigger status output now s).1
  unfolding create_job_run
  create_job_run-IsKept id job worker trigger status output now s =
      elim (Bool-cases (fails s.calls)) [
        | inl f ↦ rw (f, create_job_run) (untouched refl)
        | inr f ↦ elim (Bool-cases (fails (suc s.calls))) [
          | inl g ↦ rw (f, create_job_run) (rw g (untouched refl))
          | inr g ↦
              rw (f, create_job_run)
                (rw g (both_kept (untouched refl) (add_run-IsKept id _ (tick (tick s)))))
        ]
      ]

  pub create_job_run-adds :
      (id job worker trigger : Text) (status : RunStatus) (output : Text) (now : ℕ) (s : Store)
      → (create_job_run fails id job worker trigger status output now s).0 ≡ none
      → Has
          (create_job_run fails id job worker trigger status output now s).1
          id
          (IsRun job worker trigger status)
  unfolding create_job_run
  create_job_run-adds id job worker trigger status output now s h =
      elim (Bool-cases (fails s.calls)) [
        | inl f ↦ cc (rw (f, create_job_run) at h)
        | inr f ↦ elim (Bool-cases (fails (suc s.calls))) [
          | inl g ↦ cc (rw g at (rw (f, create_job_run) at h))
          | inr g ↦
              rw (f, create_job_run)
                (rw g (
                  _,
                  add_run-adds id _ (tick (tick s)) (rw g at (rw (f, create_job_run) at h)),
                  record { job_ok = refl; worker_ok = refl; trigger_ok = refl; status_ok = refl },
                ))
        ]
      ]
