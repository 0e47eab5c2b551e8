-- ===== src/Phases/Timeline.antt =====
-- Whole timelines: whatever calls are made, and whichever of them the store refuses.
use mathlib.Core.Path.{subst}
use mathlib.Core.List.{Perm, perm_append_singleton}
use mathlib.Core.List.Perm
use wireops.Prelude.{
  sym, ℕ, suc, ◌≡◌, refl, ap, inl, inr, Bool, false, none, some, List, [], ◌∷◌, ◌++◌, arith,
  Bool-cases, Option-cases, All, All-append,
}
use wireops.Go.Text.{Text, text_eq, text_eq_refl}
use wireops.Phases.{
  Row, Store, Tracker, PhaseError, phase_seq, phase_status_running, phase_status_error,
  phase_status_skipped, observe, tick, close_row, finish, Call, starting, finishing, failing,
  skipping, completing, perform, perform_all, finish_current_as_error, add_closed, record_skipped,
  record_completed,
}
use wireops.Phases.Rows.{
  row_at, is_running, report, reports, row_at-added, row_at-kept, reports-new,
}
use wireops.Phases.Tidy.{IsTidy, IsTidyAfter, finish-IsTidy}
use wireops.Phases.Starting.{unchanged, start-IsTidy}

error_final : text_eq phase_status_error phase_status_running ≡ false
unfolding text_eq
error_final = refl

skipped_final : text_eq phase_status_skipped phase_status_running ≡ false
unfolding text_eq
skipped_final = refl

-- The statuses that the callers pass close a phase.
abbrev pub IsFinal : Call → Type 0
IsFinal (starting phase now later) = Unit
IsFinal (finishing phase status detail now) = text_eq status phase_status_running ≡ false
IsFinal (failing detail now) = Unit
IsFinal (skipping phase detail now) = Unit
IsFinal (completing phase status started ms detail) = text_eq status phase_status_running ≡ false

-- A row that is closed from the start is to be heard of at once.
reports-closed :
    (rows : List Row) (r : Row)
    → is_running r ≡ false
    → Perm (report r ∷ reports rows) (reports (rows ++ (r ∷ [])))
reports-closed rows r n =
    subst (Perm (report r ∷ reports rows)) (sym (reports-new rows r))
      (rw n (Perm.symm (perm_append_singleton (report r) (reports rows))))

module _ (fails : ℕ → Bool) where
  added :
      (r : Row) (t : Tracker) (s : Store)
      → IsTidy t s
      → is_running r ≡ false
      → r.seq ≡ phase_seq r.phase
      → IsTidy t
          (record (tick (tick s)) { rows = s.rows ++ (r ∷ []); observed = report r ∷ s.observed })
  added r t s v n q = record {
    current_open = λ i w e.
        let (x, at, run, p, k) = v.current_open i w e in (x, row_at-kept s.rows r i at, run, p, k);
    only_current = λ i x at run. elim (row_at-added s.rows r i at) [
      | inl old ↦ v.only_current i x old run
      | inr (j, e) ↦ cc (run, n, ap is_running e)
    ];
    reported = Perm.trans (Perm.cons (report r) v.reported) (reports-closed s.rows r n);
    in_order = All-append (λ x. x.seq ≡ phase_seq x.phase) s.rows (r ∷ []) v.in_order (q, tt);
  }

  add_closed-IsTidy :
      (error : PhaseError) (r : Row) (t : Tracker) (s : Store)
      → is_running r ≡ false
      → r.seq ≡ phase_seq r.phase
      → IsTidy t s
      → IsTidyAfter (add_closed fails error r t s)
  unfolding add_closed observe
  add_closed-IsTidy error r t s n q v = elim (Bool-cases (fails s.calls)) [
    | inl f ↦ rw (f, add_closed) (unchanged t s v)
    | inr f ↦ elim (Bool-cases (fails (suc s.calls))) [
      | inl g ↦ rw (f, add_closed) (rw g (unchanged t s v))
      | inr g ↦ rw (f, add_closed) (rw g (added r t s v n q))
    ]
  ]

  finish_current-IsTidy :
      (detail : Text) (now : ℕ) (t : Tracker) (s : Store)
      → IsTidy t s
      → IsTidy
          (finish_current_as_error fails detail now t s).0
          (finish_current_as_error fails detail now t s).1
  unfolding finish_current_as_error
  finish_current-IsTidy detail now t s v = elim (Option-cases t.current) [
    | inl e ↦ rw (e, finish_current_as_error) v
    | inr ((i, r), e) ↦
        rw (e, finish_current_as_error)
          (finish-IsTidy fails r.phase phase_status_error detail now t s error_final v)
  ]

  perform-IsTidy :
      (c : Call) (t : Tracker) (s : Store)
      → IsFinal c
      → IsTidy t s
      → IsTidy (perform fails c (t, s)).0 (perform fails c (t, s)).1
  unfolding perform record_skipped record_completed
  perform-IsTidy (starting phase now later) t s f v = start-IsTidy fails phase now later t s v
  perform-IsTidy (finishing phase status detail now) t s f v =
      finish-IsTidy fails phase status detail now t s f v
  perform-IsTidy (failing detail now) t s f v = finish_current-IsTidy detail now t s v
  perform-IsTidy (skipping phase detail now) t s f v =
      add_closed-IsTidy _ _ t s skipped_final refl v
  perform-IsTidy (completing phase status started ms detail) t s f v =
      add_closed-IsTidy _ _ t s f refl v

  -- Whatever calls a timeline consists of, and whichever calls of the store fail: at most one row of
  -- the tracker is running, it is the tracker's current one, the metrics have heard of every other row
  -- once, with the phase, the status and the duration of the row, and of nothing else, and each row has
  -- the place of its phase. Calls that give a status give a final one.
  pub perform_all-IsTidy :
      (cs : List Call) (t : Tracker) (s : Store)
      → All IsFinal cs
      → IsTidy t s
      → IsTidy (perform_all fails cs (t, s)).0 (perform_all fails cs (t, s)).1
  unfolding perform_all
  perform_all-IsTidy [] t s f v = v
  perform_all-IsTidy (c ∷ cs) t s f v = perform_all-IsTidy cs _ _ f.1 (perform-IsTidy c t s f.0 v)

  finish-saved :
      (i : ℕ) (r : Row) (status detail : Text) (now : ℕ) (t : Tracker) (s : Store)
      → t.current ≡ some (i, r)
      → fails s.calls ≡ false
      → (finish fails r.phase status detail now t s).1.current ≡ none
  unfolding finish close_row observe
  finish-saved i r status detail now t s c ok = ground (arith, c, ok, text_eq_refl r.phase)

  cleanup-none_open :
      (detail : Text) (now : ℕ) (t : Tracker) (s : Store)
      → fails s.calls ≡ false
      → (finish_current_as_error fails detail now t s).0.current ≡ none
  unfolding finish_current_as_error
  cleanup-none_open detail now t s ok = elim (Option-cases t.current) [
    | inl e ↦ rw (e, finish_current_as_error) e
    | inr ((i, r), e) ↦
        rw (e, finish_current_as_error) (finish-saved i r phase_status_error detail now t s e ok)
  ]

  -- The deferred cleanup leaves no row running, if the store takes its call.
  pub finish_current_as_error-closes :
      (detail : Text) (now : ℕ) (t : Tracker) (s : Store)
      → IsTidy t s
      → fails s.calls ≡ false
      → (i : ℕ) (x : Row) → row_at (finish_current_as_error fails detail now t s).1.rows i ≡ some x
      → is_running x ≡ false
  finish_current_as_error-closes detail now t s v ok i x at = elim (Bool-cases (is_running x)) [
    | inl run ↦ cc (
      cleanup-none_open detail now t s ok,
      ((finish_current-IsTidy detail now t s v).only_current i x at run).1,
    )
    | inr f ↦ f
  ]
