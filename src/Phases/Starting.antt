-- ===== src/Phases/Starting.antt =====
-- `start` keeps the rows tidy.
use mathlib.Core.Path.{subst}
use mathlib.Core.List.{Perm, append-nil}
use wireops.Prelude.{
  ℕ, suc, ◌≡◌, refl, ap, sym, ◌∙◌, inl, inr, Bool, false, none, some, [], ◌∷◌, ◌++◌, length, arith,
  Bool-cases, Option-cases, All-append,
}
use wireops.Go.Text.{Text, text_eq, text_eq_refl}
use wireops.Phases.{
  Row, Store, Tracker, Result, phase_seq, phase_status_running, phase_status_success, open_row,
  observe, tick, close_row, finish, open_phase, then_open, start,
}
use wireops.Phases.Rows.{row_at, row_at-new, row_at-added, reports-new}
use wireops.Phases.Tidy.{IsTidy, IsTidyAfter, pair_inj, finish-IsTidy}

success_final : text_eq phase_status_success phase_status_running ≡ false
unfolding text_eq
success_final = refl

pub unchanged : {n : ℕ} (t : Tracker) (s : Store) → IsTidy t s → IsTidy t (record s { calls = n })
unchanged t s v = record {
  current_open = v.current_open;
  only_current = v.only_current;
  reported = v.reported;
  in_order = v.in_order;
}

module _ (fails : ℕ → Bool) where
  opened :
      (phase : Text) (now : ℕ) (t : Tracker) (s : Store)
      → IsTidy t s
      → t.current ≡ none
      → IsTidy
          (record t { current = some (length s.rows, open_row t.sync_log_id phase now) })
          (record (tick (tick s)) { rows = s.rows ++ (open_row t.sync_log_id phase now ∷ []) })
  unfolding text_eq
  opened phase now t s v c =
      let r : Row = open_row t.sync_log_id phase now in
      record {
        current_open = λ i q e.
            let (j, same) = pair_inj e in
            (
              r,
              subst (λ k. row_at (s.rows ++ (r ∷ [])) k ≡ some r) j (row_at-new s.rows r),
              refl,
              ap (λ x. x.phase) same,
              ap (λ x. x.seq) same,
            );
        only_current = λ i x at run. elim (row_at-added s.rows r i at) [
          | inl old ↦ cc (c, (v.only_current i x old run).1)
          | inr (j, e) ↦ (r, ap (λ k. some (k, r)) (sym j))
        ];
        reported = subst (Perm s.observed) (sym (reports-new s.rows r ∙ append-nil _)) v.reported;
        in_order =
            All-append (λ x. x.seq ≡ phase_seq x.phase) s.rows (r ∷ []) v.in_order (refl, tt);
      }

  open_phase-IsTidy :
      (phase : Text) (now : ℕ) (t : Tracker) (s : Store)
      → IsTidy t s
      → t.current ≡ none
      → IsTidyAfter (open_phase fails phase now t s)
  unfolding open_phase
  open_phase-IsTidy phase now t s v c = elim (Bool-cases (fails s.calls)) [
    | inl f ↦ rw (f, open_phase) (unchanged t s v)
    | inr f ↦ elim (Bool-cases (fails (suc s.calls))) [
      | inl g ↦ rw (f, open_phase) (rw g (unchanged t s v))
      | inr g ↦ rw (f, open_phase) (rw g (opened phase now t s v c))
    ]
  ]

  -- After a `finish` of the open phase that returned no error, no phase is open.
  finish-none_open :
      (i : ℕ) (r : Row) (status detail : Text) (now : ℕ) (t : Tracker) (s : Store)
      → t.current ≡ some (i, r)
      → (finish fails r.phase status detail now t s).0 ≡ none
      → (finish fails r.phase status detail now t s).1.current ≡ none
  unfolding finish close_row observe
  finish-none_open i r status detail now t s c h = ground (arith, c, h, text_eq_refl r.phase)

  then_open-IsTidy :
      (phase : Text) (now : ℕ) (r : Result)
      → IsTidyAfter r
      → (r.0 ≡ none → r.1.current ≡ none)
      → IsTidyAfter (then_open fails phase now r)
  unfolding then_open
  then_open-IsTidy phase now (some e, t, s) v c = v
  then_open-IsTidy phase now (none, t, s) v c = open_phase-IsTidy phase now t s v (c refl)

  pub start-IsTidy :
      (phase : Text) (now later : ℕ) (t : Tracker) (s : Store)
      → IsTidy t s
      → IsTidyAfter (start fails phase now later t s)
  unfolding start
  start-IsTidy phase now later t s v = elim (Option-cases t.current) [
    | inl e ↦ rw (e, start) (open_phase-IsTidy phase later t s v e)
    | inr ((i, r), e) ↦
        rw (e, start)
          (then_open-IsTidy phase later (finish fails r.phase phase_status_success [] now t s)
            (finish-IsTidy fails r.phase phase_status_success [] now t s success_final v)
            (finish-none_open i r phase_status_success [] now t s e))
  ]
