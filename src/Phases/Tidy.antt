-- ===== src/Phases/Tidy.antt =====
-- At every moment at most one row of a tracker is open, it is the tracker's current one, and the
-- metrics have heard of each row that was closed.
use mathlib.Core.Path.{subst}
use mathlib.Core.List.{Perm}
use mathlib.Core.List.Perm
use wireops.Prelude.{
  ℕ, suc, ◌≡◌, ◌≢◌, refl, ap, sym, ◌∙◌, inl, inr, Bool, true, false, Option, none, some, ◌∷◌,
  Bool-cases, Option-cases, some_inj, All, ◌==◌, ==_iff,
}
use wireops.Go.Text.{Text, text_eq}
use wireops.Phases.{
  Row, Store, Tracker, Result, phase_seq, phase_status_running, set_row, observe, tick, close_row,
  finish, elapsed,
}
use wireops.Phases.Rows.{
  row_at, is_running, report, reports, row_at-set_same, row_at-set_other, reports-set, All-set,
  All-row_at,
}

pub record IsTidy (t : Tracker) (s : Store) : Type 0 where
  pub current_open :
      (i : ℕ) (r : Row)
      → t.current ≡ some (i, r)
      → (x : Row) × (row_at s.rows i ≡ some x)
        × (is_running x ≡ true)
        × (x.phase ≡ r.phase)
        × (x.seq ≡ r.seq)
  pub only_current :
      (i : ℕ) (x : Row)
      → row_at s.rows i ≡ some x
      → is_running x ≡ true
      → (r : Row) × (t.current ≡ some (i, r))
  pub reported : Perm s.observed (reports s.rows)
  pub in_order : All (λ x. x.seq ≡ phase_seq x.phase) s.rows

abbrev pub IsTidyAfter : Result → Type 0
IsTidyAfter r = IsTidy r.1 r.2

pub pair_inj :
    {i j : ℕ} {q r : Row}
    → ◌≡◌ {A = Option (ℕ × Row)} (some (i, q)) (some (j, r))
    → (i ≡ j) × (q ≡ r)
pair_inj e = let p = some_inj e in (ap (λ x. x.0) p, ap (λ x. x.1) p)

-- A row that was closed is not the open one any more, and no other was.
none_open :
    (i : ℕ) (r w : Row) (t : Tracker) (s : Store)
    → IsTidy t s
    → t.current ≡ some (i, r)
    → is_running w ≡ false
    → (j : ℕ) (y : Row) → row_at (set_row i w s.rows) j ≡ some y
    → is_running y ≡ false
none_open i r w t s v c closed j y there =
    let (x, at, running, phase, seq) = v.current_open i r c in
    elim (Bool-cases (i == j)) [
      | inl same ↦
          let hit = row_at-set_same s.rows i w at in
          let as_j =
            subst (λ k. row_at (set_row i w s.rows) k ≡ some w) ((==_iff i j).0 same) hit in
          ap is_running (sym (some_inj (sym as_j ∙ there))) ∙ closed
      | inr apart ↦
          let n : i ≢ j = λ e. cc (apart, (==_iff i j).1 e) in
          let old = sym (row_at-set_other s.rows i j w n) ∙ there in
          elim (Bool-cases (is_running y)) [
            | inl run ↦ absurd (n (pair_inj (sym c ∙ (v.only_current j y old run).1)).0)
            | inr f ↦ f
          ]
    ]

close_row-failed :
    (i : ℕ) (r : Row) (status detail : Text) (now : ℕ) (t : Tracker) (s : Store)
    → IsTidy t s
    → t.current ≡ some (i, r)
    → IsTidy
        (record t {
          current = some (
            i,
            record r { status = status; duration_ms = elapsed r.started_at now; detail = detail },
          );
        })
        (tick s)
close_row-failed i r status detail now t s v c = record {
  current_open = λ j q e.
      let (same, as_written) = pair_inj e in
      let (x, at, running, phase, seq) = v.current_open i r c in
      (
        x,
        subst (λ k. row_at s.rows k ≡ some x) same at,
        running,
        phase ∙ ap (λ y. y.phase) as_written,
        seq ∙ ap (λ y. y.seq) as_written,
      );
  only_current = λ j x at running.
      let (q, e) = v.only_current j x at running in
      (
        _,
        ap
            (λ k. some (
              k,
              record r { status = status; duration_ms = elapsed r.started_at now; detail = detail },
            ))
            (pair_inj (sym c ∙ e)).0,
      );
  reported = v.reported;
  in_order = v.in_order;
}

close_row-saved :
    (i : ℕ) (r w : Row) (t : Tracker) (s : Store)
    → IsTidy t s
    → t.current ≡ some (i, r)
    → is_running w ≡ false
    → w.phase ≡ r.phase
    → w.seq ≡ r.seq
    → IsTidy
        (record t { current = none })
        (record s {
          rows = set_row i w s.rows;
          calls = suc s.calls;
          observed = report w ∷ s.observed;
        })
close_row-saved i r w t s v c closed same_phase same_seq =
    let (x, at, running, phase, seq) = v.current_open i r c in
    record {
      current_open = λ j q e. cc e;
      only_current = λ j y there run. cc (run, none_open i r w t s v c closed j y there);
      reported =
          Perm.trans (Perm.cons (report w) v.reported) (reports-set s.rows i w at running closed);
      in_order =
          All-set (λ y. y.seq ≡ phase_seq y.phase) s.rows i w v.in_order
            (same_seq
              ∙ sym seq
              ∙ All-row_at (λ y. y.seq ≡ phase_seq y.phase) s.rows i v.in_order at
              ∙ ap phase_seq (phase ∙ sym same_phase));
    }

module _ (fails : ℕ → Bool) where
  pub close_row-IsTidy :
      (i : ℕ) (r : Row) (status detail : Text) (now : ℕ) (t : Tracker) (s : Store)
      → text_eq status phase_status_running ≡ false
      → IsTidy t s
      → t.current ≡ some (i, r)
      → IsTidyAfter (close_row fails i r status detail now t s)
  unfolding close_row observe
  close_row-IsTidy i r status detail now t s n v c = elim (Bool-cases (fails s.calls)) [
    | inl f ↦ rw (f, close_row) (close_row-failed i r status detail now t s v c)
    | inr f ↦ rw (f, close_row) (close_row-saved i r _ t s v c n refl refl)
  ]

  pub finish-IsTidy :
      (phase status detail : Text) (now : ℕ) (t : Tracker) (s : Store)
      → text_eq status phase_status_running ≡ false
      → IsTidy t s
      → IsTidyAfter (finish fails phase status detail now t s)
  unfolding finish
  finish-IsTidy phase status detail now t s n v = elim (Option-cases t.current) [
    | inl e ↦ rw (e, finish) v
    | inr ((i, r), e) ↦
        rw (e, finish)
          (elim (Bool-cases (text_eq r.phase phase)) [
            | inl p ↦ rw (p) (close_row-IsTidy i r status detail now t s n v e)
            | inr p ↦ rw (p) v
          ])
  ]
