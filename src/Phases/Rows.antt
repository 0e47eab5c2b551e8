-- ===== src/Phases/Rows.antt =====
-- The rows of a timeline by their numbers: what saving a new row and an old one does to them.
use mathlib.Core.Path.{subst}
use mathlib.Core.List.{Perm}
use mathlib.Core.List.Perm
use wireops.Prelude.{
  ℕ, zero, suc, ◌≡◌, ◌≢◌, refl, ap, sym, ◌∙◌, ◌⊎◌, inl, inr, Bool, true, false, Option, none, some,
  List, [], ◌∷◌, ◌++◌, length, if◌then◌else◌, some_inj, All, Bool-cases,
}
use wireops.Go.Text.{text_eq}
use wireops.Phases.{Row, Observation, phase_status_running, set_row}

-- The row with the number.
abbrev pub row_at : List Row → ℕ → Option Row
row_at [] i = none
row_at (x ∷ xs) zero = some x
row_at (x ∷ xs) (suc i) = row_at xs i

abbrev pub is_running : Row → Bool
is_running r = text_eq r.status phase_status_running

-- What the metrics are to hear of a row that is closed, and of all the rows that are.
abbrev pub report : Row → Observation
report r = record { phase = r.phase; status = r.status; duration_ms = r.duration_ms }

abbrev pub reports : List Row → List Observation
reports [] = []
reports (x ∷ xs) = let rest = reports xs in if is_running x then rest else report x ∷ rest

pub row_at-set_same :
    (rows : List Row) (i : ℕ) (r : Row) {x : Row}
    → row_at rows i ≡ some x
    → row_at (set_row i r rows) i ≡ some r
unfolding set_row
row_at-set_same [] i r e = cc e
row_at-set_same (y ∷ rows) zero r e = refl
row_at-set_same (y ∷ rows) (suc i) r e = row_at-set_same rows i r e

pub row_at-set_other :
    (rows : List Row) (i j : ℕ) (r : Row) → i ≢ j → row_at (set_row i r rows) j ≡ row_at rows j
unfolding set_row
row_at-set_other [] i j r n = refl
row_at-set_other (y ∷ rows) zero zero r n = absurd (n refl)
row_at-set_other (y ∷ rows) zero (suc j) r n = refl
row_at-set_other (y ∷ rows) (suc i) zero r n = refl
row_at-set_other (y ∷ rows) (suc i) (suc j) r n = row_at-set_other rows i j r (λ e. n (ap suc e))

pub row_at-new : (rows : List Row) (r : Row) → row_at (rows ++ (r ∷ [])) (length rows) ≡ some r
row_at-new [] r = refl
row_at-new (x ∷ rows) r = row_at-new rows r

-- A row of a store to which one was added is an old one or the new one.
pub row_at-added :
    (rows : List Row) (r : Row) (i : ℕ) {x : Row}
    → row_at (rows ++ (r ∷ [])) i ≡ some x
    → (row_at rows i ≡ some x) ⊎ ((i ≡ length rows) × (x ≡ r))
row_at-added [] r zero e = inr (refl, sym (some_inj e))
row_at-added [] r (suc i) e = cc e
row_at-added (y ∷ rows) r zero e = inl e
row_at-added (y ∷ rows) r (suc i) e = elim (row_at-added rows r i e) [
  | inl h ↦ inl h
  | inr (j, h) ↦ inr (ap suc j, h)
]

pub row_at-kept :
    (rows : List Row) (r : Row) (i : ℕ) {x : Row}
    → row_at rows i ≡ some x
    → row_at (rows ++ (r ∷ [])) i ≡ some x
row_at-kept [] r i e = cc e
row_at-kept (y ∷ rows) r zero e = e
row_at-kept (y ∷ rows) r (suc i) e = row_at-kept rows r i e

pub reports-new :
    (rows : List Row) (r : Row) → reports (rows ++ (r ∷ [])) ≡ reports rows ++ reports (r ∷ [])
reports-new [] r = refl
reports-new (x ∷ rows) r = elim (Bool-cases (is_running x)) [
  | inl run ↦ rw (run, reports) (reports-new rows r)
  | inr f ↦ rw (f, reports) (ap (λ os. report x ∷ os) (reports-new rows r))
]

-- Closing a running row adds what is to be heard of it.
pub reports-set :
    (rows : List Row) (i : ℕ) (r : Row) {x : Row}
    → row_at rows i ≡ some x
    → is_running x ≡ true
    → is_running r ≡ false
    → Perm (report r ∷ reports rows) (reports (set_row i r rows))
unfolding set_row
reports-set [] i r e h n = cc e
reports-set (y ∷ rows) zero r {x} e h n =
    let was : is_running y ≡ true = ap is_running (some_inj e) ∙ h in rw (was, n) (Perm.refl _)
reports-set (y ∷ rows) (suc i) r e h n =
    let ih = reports-set rows i r e h n in
    elim (Bool-cases (is_running y)) [
      | inl run ↦ rw (run, reports) ih
      | inr f ↦
          rw (f, reports)
            (Perm.trans (Perm.swap (report y) (report r) (reports rows)) (Perm.cons (report y) ih))
    ]

pub All-set :
    (P : Row → Type 0) (rows : List Row) (i : ℕ) (r : Row)
    → All P rows
    → P r
    → All P (set_row i r rows)
unfolding set_row
All-set P [] i r h p = tt
All-set P (x ∷ rows) zero r h p = (p, h.1)
All-set P (x ∷ rows) (suc i) r h p = (h.0, All-set P rows i r h.1 p)

pub All-row_at :
    (P : Row → Type 0) (rows : List Row) (i : ℕ) {x : Row}
    → All P rows
    → row_at rows i ≡ some x
    → P x
All-row_at P [] i h e = cc e
All-row_at P (y ∷ rows) zero h e = subst P (some_inj e) h.0
All-row_at P (y ∷ rows) (suc i) h e = All-row_at P rows i h.1 e
