-- ===== src/Phases/Metrics.antt =====
-- internal/deploymetrics/deploymetrics.go: the totals of each phase, fed by the phase tracker. An int64 is
-- its value modulo 2^64. The newest observation is the first, as the tracker's store lists them.
use mathlib.Core.Path.{subst}
use wireops.Prelude.{
  ℕ, ◌+◌, ◌-◌, ◌%◌, ◌≡◌, refl, ◌∙◌, ap, inl, inr, Bool, true, false, Option, none, some, List, [],
  ◌∷◌, arith, if◌then◌else◌,
}
use wireops.Go.Text.{Text, text_eq, text_eq_refl, text_eq-apart, Text-cases}
use wireops.Go.Int.{ℤ, pos, negsuc}
use wireops.Go.Value.{lookup}
use wireops.Go.Assoc.{put, lookup-put, lookup-put_other}
use wireops.Phases.{Observation, deploy_phase_order, phase_status_error}

-- `phaseStat`.
pub record PhaseStat : Type 0 where
  pub duration_ms_sum : ℕ
  pub count : ℕ
  pub failures : ℕ

abbrev pub no_stat : PhaseStat
no_stat = record { duration_ms_sum = 0; count = 0; failures = 0 }

abbrev pub int64 : ℕ → ℕ
int64 n = n % 0x10000000000000000

abbrev pub bits : ℤ → ℕ
bits (pos n) = int64 n
bits (negsuc n) = 0xFFFFFFFFFFFFFFFF - int64 n

abbrev pub one_if : Bool → ℕ
one_if true = 1
one_if false = 0

abbrev pub is_error : Observation → Bool
is_error o = text_eq o.status phase_status_error

abbrev pub Stats : Type 0
Stats = List (Text × PhaseStat)

abbrev pub stat_at : Stats → Text → PhaseStat
stat_at stats phase = elim (lookup stats phase) [ none ↦ no_stat | some st ↦ st ]

abbrev pub add_to : Observation → PhaseStat → PhaseStat
add_to o st = record {
  duration_ms_sum = int64 (st.duration_ms_sum + bits o.duration_ms);
  count = int64 (st.count + 1);
  failures = int64 (st.failures + one_if (is_error o));
}

unfoldable pub record_phase_duration : Observation → Stats → Stats
record_phase_duration o stats = put stats o.phase (add_to o (stat_at stats o.phase))

unfoldable pub record_all : List Observation → Stats
record_all [] = []
record_all (o ∷ os) = record_phase_duration o (record_all os)

-- `Serialize`: the samples, in the order of the phases; the text of each is fixed but for them.
abbrev pub add_sample : Text → Option PhaseStat → Stats → Stats
add_sample phase none rest = rest
add_sample phase (some st) rest = (phase, st) ∷ rest

unfoldable pub samples : List Text → Stats → Stats
samples [] stats = []
samples (phase ∷ phases) stats = add_sample phase (lookup stats phase) (samples phases stats)

unfoldable pub serialize : Stats → Stats
serialize stats = samples deploy_phase_order stats

-- The totals without wrap-around.
abbrev pub total : (Observation → ℕ) → Text → List Observation → ℕ
total f phase [] = 0
total f phase (o ∷ os) =
    let rest = total f phase os in if text_eq o.phase phase then rest + f o else rest

abbrev pub totals : Text → List Observation → PhaseStat
totals phase os = record {
  duration_ms_sum = int64 (total (λ o. bits o.duration_ms) phase os);
  count = int64 (total (λ o. 1) phase os);
  failures = int64 (total (λ o. one_if (is_error o)) phase os);
}

int64_add : (a b : ℕ) → int64 (int64 a + b) ≡ int64 (a + b)
int64_add a b = omega arith

added :
    (o : Observation) (phase : Text) (os : List Observation)
    → add_to o (totals phase os) ≡ record {
      duration_ms_sum = int64 (total (λ x. bits x.duration_ms) phase os + bits o.duration_ms);
      count = int64 (total (λ x. 1) phase os + 1);
      failures = int64 (total (λ x. one_if (is_error x)) phase os + one_if (is_error o));
    }
added o phase os =
    rw
      (
        int64_add (total (λ x. bits x.duration_ms) phase os) (bits o.duration_ms),
        int64_add (total (λ x. 1) phase os) 1,
        int64_add (total (λ x. one_if (is_error x)) phase os) (one_if (is_error o)),
      )
      refl

-- What is held for a phase are the sum of the durations that were observed of it, their number and the
-- number of errors among them, each modulo 2^64; nothing that is observed of another phase changes them.
pub record_all-totals :
    (phase : Text) (os : List Observation) → stat_at (record_all os) phase ≡ totals phase os
unfolding record_all record_phase_duration lookup
record_all-totals phase [] = refl
record_all-totals phase (o ∷ os) = elim (Text-cases o.phase phase) [
  | inl same ↦
      subst (λ p. stat_at (record_all (o ∷ os)) p ≡ totals p (o ∷ os)) same
        (rw (text_eq_refl o.phase) (
          ap (λ e. elim e [ none ↦ no_stat | some st ↦ st ])
            (lookup-put (record_all os) o.phase (add_to o (stat_at (record_all os) o.phase)))
          ∙ ap (add_to o) (record_all-totals o.phase os)
          ∙ added o o.phase os))
  | inr other ↦
      rw
        (
          text_eq-apart other,
          stat_at,
          lookup-put_other (record_all os) (add_to o (stat_at (record_all os) o.phase)) other,
        )
        (record_all-totals phase os)
]
