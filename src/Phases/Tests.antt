-- ===== src/Phases/Tests.antt =====
-- A timeline with a refused call of the store.
use mathlib.Core.List.Perm
use wireops.Go.Int.{pos, negsuc}
use wireops.Prelude.{ℕ, ◌≡◌, refl, Bool, List, [], ◌∷◌, All, ◌==◌}
use wireops.Go.Text.{Text, codes}
use wireops.Phases.{
  Observation, Call, starting, finishing, failing, skipping, phase_status_success,
  new_phase_tracker, no_rows, perform_all,
}
use wireops.Phases.Metrics.{record_all, record_all-totals, stat_at, totals}
use wireops.Phases.Tidy.{IsTidy}
use wireops.Phases.Timeline.{IsFinal, perform_all-IsTidy}

abbrev third_fails : ℕ → Bool
third_fails n = n == 2

abbrev deploy : List Call
deploy =
    starting (codes "render") 0 1
    ∷ finishing (codes "render") phase_status_success [] 5
    ∷ finishing (codes "render") phase_status_success [] 6
    ∷ skipping (codes "policy_check") [] 7
    ∷ starting (codes "compose_up") 8 9
    ∷ failing (codes "boom") 10
    ∷ []

deploy-IsFinal : All IsFinal deploy
unfolding wireops.Go.Text.text_eq
deploy-IsFinal = (tt, (refl, (refl, (tt, (tt, (tt, tt))))))

start-IsTidy : IsTidy (new_phase_tracker (codes "log")) no_rows
start-IsTidy = record {
  current_open = λ i r e. cc e;
  only_current = λ i x e. cc e;
  reported = Perm.refl [];
  in_order = tt;
}

perform_all-IsTidy_example :
    IsTidy
      (perform_all third_fails deploy (new_phase_tracker (codes "log"), no_rows)).0
      (perform_all third_fails deploy (new_phase_tracker (codes "log"), no_rows)).1
perform_all-IsTidy_example =
    perform_all-IsTidy third_fails deploy (new_phase_tracker (codes "log")) no_rows deploy-IsFinal
      start-IsTidy

abbrev observed : List Observation
observed =
    record { phase = codes "render"; status = phase_status_success; duration_ms = pos 4 }
    ∷ record { phase = codes "lint"; status = phase_status_success; duration_ms = pos 1 }
    ∷ record { phase = codes "render"; status = codes "error"; duration_ms = negsuc 1 }
    ∷ []

record_all-totals_example :
    stat_at (record_all observed) (codes "render") ≡ totals (codes "render") observed
record_all-totals_example = record_all-totals (codes "render") observed
