-- ===== src/Health/Tests.antt =====
-- The health of concrete services.
use wireops.Prelude.{
  ℕ, zero, suc, ◌≡◌, ◌≢◌, ◌⊎◌, ◌↔◌, Bool, true, false, Option, none, List, [], ◌∷◌, length, All,
}
use wireops.Go.Text.{Text, codes}
use wireops.Go.Int.{pos}
use wireops.Health.{service_healthy, ServiceStatus, classify_service_instances}
use wireops.Health.Verdicts.{is_steady, classify-strict_iff}
use wireops.Health.PostCheck.{
  active, failed, passed, report, Reply, undelivered, answered, no_names, place_all,
  evaluate_post_check, post_deploy_check,
}
use wireops.Health.PostCheck.Evaluation.{is_healthy, sorted_out, total, evaluate_post_check-lem}
use wireops.Health.PostCheck.Retries.{IsHonest, post_deploy_check-IsHonest}

abbrev no_time : Text → Option ℕ
no_time t = none

abbrev running : ServiceStatus
running = record {
  service_name = codes "web";
  status = codes "running";
  health = codes "none";
  restart_count = pos 0;
  started_at = [];
  exit_code = pos 0;
}

abbrev crashed : ServiceStatus
crashed = record {
  service_name = codes "web";
  status = codes "exited";
  health = codes "none";
  restart_count = pos 0;
  started_at = [];
  exit_code = pos 1;
}

classify-strict_iff_example :
    (classify_service_instances no_time 0 (running ∷ crashed ∷ []) false true ≡ service_healthy)
    ↔ All (λ j. is_steady no_time 0 false true j ≡ true) (running ∷ crashed ∷ [])
classify-strict_iff_example = classify-strict_iff no_time 0 false running (crashed ∷ [])

evaluate_post_check-lem_example :
    let names = codes "web" ∷ codes "db" ∷ [] in
    let r = evaluate_post_check no_time [] names 0 (running ∷ []) in
    ((r.status ≡ active) ↔ All (λ m. is_healthy no_time [] 0 (running ∷ []) m ≡ true) names)
    × ((r.status ≡ failed) ↔ All (λ m. is_healthy no_time [] 0 (running ∷ []) m ≡ false) names)
    × (place_all no_time [] 0 (running ∷ []) names no_names
        ≡ sorted_out no_time [] 0 (running ∷ []) names)
    × (total (sorted_out no_time [] 0 (running ∷ []) names) ≡ length names)
    × (((r.status ≡ active) × (r.detail ≡ passed (length names)))
        ⊎ ((r.status ≢ active)
            × (r.detail ≡ report (length names) (sorted_out no_time [] 0 (running ∷ []) names))))
    × (r.skipped ≡ false)
evaluate_post_check-lem_example =
    evaluate_post_check-lem no_time [] 0 (running ∷ []) (codes "web") (codes "db" ∷ [])

abbrev always_running : Text → List ServiceStatus → Bool × List ServiceStatus
always_running out before = (true, running ∷ [])

abbrev second_answers : ℕ → Reply
second_answers n = elim n [
  | zero ↦ undelivered
  | suc m ↦ elim m [ zero ↦ undelivered | suc k ↦ answered [] [] ]
]

abbrev clock : ℕ → ℕ
clock n = 0

abbrev never : ℕ → Bool
never n = false

post_deploy_check-IsHonest_example :
    IsHonest no_time [] always_running second_answers clock never (codes "web" ∷ []) false 1 4 (
      post_deploy_check no_time [] always_running second_answers clock never
        (codes "web" ∷ [])
        true)
post_deploy_check-IsHonest_example =
    post_deploy_check-IsHonest no_time [] always_running second_answers clock never
      (codes "web" ∷ []) true
