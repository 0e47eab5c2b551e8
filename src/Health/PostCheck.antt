-- ===== src/Health/PostCheck.antt =====
-- internal/sync/postcheck.go: the check of a stack's services after a deploy.
pub mod Evaluation
pub mod Retries
use wireops.Prelude.{
  ℕ, zero, suc, ◌+◌, ◌≡◌, Bool, true, false, Option, none, some, List, [], ◌∷◌, ◌++◌, keep, any,
  length, ltb, ◌==◌, if◌then◌else◌, ◌&&◌, not,
}
use wireops.Go.Text.{Text, text_eq, is_empty}
use wireops.Health.{
  ServiceHealthState, service_healthy, service_starting, service_missing, service_unhealthy,
  service_restart_looping, ServiceStatus, classify_service_instances,
}

-- The statuses "active", "degraded" and "error" of a stack.
pub data StackStatus : Type 0 where
  active : StackStatus
  degraded : StackStatus
  failed : StackStatus

-- The lists of service names that the details quote.
pub record Buckets : Type 0 where
  pub ok : List Text
  pub missing : List Text
  pub unhealthy : List Text
  pub restart_looping : List Text

pub data Detail : Type 0 where
  passed : ℕ → Detail
  report : ℕ → Buckets → Detail
  unparsed_compose : Detail
  interrupted : Detail
  unanswered : Detail

pub record PostCheckResult : Type 0 where
  pub status : StackStatus
  pub detail : Detail
  pub skipped : Bool

abbrev pub no_names : Buckets
no_names = record { ok = []; missing = []; unhealthy = []; restart_looping = [] }

-- The `switch` of the loop over the expected services.
unfoldable pub place : Bool → Text → ServiceHealthState → Buckets → Buckets
place is_init name service_healthy b = record b { ok = b.ok ++ (name ∷ []) }
place is_init name service_restart_looping b = record b {
  restart_looping = b.restart_looping ++ (name ∷ []);
}
place is_init name service_unhealthy b = record b { unhealthy = b.unhealthy ++ (name ∷ []) }
place is_init name service_starting b =
    if is_init
    then record b { unhealthy = b.unhealthy ++ (name ∷ []) }
    else record b { missing = b.missing ++ (name ∷ []) }
place is_init name service_missing b = record b { missing = b.missing ++ (name ∷ []) }

unfoldable pub build_post_check_detail : ℕ → Buckets → Detail
build_post_check_detail total b = if length b.ok == total then passed total else report total b

unfoldable pub overall : ℕ → Buckets → StackStatus
overall total b =
    if length b.ok == total then active else if length b.ok == 0 then failed else degraded

-- What the worker answers to a status query, or that the query was not delivered.
pub data Reply : Type 0 where
  undelivered : Reply
  answered : Text → Text → Reply

abbrev pub post_check_attempts : ℕ
post_check_attempts = 3

abbrev pub is_active : PostCheckResult → Bool
is_active r = elim r.status [ active ↦ true | degraded ↦ false | failed ↦ false ]

abbrev pub skip : Detail → PostCheckResult
skip detail = record { status = active; detail = detail; skipped = true }

-- What one attempt leaves: the result if the services are fine, and else the statuses, and
-- whether any were got.
abbrev pub Attempt : Type 0
Attempt = Option PostCheckResult × List ServiceStatus × Bool

-- `initSet`, and the parsing of times.
module _ (parse_time : Text → Option ℕ) (init_set : List Text) where
  unfoldable pub is_init_service : Text → Bool
  is_init_service name = any (text_eq name) init_set

  -- `byService[name]`: the statuses of the service, in their order.
  unfoldable pub by_service : Text → List ServiceStatus → List ServiceStatus
  by_service name statuses = keep (λ s. text_eq s.service_name name) statuses

  unfoldable pub state_of : ℕ → List ServiceStatus → Text → ServiceHealthState
  state_of now statuses name =
      classify_service_instances parse_time now (by_service name statuses) (is_init_service name)
        false

  unfoldable pub place_all : ℕ → List ServiceStatus → List Text → Buckets → Buckets
  place_all now statuses [] b = b
  place_all now statuses (name ∷ names) b =
      place_all now statuses names
        (place (is_init_service name) name (state_of now statuses name) b)

  unfoldable pub evaluate_post_check : List Text → ℕ → List ServiceStatus → PostCheckResult
  evaluate_post_check expected now statuses =
      let b = place_all now statuses expected no_names in
      record {
        status = overall (length expected) b;
        detail = build_post_check_detail (length expected) b;
        skipped = false;
      }

  -- `json.Unmarshal` into the statuses of the attempts before: whether it succeeds, and what it
  -- leaves there. `dispatch n`, `clock n` and `done n` are the answer to attempt `n`, its time, and
  -- whether the context ends before the next.
  module _ (decode : Text → List ServiceStatus → Bool × List ServiceStatus) (dispatch : ℕ → Reply)
      (clock : ℕ → ℕ) (done : ℕ → Bool) (expected : List Text) where
    -- After `json.Unmarshal`.
    unfoldable pub take_statuses : ℕ → Bool → Bool × List ServiceStatus → Attempt
    take_statuses n got (false, statuses) = (none, statuses, got)
    take_statuses n got (true, statuses) = (
      if is_active (evaluate_post_check expected (clock n) statuses)
          then some (record { status = active; detail = passed (length expected); skipped = false })
          else none,
      statuses,
      true,
    )

    unfoldable pub attempt_result : ℕ → List ServiceStatus → Bool → Attempt
    attempt_result n statuses got = elim (dispatch n) [
      | undelivered ↦ (none, statuses, got)
      | answered error out ↦
          if is_empty error
          then take_statuses n got (decode out statuses)
          else (none, statuses, got)
    ]

    -- The loop, from attempt `n` on, with `left` attempts left.
    unfoldable pub attempts : ℕ → ℕ → List ServiceStatus → Bool → PostCheckResult
    attempts zero n statuses got =
        if got then evaluate_post_check expected (clock n) statuses else skip unanswered
    attempts (suc left) n statuses got =
        let (result, next, got_now) = attempt_result n statuses got in
        let rest = attempts left (suc n) next got_now in
        elim result [
          | some r ↦ r
          | none ↦ if ltb n post_check_attempts && done n then skip interrupted else rest
        ]

    -- `none` where the expected services cannot be read from the compose file.
    unfoldable pub post_deploy_check : Bool → PostCheckResult
    post_deploy_check parsed =
        if parsed && not (length expected == 0)
        then attempts post_check_attempts 1 [] false
        else skip unparsed_compose
