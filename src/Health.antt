-- ===== src/Health.antt =====
-- internal/compose/health.go and internal/sync/postcheck.go: the state of a Compose service from its
-- containers, and the check after a deploy. Parsing a time is a parameter, and the clock stands
-- still while one service is classified.
pub mod Verdicts
pub mod PostCheck
pub mod Tests
use wireops.Prelude.{
  ℕ, ◌+◌, ◌*◌, ◌≡◌, Bool, true, false, not, ◌&&◌, ◌||◌, Option, none, some, List, [], ◌∷◌, ltb,
  if◌then◌else◌,
}
use wireops.Go.Text.{Text, codes, text_eq, is_empty}
use wireops.Go.Int.{ℤ, pos, ltbℤ, is_zero}

pub data ServiceHealthState : Type 0 where
  service_healthy : ServiceHealthState
  service_starting : ServiceHealthState
  service_missing : ServiceHealthState
  service_unhealthy : ServiceHealthState
  service_restart_looping : ServiceHealthState

-- `ServiceStatus`, as far as the classifier reads it.
pub record ServiceStatus : Type 0 where
  pub service_name : Text
  pub status : Text
  pub health : Text
  pub restart_count : ℤ
  pub started_at : Text
  pub exit_code : ℤ

abbrev pub restart_loop_threshold : ℤ
restart_loop_threshold = pos 3

-- In nanoseconds.
abbrev pub restart_loop_window : ℕ
restart_loop_window = 2 * 60 * 1000000000

-- The four flags of the loop.
pub record Seen : Type 0 where
  pub healthy : Bool
  pub starting : Bool
  pub unhealthy : Bool
  pub looping : Bool

abbrev pub nothing_seen : Seen
nothing_seen = record { healthy = false; starting = false; unhealthy = false; looping = false }

unfoldable pub see_init : ServiceStatus → Seen → Seen
see_init i seen =
    if text_eq i.status (codes "running")
    then record seen { healthy = true }
    else if text_eq i.status (codes "exited")
    then if is_zero i.exit_code
      then record seen { healthy = true }
      else record seen { unhealthy = true }
    else if text_eq i.status (codes "created")
        || text_eq i.status (codes "restarting")
        || text_eq i.status (codes "paused")
    then record seen { starting = true }
    else record seen { unhealthy = true }

unfoldable pub see_service : Bool → ServiceStatus → Seen → Seen
see_service all_replicas i seen =
    if not all_replicas
      && text_eq i.status (codes "running")
      && not (text_eq i.health (codes "unhealthy"))
    then record seen { healthy = true }
    else if text_eq i.status (codes "exited")
        || text_eq i.status (codes "dead")
        || text_eq i.health (codes "unhealthy")
    then record seen { unhealthy = true }
    else if not (text_eq i.status (codes "running")) || text_eq i.health (codes "starting")
    then record seen { starting = true }
    else record seen { healthy = true }

-- The two `switch`es after the loop.
unfoldable pub verdict : Bool → Bool → Seen → ServiceHealthState
verdict is_init all_replicas seen =
    if all_replicas
    then if seen.looping
      then service_restart_looping
      else if seen.unhealthy
      then service_unhealthy
      else if seen.starting
      then service_starting
      else if seen.healthy
      then service_healthy
      else service_missing
    else if seen.healthy
    then service_healthy
    else if seen.looping
    then service_restart_looping
    else if seen.unhealthy
    then service_unhealthy
    else if is_init
    then service_starting
    else service_missing

-- `time.Parse(time.RFC3339Nano, s)`: `none` where it returns an error.
module _ (parse_time : Text → Option ℕ) (now : ℕ) where
  abbrev pub started_recently : Option ℕ → Bool
  started_recently none = true
  started_recently (some started) = ltb now (started + restart_loop_window)

  unfoldable pub is_restart_looping : ServiceStatus → Bool
  is_restart_looping s =
      if ltbℤ s.restart_count restart_loop_threshold
      then false
      else if is_empty s.started_at
      then true
      else started_recently (parse_time s.started_at)

  -- The body of the loop.
  unfoldable pub see : Bool → Bool → ServiceStatus → Seen → Seen
  see is_init all_replicas i seen =
      if is_restart_looping i
      then record seen { looping = true }
      else if is_init
      then see_init i seen
      else see_service all_replicas i seen

  unfoldable pub see_all : Bool → Bool → List ServiceStatus → Seen → Seen
  see_all is_init all_replicas [] seen = seen
  see_all is_init all_replicas (i ∷ is) seen =
      see_all is_init all_replicas is (see is_init all_replicas i seen)

  unfoldable pub classify_service_instances : List ServiceStatus → Bool → Bool → ServiceHealthState
  classify_service_instances [] is_init all_replicas =
      if is_init then service_healthy else service_missing
  classify_service_instances (i ∷ is) is_init all_replicas =
      verdict is_init all_replicas (see_all is_init all_replicas (i ∷ is) nothing_seen)
