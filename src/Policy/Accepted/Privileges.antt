-- ===== src/Policy/Accepted/Privileges.antt =====
-- What blocked privileges mean for the services of a config that passes.
use wireops.Prelude.{◌≡◌, ◌≢◌, refl, Bool, true, false, none, List, [], ◌∷◌, arith, In, here}
use wireops.Go.Text.{Text, codes, text_eq_refl}
use wireops.Go.Value.{bool, str, Map, at}
use wireops.Policy.{
  WorkerPolicy, PolicyError, privileged_service, host_network_service, host_pid_service,
  host_ipc_service, validate_services,
}
use wireops.Policy.Refs.{service_if, is_privileged, is_host, service_refs, with_mounts}
use wireops.Policy.Compose.{validate_compose_config}
use wireops.Policy.Accepted.{HasService, refs_pass, collected-In}

privileged_of : (svc : Map) → at svc (codes "privileged") ≡ bool true → is_privileged svc ≡ true
unfolding is_privileged
privileged_of svc e = rw (e, is_privileged)

host_of : (key : Text) (svc : Map) → at svc key ≡ str (codes "host") → is_host key svc ≡ true
unfolding is_host
host_of key svc e = rw (e, is_host) (text_eq_refl (codes "host"))

module _ (p : WorkerPolicy) (config : Map) (enabled : p.disabled ≡ false)
    (passes : validate_compose_config p config ≡ none) (name : Text) (svc : Map)
    (h : HasService config name svc) where
  service_flag :
      (blocks : WorkerPolicy → Bool) (error : Text → PolicyError) (ss : List Text)
      → validate_services blocks error p ss ≡ none
      → In name ss
      → blocks p ≡ false
  unfolding validate_services
  service_flag blocks error (s ∷ ss) v i = ground (arith, enabled)
  service_flag blocks error [] v i = elim i [ ]

  -- A service of which a flag holds that the policy blocks is not in a config that passes.
  not-flagged :
      (blocks : WorkerPolicy → Bool) (error : Text → PolicyError) {ss : List Text} (flag : Bool)
      → validate_services blocks error p ss ≡ none
      → (In name (service_if flag name) → In name ss)
      → blocks p ≡ true
      → flag ≡ false
  not-flagged blocks error {ss} true v collect b =
      cc (b, service_flag blocks error ss v (collect here))
  not-flagged blocks error false v collect b = refl

  -- A config that an enabled policy accepts has no service that runs privileged, or in the network,
  -- the process space or the IPC space of its host, as far as the policy blocks that.
  pub validated-not_privileged :
      (p.block_privileged ≡ true → at svc (codes "privileged") ≢ bool true)
      × (p.block_host_network ≡ true → at svc (codes "network_mode") ≢ str (codes "host"))
      × (p.block_host_pid ≡ true → at svc (codes "pid") ≢ str (codes "host"))
      × (p.block_host_ipc ≡ true → at svc (codes "ipc") ≢ str (codes "host"))
  unfolding with_mounts service_refs
  validated-not_privileged = (
    λ b e. cc (
      privileged_of svc e,
      not-flagged (λ q. q.block_privileged) privileged_service (is_privileged svc)
          (refs_pass p config enabled passes name svc h).privileged
          (collected-In p config enabled passes name svc h (λ r. r.privileged_services)
            (λ x y. refl))
          b,
    ),
    λ b e. cc (
      host_of (codes "network_mode") svc e,
      not-flagged (λ q. q.block_host_network) host_network_service
          (is_host (codes "network_mode") svc)
          (refs_pass p config enabled passes name svc h).host_network
          (collected-In p config enabled passes name svc h (λ r. r.host_network_services)
            (λ x y. refl))
          b,
    ),
    λ b e. cc (
      host_of (codes "pid") svc e,
      not-flagged (λ q. q.block_host_pid) host_pid_service (is_host (codes "pid") svc)
          (refs_pass p config enabled passes name svc h).host_pid
          (collected-In p config enabled passes name svc h (λ r. r.host_pid_services) (λ x y. refl))
          b,
    ),
    λ b e. cc (
      host_of (codes "ipc") svc e,
      not-flagged (λ q. q.block_host_ipc) host_ipc_service (is_host (codes "ipc") svc)
          (refs_pass p config enabled passes name svc h).host_ipc
          (collected-In p config enabled passes name svc h (λ r. r.host_ipc_services) (λ x y. refl))
          b,
    ),
  )
