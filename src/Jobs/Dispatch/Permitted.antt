-- ===== src/Jobs/Dispatch/Permitted.antt =====
-- What reaches a worker of a job, and what becomes of the run.
use wireops.Prelude.{
  ◌≡◌, refl, ◌⊎◌, inl, inr, sym, ap, some_inj, ◌∙◌, Option, none, some, [], ◌∷◌, arith, Bool-cases,
  Option-cases,
}
use wireops.Go.Text.{Text, is_empty}
use wireops.Policy.{WorkerPolicy, validate_images, validate_volumes, validate_network}
use wireops.Policy.Load.{Loaded, LoadError, loaded, load_error}
use wireops.Jobs.{Store, RunError}
use wireops.Jobs.Definition.{Definition}
use wireops.Jobs.Dispatch.{
  Environment, JobRunParams, RunJobCommand, Ack, unreachable, answered, violation, give_up_run,
  command_of, note_start, send_command, with_credentials, enforce_policy, check_policy,
  after_metadata, dispatch_to_worker, now,
}

Loaded-cases :
    (l : Loaded) → ((p : WorkerPolicy) × (l ≡ loaded p)) ⊎ ((e : LoadError) × (l ≡ load_error e))
Loaded-cases (loaded p) = inl (p, refl)
Loaded-cases (load_error e) = inr (e, refl)

Ack-cases : (a : Ack) → ((m : Text) × (a ≡ unreachable m)) ⊎ ((e : Text) × (a ≡ answered e))
Ack-cases (unreachable m) = inl (m, refl)
Ack-cases (answered e) = inr (e, refl)

-- The worker's policy was loaded, and allows the image, the volumes and the network of the command, which
-- are those of the definition.
pub record IsPermitted (policy : Loaded) (d : Definition) (cmd : RunJobCommand) : Type 0 where
  pub worker_policy : WorkerPolicy
  pub was_loaded : policy ≡ loaded worker_policy
  pub image_ok : validate_images worker_policy (cmd.image ∷ []) ≡ none
  pub volumes_ok : validate_volumes worker_policy cmd.volumes ≡ none
  pub network_ok : validate_network worker_policy cmd.network ≡ none
  pub same_image : cmd.image ≡ d.image
  pub same_volumes : cmd.volumes ≡ d.volumes
  pub same_network : cmd.network ≡ d.network

violation-none :
    (wp : WorkerPolicy) (d : Definition)
    → violation wp d ≡ none
    → (validate_images wp (d.image ∷ []) ≡ none)
      × (validate_volumes wp d.volumes ≡ none)
      × (validate_network wp d.network ≡ none)
unfolding violation
violation-none wp d h = ground (arith, h)

module _ (env : Environment) where
  note_start-sent :
      (run_id : Text) (cmd : RunJobCommand) (r : Option RunError × Store)
      → (note_start env run_id cmd r).sent ≡ some cmd
  unfolding note_start
  note_start-sent run_id cmd (none, s) = refl
  note_start-sent run_id cmd (some e, s) = refl

  send_command-sent :
      (run_id : Text) (cmd : RunJobCommand) (s : Store)
      → (send_command env run_id cmd s).sent ≡ some cmd
  unfolding send_command give_up_run
  send_command-sent run_id cmd s = elim (Ack-cases (env.ack cmd)) [
    | inl (m, e) ↦ rw (e, send_command) refl
    | inr (k, e) ↦ elim (Bool-cases (is_empty k)) [
      | inl y ↦ rw (e, send_command) (rw y (note_start-sent run_id cmd _))
      | inr n ↦ rw (e, send_command) (rw n refl)
    ]
  ]

  -- Where a command is sent at all, it is the run's.
  credentials-sent :
      (run_id : Text) (p : JobRunParams) (s : Store) (cmd : RunJobCommand)
      → (with_credentials env run_id p s).sent ≡ some cmd
      → (cmd.image ≡ p.definition.image)
        × (cmd.volumes ≡ p.definition.volumes)
        × (cmd.network ≡ p.definition.network)
  unfolding with_credentials give_up_run
  credentials-sent run_id p s cmd h = elim (Option-cases (env.registry_auth p.definition.image)) [
    | inl e ↦ cc (rw (e, with_credentials) at h)
    | inr (auth, e) ↦
        let same : command_of env run_id p auth (now env s) ≡ cmd =
          some_inj (sym (send_command-sent run_id _ s) ∙ (rw (e, with_credentials) at h)) in
        unfold command_of in
        (
          ap (λ c. c.image) (sym same),
          ap (λ c. c.volumes) (sym same),
          ap (λ c. c.network) (sym same),
        )
  ]

  permitted :
      (run_id worker_id : Text) (p : JobRunParams) (wp : WorkerPolicy) (s : Store)
      (cmd : RunJobCommand)
      → env.load_policy worker_id ≡ loaded wp
      → (enforce_policy env run_id p wp s).sent ≡ some cmd
      → IsPermitted (env.load_policy worker_id) p.definition cmd
  unfolding enforce_policy give_up_run
  permitted run_id worker_id p wp s cmd l h = elim (Option-cases (violation wp p.definition)) [
    | inr (e, v) ↦ cc (rw (v, enforce_policy) at h)
    | inl v ↦
        let (image, volumes, network) =
          credentials-sent run_id p s cmd (rw (v, enforce_policy) at h) in
        let (a, b, c) = violation-none wp p.definition v in
        record {
          worker_policy = wp;
          was_loaded = l;
          image_ok = rw image a;
          volumes_ok = rw volumes b;
          network_ok = rw network c;
          same_image = image;
          same_volumes = volumes;
          same_network = network;
        }
  ]

  checked :
      (run_id worker_id : Text) (p : JobRunParams) (r : Option RunError × Store)
      (cmd : RunJobCommand)
      → (after_metadata env run_id worker_id p r).sent ≡ some cmd
      → IsPermitted (env.load_policy worker_id) p.definition cmd
  unfolding after_metadata check_policy give_up_run
  checked run_id worker_id p (some e, s) cmd h = cc h
  checked run_id worker_id p (none, s) cmd h = elim (Loaded-cases (env.load_policy worker_id)) [
    | inl (wp, e) ↦ permitted run_id worker_id p wp s cmd e (rw (e, check_policy) at h)
    | inr (m, e) ↦ cc (rw (e, check_policy) at h)
  ]

  -- A command for a run reaches its worker only if the worker's policy was loaded and allows the image,
  -- the volumes and the network that the command carries.
  pub dispatch_to_worker-IsPermitted :
      (run_id worker_id : Text) (p : JobRunParams) (s : Store) (cmd : RunJobCommand)
      → (dispatch_to_worker env run_id worker_id p s).sent ≡ some cmd
      → IsPermitted (env.load_policy worker_id) p.definition cmd
  unfolding dispatch_to_worker
  dispatch_to_worker-IsPermitted run_id worker_id p s cmd h = checked run_id worker_id p _ cmd h
