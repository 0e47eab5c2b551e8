-- ===== src/Policy/Load/Laws.antt =====
-- Inheritance and overrides, and the failures of a load.
use wireops.Prelude.{◌≡◌, refl, ◌↔◌, ◌⊎◌, inl, inr, true, false, none, some, List, [], ◌∷◌, arith}
use wireops.Go.Text.{Text, is_empty}
use wireops.Policy.{WorkerPolicy, elems, validate_images, validate_image, check_list}
use wireops.Policy.Load.{
  Query, found, no_rows, failed, WorkerRecord, PolicyFlags, App, GlobalRecord, LoadError,
  find_global_policies, load_global_failed, find_worker_failed, loaded, load_error, get_or,
  no_flags, worker_flags, resolve, load_global, load,
}

-- The worker that the id names, where the id is not empty.
pub record Finds (app : App) (worker_id : Text) (worker : WorkerRecord) : Type 0 where
  pub has_id : is_empty worker_id ≡ false
  pub finds : app.find_worker worker_id ≡ found worker

module _ (decode_flags : Text → PolicyFlags) where
  -- The worker's record overrides nothing: no list, and no flag.
  pub record NoOverrides (worker : WorkerRecord) : Type 0 where
    pub volumes : worker.policy_volumes ≡ none
    pub networks : worker.policy_networks ≡ none
    pub images : worker.policy_images ≡ none
    pub cap_add : worker.policy_cap_add ≡ none
    pub devices : worker.policy_devices ≡ none
    pub security_opt : worker.policy_security_opt ≡ none
    pub flags : worker_flags decode_flags worker ≡ no_flags

  resolve-inherits :
      (global : WorkerPolicy) (worker : WorkerRecord)
      → NoOverrides worker
      → get_or worker.policy_inherit true ≡ true
      → resolve decode_flags global worker ≡ global
  unfolding resolve
  resolve-inherits global worker h i = ground arith

  -- A worker that inherits and overrides nothing has the global policy, every field of it.
  pub load-inherits :
      (app : App) (worker_id : Text) (worker : WorkerRecord) (global : WorkerPolicy)
      → load_global app ≡ loaded global
      → Finds app worker_id worker
      → NoOverrides worker
      → get_or worker.policy_inherit true ≡ true
      → load decode_flags app worker_id ≡ loaded global
  unfolding load
  load-inherits app worker_id worker global g f h i =
      ground (arith, resolve-inherits global worker h i)

  -- A load fails exactly if the query of the global policy fails, or an id is given and the query
  -- of its worker fails.
  pub load-fails_iff :
      (app : App) (worker_id : Text)
      → ((e : LoadError) × (load decode_flags app worker_id ≡ load_error e)) ↔ (
          (app.worker_policies ≡ failed)
          ⊎ ((is_empty worker_id ≡ false) × (app.find_worker worker_id ≡ failed)))
  unfolding load load_global
  load-fails_iff app worker_id = (
    λ (e, h). ground arith,
    elim [
      | inl g ↦ (load_global_failed find_global_policies, ground (arith, g))
      | inr (i, w) ↦ by_worker app.worker_policies refl i w
    ],
  )
    where
      by_worker :
          (q : Query (List GlobalRecord))
          → app.worker_policies ≡ q
          → is_empty worker_id ≡ false
          → app.find_worker worker_id ≡ failed
          → (e : LoadError) × (load decode_flags app worker_id ≡ load_error e)
      by_worker (found records) g i w = (find_worker_failed, ground arith)
      by_worker no_rows g i w = (find_worker_failed, ground arith)
      by_worker failed g i w = (load_global_failed find_global_policies, ground arith)

  -- A worker's record cannot switch the policy system off or on: `disabled` is the global one's.
  pub load-disabled :
      (app : App) (worker_id : Text) (global p : WorkerPolicy)
      → load_global app ≡ loaded global
      → load decode_flags app worker_id ≡ loaded p
      → p.disabled ≡ global.disabled
  unfolding load resolve
  load-disabled app worker_id global p g h = ground arith

  no_images_check :
      (p : WorkerPolicy) (images : List Text)
      → elems p.allowed_images ≡ []
      → p.prevent_latest_images ≡ false
      → validate_images p images ≡ none
  unfolding validate_images validate_image check_list
  no_images_check p [] e l = ground arith
  no_images_check p (x ∷ xs) e l = ground (arith, no_images_check p xs e l)

  -- An override that is an empty list is an override: a worker whose own image list is empty, but
  -- not null, accepts every image list, whether it inherits or not and whatever images the global
  -- policy lists, as long as the resulting policy does not exclude the tag latest.
  pub load-empty_images :
      (app : App) (worker_id : Text) (worker : WorkerRecord) (p : WorkerPolicy)
      → Finds app worker_id worker
      → worker.policy_images ≡ some (some [])
      → load decode_flags app worker_id ≡ loaded p
      → p.prevent_latest_images ≡ false
      → (images : List Text) → validate_images p images ≡ none
  unfolding load resolve
  load-empty_images app worker_id worker p f e h l images =
      no_images_check p images (ground arith) l
