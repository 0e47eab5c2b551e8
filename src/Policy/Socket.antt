-- ===== src/Policy/Socket.antt =====
-- internal/policy/policy.go: which mounts reach the Docker socket, described without the loops.
use wireops.Prelude.{
  ◌≡◌, ap, ◌∙◌, ◌↔◌, ◌⊎◌, inl, inr, Bool, true, not, ◌||◌, none, some, List, ◌++◌, arith,
  if◌then◌else◌, any, any-In, find_any, All, In, Bool-cases,
}
use wireops.Go.Text.{
  Text, text_eq, text_eq_iff, has_prefix-append, has_prefix-split, before, first_part-split_n,
}
use wireops.Go.Path.{slash, clean}
use wireops.Policy.{
  WorkerPolicy, docker_socket_mount, exposes_socket, docker_socket_paths, validate_mount,
  validate_docker_socket,
}
use wireops.Policy.Allow.{switched_loop_iff}

-- A directory as the prefix of the paths below it: the root ends in a slash as it is.
abbrev pub below_dir : Text → Text
below_dir dir = if text_eq dir slash then dir else dir ++ slash

-- A cleaned source that is the socket, or a directory somewhere above it.
abbrev pub Reaches : Text → Text → Type 0
Reaches src sock = (src ≡ sock) ⊎ ((rest : Text) × (sock ≡ below_dir src ++ rest))

abbrev pub ReachesSocket : Text → Type 0
ReachesSocket m = (sock : Text) × In sock docker_socket_paths × Reaches (clean (before b':' m)) sock

exposes_socket_iff : (src sock : Text) → (exposes_socket src sock ≡ true) ↔ Reaches src sock
unfolding exposes_socket
exposes_socket_iff src sock = (
  λ h. elim (Bool-cases (text_eq src sock)) [
    | inl e ↦ inl ((text_eq_iff src sock).0 e)
    | inr e ↦ inr (has_prefix-split sock (below_dir src) (ground arith))
  ],
  elim [
    | inl e ↦ ground (arith, (text_eq_iff src sock).1 e)
    | inr (rest, e) ↦ ground (arith, e, has_prefix-append (below_dir src) rest)
  ],
)

abbrev is_exposed : Text → Bool
is_exposed m = any (exposes_socket (clean (before b':' m))) docker_socket_paths

is_exposed_iff : (m : Text) → (is_exposed m ≡ true) ↔ ReachesSocket m
is_exposed_iff m =
    let fits = exposes_socket (clean (before b':' m)) in
    (
      λ h.
          let (sock, i, e) = find_any fits docker_socket_paths h in
          (sock, i, (exposes_socket_iff _ sock).0 e),
      λ (sock, i, r). any-In fits i ((exposes_socket_iff _ sock).1 r),
    )

validate_mount_lem :
    (m : Text) → validate_mount m ≡ (if is_exposed m then some (docker_socket_mount m) else none)
unfolding validate_mount
validate_mount_lem m = rw (first_part-split_n b':' m 0)

validate_mount_iff : (m : Text) → (validate_mount m ≡ none) ↔ ¬ (ReachesSocket m)
validate_mount_iff m = (
  λ h r. cc (
    ap (λ b. if b then some (docker_socket_mount m) else none) ((is_exposed_iff m).1 r),
    validate_mount_lem m,
    h,
  ),
  λ n. elim (Bool-cases (is_exposed m)) [
    | inl e ↦ absurd (n ((is_exposed_iff m).0 e))
    | inr e ↦ validate_mount_lem m ∙ ap (λ b. if b then some (docker_socket_mount m) else none) e
  ],
)

-- The mounts pass exactly if the policy is disabled or leaves the socket open, or none of them
-- reaches a path of the Docker socket.
pub validate_docker_socket_iff :
    (p : WorkerPolicy) (mounts : List Text)
    → (validate_docker_socket p mounts ≡ none)
      ↔ (((p.disabled || not p.block_docker_socket) ≡ true) ⊎ All (λ m. ¬ (ReachesSocket m)) mounts)
unfolding validate_docker_socket
validate_docker_socket_iff p mounts =
    switched_loop_iff (p.disabled || not p.block_docker_socket) _ validate_mount_iff mounts
