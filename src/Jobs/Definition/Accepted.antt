-- ===== src/Jobs/Definition/Accepted.antt =====
-- Which job definitions Validate accepts, without its lists of issues and of seen names.
use wireops.Prelude.{
  ℕ, suc, ◌≡◌, refl, ◌↔◌, Bool, true, false, ◌||◌, not, Option, none, List, [], ◌∷◌, ◌++◌, arith,
  All,
}
use wireops.Go.Text.{Text, is_empty}
use wireops.Go.Int.{ℤ}
use wireops.Paths.{
  PathError, validate_config_name, validate_container_mount_path, Cleaned, path, refused,
  clean_relative_path,
}
use wireops.Jobs.Definition.{
  ConfigEntry, Definition, Issue, required, issue_if, require, is_seen, name_issues, target_issues,
  remember, path_issues, is_octal, entry_issues, config_issues, is_mode, is_duration,
  timeout_issues, validate,
}

abbrev pub IsClean : Cleaned → Type 0
IsClean (path q) = Unit
IsClean (refused e) = ⊥

-- One entry for itself.
pub record IsEntry (c : ConfigEntry) : Type 0 where
  pub name_ok : validate_config_name c.name ≡ none
  pub path_ok : IsClean (clean_relative_path c.path)
  pub target_ok : validate_container_mount_path c.target ≡ none
  pub mode_ok : (is_empty c.mode || is_octal c.mode) ≡ true

-- No text comes twice, and none is among those seen before.
abbrev pub AreNew : List Text → List Text → Type 0
AreNew seen [] = Unit
AreNew seen (x ∷ xs) = (is_seen x seen ≡ false) × AreNew (x ∷ seen) xs

abbrev pub names : List ConfigEntry → List Text
names [] = []
names (c ∷ cs) = c.name ∷ names cs

abbrev pub targets : List ConfigEntry → List Text
targets [] = []
targets (c ∷ cs) = c.target ∷ targets cs

append_empty_iff {ℓ} : {A : Type ℓ} (xs ys : List A) → (xs ++ ys ≡ []) ↔ ((xs ≡ []) × (ys ≡ []))
append_empty_iff [] ys = ((λ e. (refl, e)), (λ p. p.1))
append_empty_iff (x ∷ xs) ys = ground arith

issue_if_iff : (b : Bool) (i : Issue) → (issue_if b i ≡ []) ↔ (b ≡ false)
issue_if_iff true i = ground arith
issue_if_iff false i = ((λ _. refl), (λ _. refl))

name_issues_iff :
    (i : ℕ) (x : Text) (seen : List Text)
    → (name_issues i x seen ≡ []) ↔ ((validate_config_name x ≡ none) × (is_seen x seen ≡ false))
name_issues_iff i x seen = ground (arith)

target_issues_iff :
    (i : ℕ) (x : Text) (seen : List Text)
    → (target_issues i x seen ≡ [])
      ↔ ((validate_container_mount_path x ≡ none) × (is_seen x seen ≡ false))
target_issues_iff i x seen = ground (arith)

remembered :
    {e : Option PathError} (x : Text) (seen : List Text)
    → e ≡ none
    → is_seen x seen ≡ false
    → remember e x seen ≡ x ∷ seen
remembered x seen e n = rw e (rw n refl)

path_issues_iff : (i : ℕ) (p : Text) → (path_issues i p ≡ []) ↔ IsClean (clean_relative_path p)
path_issues_iff i p = ground arith

entry_issues_iff :
    (i : ℕ) (ns ts : List Text) (c : ConfigEntry)
    → (entry_issues i ns ts c ≡ [])
      ↔ (IsEntry c × (is_seen c.name ns ≡ false) × (is_seen c.target ts ≡ false))
unfolding entry_issues
entry_issues_iff i ns ts c = (to, from)
  where
    to :
        entry_issues i ns ts c ≡ []
        → IsEntry c × (is_seen c.name ns ≡ false) × (is_seen c.target ts ≡ false)
    to h =
        let (n, h1) = (append_empty_iff _ _).0 h in
        let (p, h2) = (append_empty_iff _ _).0 h1 in
        let (t, m) = (append_empty_iff _ _).0 h2 in
        let (name_ok, new_name) = (name_issues_iff i c.name ns).0 n in
        let (target_ok, new_target) = (target_issues_iff i c.target ts).0 t in
        let mode = (issue_if_iff _ _).0 m in
        (
          record {
            name_ok = name_ok;
            path_ok = (path_issues_iff i c.path).0 p;
            target_ok = target_ok;
            mode_ok = ground (arith, mode);
          },
          new_name,
          new_target,
        )

    from :
        IsEntry c × (is_seen c.name ns ≡ false) × (is_seen c.target ts ≡ false)
        → entry_issues i ns ts c ≡ []
    from (v, n, t) = (append_empty_iff _ _).1 (
      (name_issues_iff i c.name ns).1 (v.name_ok, n),
      (append_empty_iff _ _).1 (
        (path_issues_iff i c.path).1 v.path_ok,
        (append_empty_iff _ _).1 (
          (target_issues_iff i c.target ts).1 (v.target_ok, t),
          (issue_if_iff _ _).1 (ground (arith, v.mode_ok)),
        ),
      ),
    )

abbrev AreAccepted : List Text → List Text → List ConfigEntry → Type 0
AreAccepted ns ts cs = All IsEntry cs × AreNew ns (names cs) × AreNew ts (targets cs)

config_issues-accepted :
    (i : ℕ) (ns ts : List Text) (cs : List ConfigEntry)
    → config_issues i ns ts cs ≡ []
    → AreAccepted ns ts cs
unfolding config_issues
config_issues-accepted i ns ts [] h = (tt, tt, tt)
config_issues-accepted i ns ts (c ∷ cs) h =
    let (first, later) = (append_empty_iff _ _).0 h in
    let (v, n, t) = (entry_issues_iff i ns ts c).0 first in
    let (vs, more_names, more_targets) =
      config_issues-accepted (suc i) (c.name ∷ ns) (c.target ∷ ts) cs
        (rw (← remembered c.name ns v.name_ok n, ← remembered c.target ts v.target_ok t) later) in
    ((v, vs), (n, more_names), (t, more_targets))

accepted-config_issues :
    (i : ℕ) (ns ts : List Text) (cs : List ConfigEntry)
    → AreAccepted ns ts cs
    → config_issues i ns ts cs ≡ []
unfolding config_issues
accepted-config_issues i ns ts [] h = refl
accepted-config_issues i ns ts (c ∷ cs) (vs, n, t) = (append_empty_iff _ _).1 (
  (entry_issues_iff i ns ts c).1 (vs.0, n.0, t.0),
  rw (remembered c.name ns vs.0.name_ok n.0, remembered c.target ts vs.0.target_ok t.0)
      (accepted-config_issues (suc i) (c.name ∷ ns) (c.target ∷ ts) cs (vs.1, n.1, t.1)),
)

not-false : (b : Bool) → not b ≡ false → b ≡ true
not-false b h = ground (arith, h)

not-true : (b : Bool) → b ≡ true → not b ≡ false
not-true b h = ground (arith, h)

both : {xs ys : List Issue} → xs ≡ [] → ys ≡ [] → xs ++ ys ≡ []
both {xs} {ys} e f = (append_empty_iff xs ys).1 (e, f)

require_iff : (value field : Text) → (require value field ≡ []) ↔ (is_empty value ≡ false)
require_iff value field = issue_if_iff (is_empty value) (required field)

module _ (parse_duration : Text → Option ℤ) where
  -- A definition with its required fields, a known mode, a duration, and entries that do not collide.
  pub record IsDefinition (d : Definition) : Type 0 where
    pub has_name : is_empty d.name ≡ false
    pub has_description : is_empty d.description ≡ false
    pub has_image : is_empty d.image ≡ false
    pub has_cron : is_empty d.cron ≡ false
    pub has_mode : is_mode d.mode ≡ true
    pub has_cpu : is_empty d.resources.cpu ≡ false
    pub has_memory : is_empty d.resources.memory ≡ false
    pub has_timeout : is_empty d.resources.timeout ≡ false
    pub timeout_ok : is_duration parse_duration d.resources.timeout ≡ true
    pub configs_ok : All IsEntry d.configs
    pub new_names : AreNew [] (names d.configs)
    pub new_targets : AreNew [] (targets d.configs)

  timeout_issues_iff :
      (t : Text)
      → (timeout_issues parse_duration t ≡ [])
        ↔ ((is_empty t ≡ false) × (is_duration parse_duration t ≡ true))
  timeout_issues_iff t = ground arith

  validate-accepted : (d : Definition) → validate parse_duration d ≡ [] → IsDefinition d
  unfolding validate
  validate-accepted d h =
      let (name, h1) = (append_empty_iff _ _).0 h in
      let (description, h2) = (append_empty_iff _ _).0 h1 in
      let (image, h3) = (append_empty_iff _ _).0 h2 in
      let (cron, h4) = (append_empty_iff _ _).0 h3 in
      let (mode, h5) = (append_empty_iff _ _).0 h4 in
      let (cpu, h6) = (append_empty_iff _ _).0 h5 in
      let (memory, h7) = (append_empty_iff _ _).0 h6 in
      let (timeout, configs) = (append_empty_iff _ _).0 h7 in
      let (given, ok) = (timeout_issues_iff d.resources.timeout).0 timeout in
      let (entries, ns, ts) = config_issues-accepted 0 [] [] d.configs configs in
      let known = (issue_if_iff _ _).0 mode in
      record {
        has_name = (require_iff d.name _).0 name;
        has_description = (require_iff d.description _).0 description;
        has_image = (require_iff d.image _).0 image;
        has_cron = (require_iff d.cron _).0 cron;
        has_mode = not-false _ known;
        has_cpu = (require_iff d.resources.cpu _).0 cpu;
        has_memory = (require_iff d.resources.memory _).0 memory;
        has_timeout = given;
        timeout_ok = ok;
        configs_ok = entries;
        new_names = ns;
        new_targets = ts;
      }

  accepted-validate : (d : Definition) → IsDefinition d → validate parse_duration d ≡ []
  unfolding validate
  accepted-validate d v = both ((require_iff d.name _).1 v.has_name) (
      both ((require_iff d.description _).1 v.has_description) (
        both ((require_iff d.image _).1 v.has_image) (
          both ((require_iff d.cron _).1 v.has_cron) (
            both ((issue_if_iff _ _).1 (not-true _ v.has_mode)) (
              both ((require_iff d.resources.cpu _).1 v.has_cpu) (
                both ((require_iff d.resources.memory _).1 v.has_memory) (
                  both ((timeout_issues_iff d.resources.timeout).1 (v.has_timeout, v.timeout_ok)) (
                    accepted-config_issues 0 [] [] d.configs
                      (v.configs_ok, v.new_names, v.new_targets)))))))))

  -- Validate reports nothing exactly if the name, the description, the image, the cron expression, the
  -- CPU, the memory and the timeout are given, the mode is empty, once or once_all, the timeout is a
  -- duration, and each config has a valid name, path and target and an octal mode or none, with no
  -- name and no target that an earlier config has.
  pub validate_iff : (d : Definition) → (validate parse_duration d ≡ []) ↔ IsDefinition d
  validate_iff d = (validate-accepted d, accepted-validate d)
