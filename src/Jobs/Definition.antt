-- ===== src/Jobs/Definition.antt =====
-- internal/job/parser.go: the definition of a job, and its validation. The decoding of YAML and the
-- reading of files are outside; `parse_duration` stands for time.ParseDuration, in milliseconds.
pub mod Accepted
use wireops.Prelude.{
  ℕ, zero, suc, ◌+◌, ◌*◌, ◌-◌, ◌≡◌, refl, Bool, true, false, ◌&&◌, ◌||◌, not, Option, none, some,
  List, [], ◌∷◌, ◌++◌, any, ltb, leb, ◌==◌, if◌then◌else◌,
}
use wireops.Go.Text.{Text, codes, text_eq, is_empty}
use wireops.Go.Int.{ℤ}
use wireops.Paths.{
  PathError, validate_config_name, validate_container_mount_path, Cleaned, path, refused,
  clean_relative_path,
}

abbrev pub mode_once : Text
mode_once = codes "once"

abbrev pub mode_once_all : Text
mode_once_all = codes "once_all"

pub record Resources : Type 0 where
  pub cpu : Text
  pub memory : Text
  pub timeout : Text

pub record ConfigEntry : Type 0 where
  pub name : Text
  pub path : Text
  pub target : Text
  pub mode : Text

pub record Definition : Type 0 where
  pub name : Text
  pub description : Text
  pub cron : Text
  pub tags : List Text
  pub group : Text
  pub mode : Text
  pub image : Text
  pub command : List Text
  pub volumes : List Text
  pub network : Text
  pub resources : Resources
  pub configs : List ConfigEntry

-- The texts of a ValidationError, each with what it quotes.
pub data Issue : Type 0 where
  required : Text → Issue
  bad_mode : Text → Issue
  bad_timeout : Text → Issue
  bad_name : ℕ → PathError → Issue
  duplicate_name : ℕ → Text → Issue
  bad_path : ℕ → PathError → Issue
  bad_target : ℕ → PathError → Issue
  duplicate_target : ℕ → Text → Issue
  bad_octal : ℕ → Text → Issue

-- `strconv.ParseUint(s, 8, 32)`.
abbrev pub octal_value : ℕ → Text → Option ℕ
octal_value acc [] = some acc
octal_value acc (c ∷ s) =
    let rest = octal_value (8 * acc + (c - b'0')) s in
    if leb b'0' c && leb c b'7' then rest else none

unfoldable pub parse_octal : Text → Option ℕ
parse_octal s = if is_empty s then none else elim (octal_value 0 s) [
  | none ↦ none
  | some n ↦ if ltb n 0x100000000 then some n else none
]

abbrev pub issue_if : Bool → Issue → List Issue
issue_if true i = i ∷ []
issue_if false i = []

abbrev pub require : Text → Text → List Issue
require value field = issue_if (is_empty value) (required field)

abbrev pub is_seen : Text → List Text → Bool
is_seen x seen = any (text_eq x) seen

-- The issues of one name or target: a bad one, or one that was there before.
abbrev pub name_issues : ℕ → Text → List Text → List Issue
name_issues i name seen = elim (validate_config_name name) [
  | some e ↦ bad_name i e ∷ []
  | none ↦ issue_if (is_seen name seen) (duplicate_name i name)
]

abbrev pub target_issues : ℕ → Text → List Text → List Issue
target_issues i target seen = elim (validate_container_mount_path target) [
  | some e ↦ bad_target i e ∷ []
  | none ↦ issue_if (is_seen target seen) (duplicate_target i target)
]

-- What is remembered: each valid name once.
abbrev pub remember : Option PathError → Text → List Text → List Text
remember (some e) x seen = seen
remember none x seen = if is_seen x seen then seen else x ∷ seen

abbrev pub path_issues : ℕ → Text → List Issue
path_issues i p = elim (clean_relative_path p) [ path q ↦ [] | refused e ↦ bad_path i e ∷ [] ]

abbrev pub is_octal : Text → Bool
is_octal mode = elim (parse_octal mode) [ none ↦ false | some n ↦ true ]

-- One round of the loop over the configs, and the loop.
unfoldable pub entry_issues : ℕ → List Text → List Text → ConfigEntry → List Issue
entry_issues i names targets c =
    name_issues i c.name names
    ++ (path_issues i c.path
        ++ (target_issues i c.target targets
            ++ issue_if (not (is_empty c.mode) && not (is_octal c.mode)) (bad_octal i c.mode)))

unfoldable pub config_issues : ℕ → List Text → List Text → List ConfigEntry → List Issue
config_issues i names targets [] = []
config_issues i names targets (c ∷ cs) =
    entry_issues i names targets c
    ++ config_issues (suc i) (remember (validate_config_name c.name) c.name names)
        (remember (validate_container_mount_path c.target) c.target targets) cs

abbrev pub is_mode : Text → Bool
is_mode mode = is_empty mode || text_eq mode mode_once || text_eq mode mode_once_all

module _ (parse_duration : Text → Option ℤ) where
  abbrev pub is_duration : Text → Bool
  is_duration t = elim (parse_duration t) [ none ↦ false | some d ↦ true ]

  abbrev pub timeout_issues : Text → List Issue
  timeout_issues t =
      if is_empty t
      then required (codes "resources.timeout") ∷ []
      else issue_if (not (is_duration t)) (bad_timeout t)

  unfoldable pub validate : Definition → List Issue
  validate d =
      require d.name (codes "name")
      ++ (require d.description (codes "description")
          ++ (require d.image (codes "image")
              ++ (require d.cron (codes "cron")
                  ++ (issue_if (not (is_mode d.mode)) (bad_mode d.mode)
                      ++ (require d.resources.cpu (codes "resources.cpu")
                          ++ (require d.resources.memory (codes "resources.memory")
                              ++ (timeout_issues d.resources.timeout
                                  ++ config_issues 0 [] [] d.configs)))))))

-- The default of the mode, of a definition that is valid.
unfoldable pub with_default_mode : Definition → Definition
with_default_mode d = record d { mode = if is_empty d.mode then mode_once else d.mode }
