-- ===== src/Jobs/Names.antt =====
-- internal/jobscheduler/scheduler.go: the name and the description that are shown of a job.
use wireops.Prelude.{
  ℕ, Bool, true, false, ◌&&◌, ◌||◌, not, Option, none, some, [], ◌∷◌, ◌++◌, ◌==◌, if◌then◌else◌,
}
use wireops.Go.Text.{Text, codes, text_eq, is_empty, trim, trim_space, after_last}
use wireops.Paths.{ext}
use wireops.Jobs.Definition.{Definition}
use wireops.Jobs.Sweep.{ScheduledJob}

-- `filepath.Base` of a path that does not end with a slash.
unfoldable pub base : Text → Text
base p = if is_empty p then codes "." else after_last b'/' p

-- `strings.TrimSuffix(s, suffix)`.
unfoldable pub trim_suffix : Text → Text → Text
trim_suffix suffix [] = []
trim_suffix suffix (c ∷ s) =
    let rest = trim_suffix suffix s in
    if not (is_empty suffix) && text_eq (c ∷ s) suffix then [] else c ∷ rest

unfoldable pub fallback_scheduled_job_name : Text → Text → Text
fallback_scheduled_job_name job_file id =
    let name = trim_suffix (ext job_file) (base job_file) in
    if is_empty name || text_eq name (codes ".") then codes "job_" ++ id else name

-- `unicode.IsLetter(r) || unicode.IsDigit(r)` is a parameter.
module _ (is_alphanumeric : ℕ → Bool) where
  abbrev pub is_allowed : ℕ → Bool
  is_allowed r = is_alphanumeric r || r == b'_' || r == b'-' || r == b' '

  -- The loop over the name: a run of other characters becomes one dash.
  unfoldable pub sanitize_from : Bool → Text → Text
  sanitize_from previous_separator [] = []
  sanitize_from previous_separator (r ∷ s) =
      let kept = sanitize_from (r == b'-' || r == b' ') s in
      let rest = sanitize_from true s in
      if is_allowed r then r ∷ kept else if previous_separator then rest else b'-' ∷ rest

  abbrev pub is_margin : ℕ → Bool
  is_margin r = r == b' ' || r == b'-' || r == b'_'

  unfoldable pub sanitize_scheduled_job_name : Text → Text → Text
  sanitize_scheduled_job_name name id =
      let sanitized = trim is_margin (sanitize_from false (trim_space name)) in
      if is_empty sanitized then codes "job_" ++ id else sanitized

  -- The fields that are shown of a job, with its definition where it was parsed.
  unfoldable pub ensure_scheduled_job_display_fields :
      Text → Option Definition → ScheduledJob → ScheduledJob
  ensure_scheduled_job_display_fields id (some d) rec =
      let name = if is_empty d.name then fallback_scheduled_job_name rec.job_file id else d.name in
      record rec { name = sanitize_scheduled_job_name name id; description = d.description }
  ensure_scheduled_job_display_fields id none rec =
      if is_empty rec.name
      then record rec {
        name = sanitize_scheduled_job_name (fallback_scheduled_job_name rec.job_file id) id;
      }
      else rec
