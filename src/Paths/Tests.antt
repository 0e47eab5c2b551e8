-- ===== src/Paths/Tests.antt =====
-- The path of a config file below a repository.
use wireops.Prelude.{◌≡◌, refl, false, All}
use wireops.Go.Text.{Text, codes, split}
use wireops.Go.Path.{clean}
use wireops.Go.Path.Climbing.{IsStep}
use wireops.Go.Path.Joined.{IsJoined}
use wireops.Paths.{is_abs, clean_relative_path, path, refused, escapes}
use wireops.Paths.Inside.{clean_relative_path-inside}

abbrev given : Text
given = codes "./conf/../app//app.yml"

abbrev kept : Text
kept = codes "app/app.yml"

given-kept : clean_relative_path given ≡ path kept
unfolding clean_relative_path clean is_abs wireops.Go.Text.has_prefix wireops.Go.Text.split
    wireops.Go.Text.text_eq
given-kept = refl

climbing_refused :
    clean_relative_path (codes "a/../../etc") ≡ refused (escapes (codes "a/../../etc"))
unfolding clean_relative_path clean is_abs wireops.Go.Text.has_prefix wireops.Go.Text.split
    wireops.Go.Text.text_eq
climbing_refused = refl

clean_relative_path-inside_example :
    (clean given ≡ kept)
    × (is_abs kept ≡ false)
    × All IsStep (split b'/' kept)
    × IsJoined (codes "/srv") kept
clean_relative_path-inside_example =
    clean_relative_path-inside given kept given-kept b'/' (codes "srv")
