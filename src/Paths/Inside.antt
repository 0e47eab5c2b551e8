-- ===== src/Paths/Inside.antt =====
-- What CleanRelativePath promises of the paths that it returns.
use wireops.Prelude.{ℕ, ◌∷◌, ◌≡◌, false, arith, All}
use wireops.Go.Text.{Text, codes, split, has_prefix}
use wireops.Go.Path.{clean}
use wireops.Go.Path.Climbing.{IsStep, clean-steps}
use wireops.Go.Path.Joined.{IsJoined, join-steps}
use wireops.Paths.{is_abs, path, clean_relative_path}

accepted_facts :
    (p q : Text)
    → clean_relative_path p ≡ path q
    → (clean p ≡ q) × (has_prefix (clean p) (codes "..") ≡ false) × (is_abs (clean p) ≡ false)
unfolding clean_relative_path
accepted_facts p q h = ground (arith, h)

-- A path that CleanRelativePath returns is the cleaned one, is relative, and none of its components is
-- "..". Joined to a directory with filepath.Join, it climbs nowhere: its components stand behind those of
-- the directory, which all stay.
pub clean_relative_path-inside :
    (p q : Text)
    → clean_relative_path p ≡ path q
    → (c : ℕ) (cs : Text)
    → (clean p ≡ q) × (is_abs q ≡ false) × All IsStep (split b'/' q) × IsJoined (c ∷ cs) q
clean_relative_path-inside p q h c cs =
    let (e, up, relative) = accepted_facts p q h in
    let steps : All IsStep (split b'/' q) =
      rw (← e) (clean-steps p (unfold is_abs in relative) up) in
    (e, rw (← e) relative, steps, join-steps c cs q steps)
