-- ===== src/Go/Assoc.antt =====
-- Go maps with string keys that the code changes: `m[key] = value` and `delete(m, key)`, on lists of
-- entries.
use wireops.Prelude.{◌≡◌, refl, none, some, List, [], ◌∷◌, arith, if◌then◌else◌, ◌≢◌}
use wireops.Go.Text.{Text, text_eq, text_eq_iff, text_eq_refl, text_eq-apart}
use wireops.Go.Value.{lookup}

module _ {ℓ} {V : Type ℓ} where
  unfoldable pub put : List (Text × V) → Text → V → List (Text × V)
  put [] k v = (k, v) ∷ []
  put ((j, w) ∷ m) k v = let rest = put m k v in if text_eq j k then (j, v) ∷ m else (j, w) ∷ rest

  unfoldable pub remove : List (Text × V) → Text → List (Text × V)
  remove [] k = []
  remove ((j, w) ∷ m) k = let rest = remove m k in if text_eq j k then rest else (j, w) ∷ rest

  pub lookup-put : (m : List (Text × V)) (k : Text) (v : V) → lookup (put m k v) k ≡ some v
  unfolding put lookup
  lookup-put [] k v = rw (text_eq_refl k) refl
  lookup-put ((j, w) ∷ m) k v = ground (arith, lookup-put m k v)

  pub lookup-put_other :
      (m : List (Text × V)) {j k : Text} (v : V) → k ≢ j → lookup (put m k v) j ≡ lookup m j
  unfolding put lookup
  lookup-put_other [] {j} {k} v n = rw (text_eq-apart n) refl
  lookup-put_other ((i, w) ∷ m) {j} {k} v n =
      ground (arith, lookup-put_other m v n, text_eq-apart n, text_eq_iff i k, text_eq_iff i j)

  pub lookup-remove : (m : List (Text × V)) (k : Text) → lookup (remove m k) k ≡ none
  unfolding remove lookup
  lookup-remove [] k = refl
  lookup-remove ((j, w) ∷ m) k = ground (arith, lookup-remove m k)

  pub lookup-remove_other :
      (m : List (Text × V)) {j k : Text} → k ≢ j → lookup (remove m k) j ≡ lookup m j
  unfolding remove lookup
  lookup-remove_other [] n = refl
  lookup-remove_other ((i, w) ∷ m) {j} {k} n =
      ground (arith, lookup-remove_other m n, text_eq-apart n, text_eq_iff i k, text_eq_iff i j)
