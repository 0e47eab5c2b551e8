-- ===== src/Go/Value/Order.antt =====
-- The order in which `range` visits a map does not show in its lookups and its sorted keys.
use mathlib.Core.List.{Permᴰ}
use mathlib.Core.Path.{subst}
use wireops.Prelude.{◌≡◌, refl, ap, sym, ◌∙◌, Bool, false, ◌||◌, List, [], ◌∷◌, arith}
use wireops.Go.Text.{Text, text_eq, text_eq_iff}
use wireops.Go.Sort.{sort_strings, sort_strings-perm}
use wireops.Go.Value.{Map, at, keys}

abbrev has_key : Text → List Text → Bool
has_key k [] = false
has_key k (j ∷ js) = text_eq j k || has_key k js

abbrev pub IsDistinct : List Text → Type 0
IsDistinct [] = Unit
IsDistinct (k ∷ ks) = (has_key k ks ≡ false) × IsDistinct ks

keys-perm : {m n : Map} → Permᴰ m n → Permᴰ (keys m) (keys n)
keys-perm Permᴰ.nil = Permᴰ.nil
keys-perm (Permᴰ.cons e p) = Permᴰ.cons (ap (λ x. x.0) e) (keys-perm p)
keys-perm (Permᴰ.swap e f) = Permᴰ.swap (ap (λ x. x.0) e) (ap (λ x. x.0) f)
keys-perm (Permᴰ.trans p q) = Permᴰ.trans (keys-perm p) (keys-perm q)

has_key-perm : (k : Text) {js ks : List Text} → Permᴰ js ks → has_key k js ≡ has_key k ks
has_key-perm k Permᴰ.nil = refl
has_key-perm k (Permᴰ.cons e p) = cc (e, has_key-perm k p)
has_key-perm k (Permᴰ.swap {a = a} {b = b} {l = l} e f) =
    rw (← e, ← f) (or_comm (text_eq a k) (text_eq b k) (has_key k l))
  where
    or_comm : (x y z : Bool) → (x || (y || z)) ≡ (y || (x || z))
    or_comm x y z = ground arith
has_key-perm k (Permᴰ.trans p q) = has_key-perm k p ∙ has_key-perm k q

IsDistinct-swap : (a b : Text) (l : List Text) → IsDistinct (a ∷ b ∷ l) → IsDistinct (b ∷ a ∷ l)
IsDistinct-swap a b l d =
    (ground (arith, d.1.0, d.0, text_eq_iff a b, text_eq_iff b a), (ground (arith, d.0), d.1.1))

IsDistinct-perm : {js ks : List Text} → Permᴰ js ks → IsDistinct js → IsDistinct ks
IsDistinct-perm Permᴰ.nil d = d
IsDistinct-perm (Permᴰ.cons {a = a} {l₂ = ks} e p) d =
    (subst (λ k. has_key k ks ≡ false) e (sym (has_key-perm a p) ∙ d.0), IsDistinct-perm p d.1)
IsDistinct-perm (Permᴰ.swap {a = a} {b = b} {b' = b'} {l = l} e f) d =
    subst (λ x. IsDistinct (x ∷ b' ∷ l)) f
      (subst (λ y. IsDistinct (b ∷ y ∷ l)) e (IsDistinct-swap a b l d))
IsDistinct-perm (Permᴰ.trans p q) d = IsDistinct-perm q (IsDistinct-perm p d)

pub at-perm : {m n : Map} → Permᴰ m n → IsDistinct (keys m) → (k : Text) → at m k ≡ at n k
unfolding at
at-perm Permᴰ.nil d k = refl
at-perm (Permᴰ.cons e p) d k = cc (e, at-perm p d.1 k)
at-perm (Permᴰ.swap {a = a} {b = b} {l = l} e f) d k =
    rw (← e, ← f) (ground (arith, d.0, text_eq_iff a.0 k, text_eq_iff b.0 k, text_eq_iff b.0 a.0))
at-perm (Permᴰ.trans p q) d k = at-perm p d k ∙ at-perm q (IsDistinct-perm (keys-perm p) d) k

pub sort-keys-perm : {m n : Map} → Permᴰ m n → sort_strings (keys m) ≡ sort_strings (keys n)
sort-keys-perm p = sort_strings-perm (keys-perm p)
