-- ===== src/Go/Int.antt =====
-- Go's signed integers where the code only stores and compares them.
use wireops.Prelude.{ℕ, Bool, true, false, ltb, ◌≡◌, ◌==◌, arith}

pub data ℤ : Type 0 where
  pos : ℕ → ℤ
  negsuc : ℕ → ℤ

-- `a < b`.
unfoldable pub ltbℤ : ℤ → ℤ → Bool
ltbℤ (pos a) (pos b) = ltb a b
ltbℤ (pos a) (negsuc b) = false
ltbℤ (negsuc a) (pos b) = true
ltbℤ (negsuc a) (negsuc b) = ltb b a

pub ltbℤ_irrefl : (a : ℤ) → ltbℤ a a ≡ false
unfolding ltbℤ
ltbℤ_irrefl (pos a) = ground arith
ltbℤ_irrefl (negsuc a) = ground arith

pub ltbℤ_asymm : (a b : ℤ) → ltbℤ a b ≡ true → ltbℤ b a ≡ false
unfolding ltbℤ
ltbℤ_asymm (pos a) (pos b) h = ground arith
ltbℤ_asymm (pos a) (negsuc b) h = ground arith
ltbℤ_asymm (negsuc a) (pos b) h = ground arith
ltbℤ_asymm (negsuc a) (negsuc b) h = ground arith

-- The order as `≤`, the negation of the reverse `<`, is transitive.
pub lebℤ_trans : (a b c : ℤ) → ltbℤ b a ≡ false → ltbℤ c b ≡ false → ltbℤ c a ≡ false
unfolding ltbℤ
lebℤ_trans (pos a) (pos b) (pos c) h k = ground arith
lebℤ_trans (pos a) (pos b) (negsuc c) h k = ground arith
lebℤ_trans (pos a) (negsuc b) c h k = ground arith
lebℤ_trans (negsuc a) b (pos c) h k = ground arith
lebℤ_trans (negsuc a) (pos b) (negsuc c) h k = ground arith
lebℤ_trans (negsuc a) (negsuc b) (negsuc c) h k = ground arith

-- `a == 0`.
unfoldable pub is_zero : ℤ → Bool
is_zero (pos n) = n == 0
is_zero (negsuc n) = false
