-- ===== src/Base/Int.antt =====
-- Signed integers over the native numbers: the type, and the order that the program tests.
use Prim.Native.Nat.{ℕ, suc, ◌+◌, compare, Ordering}

-- `negsuc n` is -(n + 1).
pub data ℤ : Type 0 where
  pos : ℕ → ℤ
  negsuc : ℕ → ℤ

abbrev pub pos_part : ℤ → ℕ
pos_part (pos n) = n
pos_part (negsuc n) = 0

abbrev pub neg_part : ℤ → ℕ
neg_part (pos n) = 0
neg_part (negsuc n) = suc n

-- a.cmp(&b)
abbrev pub cmp_ℤ : ℤ → ℤ → Ordering
cmp_ℤ a b = compare (pos_part a + neg_part b) (pos_part b + neg_part a)
