-- ===== src/Base/Int.antt =====
-- Signed integers over the native numbers, under the library's names.
use bomba.Base.{ℕ, zero, suc}

-- `negsuc n` is -(n + 1).
pub data ℤ : Type 0 where
  pos : ℕ → ℤ
  negsuc : ℕ → ℤ

abbrev pub incr : ℤ → ℤ
incr (pos n) = pos (suc n)
incr (negsuc zero) = pos zero
incr (negsuc (suc n)) = negsuc n

abbrev pub decr : ℤ → ℤ
decr (pos zero) = negsuc zero
decr (pos (suc n)) = pos n
decr (negsuc n) = negsuc (suc n)

abbrev pub pos_part : ℤ → ℕ
pos_part (pos n) = n
pos_part (negsuc n) = 0

abbrev pub neg_part : ℤ → ℕ
neg_part (pos n) = 0
neg_part (negsuc n) = suc n
