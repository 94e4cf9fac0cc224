-- ===== src/Prelude/Integers.antt =====
-- Signed integers over the native numbers.
use Prim.Native.Nat.{ℕ, zero, suc, ◌+◌, ◌-◌}
use pitblu_core.Prelude.Tests.{if◌then◌else◌, ltb}

-- `negsuc n` is -(n + 1).
pub data ℤ : Type 0 where
  pos : ℕ → ℤ
  negsuc : ℕ → ℤ

-- The difference of two natural numbers
abbrev pub diff : ℕ → ℕ → ℤ
diff m n = if ltb m n then negsuc (n - m - 1) else pos (m - n)

abbrev pub negate : ℤ → ℤ
negate (pos zero) = pos 0
negate (pos (suc n)) = negsuc n
negate (negsuc n) = pos (suc n)

infixl 6 ◌+ℤ◌ ◌-ℤ◌
abbrev pub ◌+ℤ◌ : ℤ → ℤ → ℤ
pos m +ℤ pos n = pos (m + n)
pos m +ℤ negsuc n = diff m (suc n)
negsuc m +ℤ pos n = diff n (suc m)
negsuc m +ℤ negsuc n = negsuc (suc (m + n))

abbrev pub ◌-ℤ◌ : ℤ → ℤ → ℤ
x -ℤ y = x +ℤ negate y
