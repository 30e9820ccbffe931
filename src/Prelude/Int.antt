-- ===== src/Prelude/Int.antt =====
-- Signed integers over the native numbers.
use Prim.Native.Nat.{ℕ, zero, suc}
use mathlib.Core.Path.{◌≡◌, refl}

-- `negsuc n` is -(n + 1).
pub data ℤ : Type 0 where
  pos : ℕ → ℤ
  negsuc : ℕ → ℤ

abbrev pub mag : ℤ → ℕ
mag (pos n) = n
mag (negsuc n) = suc n

-- -n
abbrev pub neg : ℕ → ℤ
neg zero = pos zero
neg (suc n) = negsuc n

pub mag-neg : (n : ℕ) → mag (neg n) ≡ n
mag-neg zero = refl
mag-neg (suc n) = refl
