-- ===== src/Prelude/Runs.antt =====
-- How a piece of C code ends.
-- `trap` stands for what C leaves undefined (a division by zero, an `int` overflow), and `spin`
-- for a loop whose fuel ran out. Each theorem on a loop shows that its fuel is enough.
pub data Run {ℓ} (A : Type ℓ) : Type ℓ where
  done : A → Run A
  trap spin : Run A

infixl 5 ◌>>=◌
abbrev pub ◌>>=◌ {ℓ κ} : {A : Type ℓ} {B : Type κ} → Run A → (A → Run B) → Run B
done a >>= f = f a
trap >>= f = trap
spin >>= f = spin
