-- ===== src/Random/Lottery.antt =====
-- A line of win32/c/lotto.c has seven numbers.
use ltrdata.Prelude.{ℕ, suc, ◌+◌, ◌<◌, ◌≤◌, ◌≡◌, Bool, true, false, List, [], ◌∷◌, length}
use ltrdata.Random.{number_of_numbers, number}

-- Each `window` numbers in a row have all the remainders.
abbrev pub Thorough : (ℕ → ℕ) → ℕ → Type 0
Thorough rand window =
    (n r : ℕ) → r < number_of_numbers → (i : ℕ) × (i < window) × (number rand window (n + i) ≡ r)

-- Greater than `low`, in ascending order, and at most `high`.
abbrev pub Ascends : ℕ → ℕ → List ℕ → Type 0
Ascends low high [] = Unit
Ascends low high (x ∷ xs) = (low < x) × (x ≤ high) × Ascends x high xs

size : List Bool → ℕ
size [] = 0
size (b ∷ bs) = suc (size bs)

marked : List Bool → ℕ
marked [] = 0
marked (true ∷ bs) = suc (marked bs)
marked (false ∷ bs) = marked bs

abbrev pub SevenAscending : List ℕ → Type 0
SevenAscending xs = (length xs ≡ 7) × Ascends 0 number_of_numbers xs
