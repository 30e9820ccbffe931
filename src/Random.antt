-- ===== src/Random.antt =====
-- win32/c/genpwds.c and win32/c/lotto.c: passwords and lottery numbers from `rand`.
-- The numbers that `rand` gives are the function `rand`, and the state of a program has the index of
-- the next one. A loop that draws until a test holds has fuel.
pub mod Draws
pub mod Passwords
pub mod Lottery
use ltrdata.Prelude.{
  ℕ, zero, suc, ◌+◌, ◌%◌, Bool, true, false, ◌||◌, not, List, [], ◌∷◌, ◌++◌, Run, done, trap, spin,
  ◌^◌, ltb, ◌>>=◌, ◌==◌, if◌then◌else◌,
}
use ltrdata.Stdlib.{strtoul_auto}
use ltrdata.Prelude.Int.{ℤ, pos, negsuc}

-- `while (bad(x = value(rand())));`
unfoldable pub draw : (ℕ → ℕ) → (ℕ → Bool) → ℕ → ℕ → Run (ℕ × ℕ)
draw value bad zero n = spin
draw value bad (suc fuel) n =
    let rest = draw value bad fuel (n + 1) in if bad (value n) then rest else done (value n, n + 1)

-- `strchr(set, c)` on a letter.
unfoldable pub contains : List ℕ → ℕ → Bool
contains [] c = false
contains (x ∷ xs) c = x == c || contains xs c

-- "CQWXZ", "AOUEIY" and "CQWXZAOUEIY".
abbrev pub rare : List ℕ
rare = b'C' ∷ b'Q' ∷ b'W' ∷ b'X' ∷ b'Z' ∷ []

abbrev pub vowels : List ℕ
vowels = b'A' ∷ b'O' ∷ b'U' ∷ b'E' ∷ b'I' ∷ b'Y' ∷ []

abbrev pub rare_vowels : List ℕ
rare_vowels = rare ++ vowels

-- `vokaldags > 0` and `vokaldags--`.
abbrev pub positive : ℤ → Bool
positive (pos zero) = false
positive (pos (suc n)) = true
positive (negsuc n) = false

abbrev pub decrement : ℤ → ℤ
decrement (pos zero) = negsuc 0
decrement (pos (suc n)) = pos n
decrement (negsuc n) = negsuc (suc n)

-- `passwds`, as an unsigned long.
abbrev pub passwds : List (List ℕ) → ℕ
passwds [] = 1
passwds (count ∷ rest) = strtoul_auto count

module _ (rand : ℕ → ℕ) (fuel : ℕ) where
  -- `'A' + rand() % ('Z' - 'A' + 1)`
  abbrev pub letter : ℕ → ℕ
  letter n = b'A' + rand n % 26

  -- The letter, `vokaldags` behind it, and the index of the next random number.
  abbrev pub another_letter : ℕ → Run (ℕ × ℤ × ℕ)
  another_letter n = draw letter (contains rare_vowels) fuel n >>= λ (c, n1). done (c, pos 1, n1)

  abbrev pub after_letter : ℤ → ℕ × ℕ → Run (ℕ × ℤ × ℕ)
  after_letter vokaldags (c, n) =
      let another = another_letter n in
      if contains vowels c
      then if positive vokaldags then another else done (c, pos 1, n)
      else done (c, decrement vokaldags, n)

  unfoldable pub next_letter : ℤ → ℕ → Run (ℕ × ℤ × ℕ)
  next_letter vokaldags n = draw letter (contains rare) fuel n >>= after_letter vokaldags

  unfoldable pub letters : ℕ → ℤ → ℕ → Run (List ℕ × ℕ)
  letters zero vokaldags n = done ([], n)
  letters (suc count) vokaldags n =
      next_letter vokaldags n >>= λ (c, v, n1). letters count v n1 >>= λ (cs, n2). done (c ∷ cs, n2)

  -- `main` of genpwds.c for a count of passwords: its output, with four blanks after each.
  unfoldable pub passwords : ℕ → ℕ → Run (List ℕ × ℕ)
  unfolding letters
  passwords zero n = done ([], n)
  passwords (suc count) n = letters 4 (pos 0) n >>= λ (cs, n1).
      passwords count n1 >>= λ (text, n2). done (cs ++ b' ' ∷ b' ' ∷ b' ' ∷ b' ' ∷ text, n2)

  -- `main` of genpwds.c on its arguments. A count of 2^31 and more is a negative `int`, which the
  -- loop would count down until it overflows.
  unfoldable pub genpwds : List (List ℕ) → Run (List ℕ)
  unfolding passwords
  genpwds args =
      if ltb (passwds args) (2 ^ 31)
      then passwords (passwds args) 0 >>= (λ (text, n). done text)
      else trap

-- The flags of `nummer`.
abbrev pub flag : List Bool → ℕ → Bool
flag [] i = false
flag (b ∷ bs) zero = b
flag (b ∷ bs) (suc i) = flag bs i

abbrev pub mark : List Bool → ℕ → List Bool
mark [] i = []
mark (b ∷ bs) zero = true ∷ bs
mark (b ∷ bs) (suc i) = b ∷ mark bs i

abbrev pub unmarked : ℕ → List Bool
unmarked zero = []
unmarked (suc n) = false ∷ unmarked n

-- The loop that prints: `count+1` for each flag from `count` on.
abbrev pub flagged : ℕ → List Bool → List ℕ
flagged count [] = []
flagged count (true ∷ bs) = (count + 1) ∷ flagged (count + 1) bs
flagged count (false ∷ bs) = flagged (count + 1) bs

abbrev pub number_of_numbers : ℕ
number_of_numbers = 39

module _ (rand : ℕ → ℕ) (fuel : ℕ) where
  abbrev pub number : ℕ → ℕ
  number n = rand n % number_of_numbers

  unfoldable pub marks : ℕ → List Bool → ℕ → Run (List Bool × ℕ)
  marks zero nummer n = done (nummer, n)
  marks (suc count) nummer n =
      draw number (flag nummer) fuel n >>= λ (nr, n1). marks count (mark nummer nr) n1

  -- One line of lotto.c: the numbers that it prints.
  unfoldable pub lottery : ℕ → Run (List ℕ × ℕ)
  unfolding marks
  lottery n = marks 7 (unmarked number_of_numbers) n >>= λ (nummer, n1). done (flagged 0 nummer, n1)

  -- `main` of lotto.c: a line, and one more for each character that is typed.
  unfoldable pub lotto : List ℕ → ℕ → Run (List (List ℕ))
  unfolding lottery
  lotto [] n = lottery n >>= λ (line, n1). done (line ∷ [])
  lotto (key ∷ keys) n = lottery n >>= λ (line, n1). lotto keys n1 >>= λ lines. done (line ∷ lines)
