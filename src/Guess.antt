-- ===== src/Guess.antt =====
-- win32/c/gissatal.c: the player guesses a number from 1 to 99.
-- `rand` is not part of the repository: what it returns is the argument of `draw`. The guesses are
-- the numbers that `scanf` reads, fewer than 2^31 of them.
pub mod Remembered
pub mod Replies
pub mod Game
use ltrdata.Prelude.{
  ℕ, suc, ◌+◌, ◌%◌, Bool, true, false, ◌||◌, List, [], ◌∷◌, ◌==◌, ltb, leb, if◌then◌else◌,
}
use ltrdata.Prelude.Int.{ℤ, pos, negsuc}

-- The message on a guess, in the source's order. `told_high` and `told_low` are "I have told you".
-- `silent` is no message at all.
pub data Reply : Type 0 where
  out_of_range : Reply
  correct : ℕ → Reply
  told_high told_low too_high too_low silent : Reply

-- HighestGuessedValue, LowestGuessedValue and Try.
pub record State : Type 0 where
  pub highest : ℕ
  pub lowest : ℕ
  pub tries : ℕ

abbrev pub initial : State
initial = record { highest = 99; lowest = 1; tries = 0 }

-- `(rand() % 99) + 1`
abbrev pub draw : ℕ → ℕ
draw random = random % 99 + 1

-- The body of the loop for the guess `x`, with `s.tries` incremented.
unfoldable pub judge : ℕ → State → ℕ → Reply × State
judge value s x =
    if ltb x 1 || ltb 99 x
    then (out_of_range, s)
    else if x == value
    then (correct s.tries, s)
    else if leb s.highest x
    then (told_high, s)
    else if leb x s.lowest
    then (told_low, s)
    else if ltb value x
    then (too_high, record s { highest = x })
    else if ltb x value
    then (too_low, record s { lowest = x })
    else (silent, s)

unfoldable pub answer : ℕ → State → ℤ → Reply × State
answer value s (pos x) = judge value (record s { tries = s.tries + 1 }) x
answer value s (negsuc x) = (out_of_range, record s { tries = s.tries + 1 })

-- Only the message on the right guess ends the loop.
abbrev pub unless_correct : Reply × State → (State → List Reply) → List Reply
unless_correct (correct n, s) k = correct n ∷ []
unless_correct (r, s) k = r ∷ k s

-- The messages on a sequence of guesses.
unfoldable pub play : ℕ → State → List ℤ → List Reply
play value s [] = []
play value s (x ∷ xs) = unless_correct (answer value s x) (λ s'. play value s' xs)
