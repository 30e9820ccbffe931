-- ===== src/Fraction.antt =====
-- win32/c/fraction.c: cancels the fractions that are typed in. A client of `gcd` and `strtoul`.
-- The question before each line is left out. A line is what `fgets` gives.
pub mod Cancelled
use ltrdata.Prelude.{
  ℕ, zero, suc, ◌-◌, ◌/◌, ◌^◌, Bool, true, false, Option, none, some, List, [], ◌∷◌, Run, done,
  trap, ◌>>=◌, ◌==◌, ltb, if◌then◌else◌,
}
use ltrdata.Prelude.Int.{ℤ, pos, negsuc, mag, neg}
use ltrdata.Stdlib.{strtoul_auto}
use ltrdata.Math.{is_int_min, is_minus_one, gcd}

-- `strchr(buffer, '/')`: what stands in front of the stroke and behind it.
abbrev pub in_front : ℕ → Option (List ℕ × List ℕ) → Option (List ℕ × List ℕ)
in_front c none = none
in_front c (some (before, behind)) = some (c ∷ before, behind)

unfoldable pub at_stroke : List ℕ → Option (List ℕ × List ℕ)
at_stroke [] = none
at_stroke (c ∷ cs) = let rest = at_stroke cs in if c == b'/' then some ([], cs) else in_front c rest

-- An unsigned long as an int.
abbrev pub to_int : ℕ → ℤ
to_int n = if ltb n 0x8000_0000 then pos n else neg (2 ^ 32 - n)

-- C's `a / b` on `int`: undefined for a zero divisor, and for INT_MIN / -1.
abbrev pub quotient : ℤ → ℤ → ℤ
quotient (pos a) (pos b) = pos (a / b)
quotient (pos a) (negsuc b) = neg (a / suc b)
quotient (negsuc a) (pos b) = neg (suc a / b)
quotient (negsuc a) (negsuc b) = pos (suc a / suc b)

unfoldable pub cdiv : ℤ → ℤ → Run ℤ
cdiv a b =
    if mag b == 0
    then trap
    else if is_minus_one b
    then if is_int_min a then trap else done (quotient a b)
    else done (quotient a b)

-- What is printed for a line: the cancelled fraction and the factor, or that it went wrong.
pub data Answer : Type 0 where
  simplified : (numerator denominator factor : ℤ) → Answer
  hmm : Answer

unfoldable pub by_factor : (t n f : ℤ) → Run Answer
by_factor t n f =
    if mag f == 0
    then done hmm
    else cdiv t f >>= λ numerator.
        cdiv n f >>= λ denominator. done (simplified numerator denominator f)

unfoldable pub cancel : (t n : ℤ) → Run Answer
unfolding by_factor
cancel t n = gcd t n >>= by_factor t n

-- The loop of `main` on the lines; one without a stroke ends it.
unfoldable pub by_line : Run (List Answer) → Option (List ℕ × List ℕ) → Run (List Answer)
unfolding cancel
by_line rest none = done []
by_line rest (some (t, n)) =
    cancel (to_int (strtoul_auto t)) (to_int (strtoul_auto n)) >>= λ answer.
    rest >>= λ answers. done (answer ∷ answers)

unfoldable pub fractions : List (List ℕ) → Run (List Answer)
unfolding by_line
fractions [] = done []
fractions (line ∷ lines) = by_line (fractions lines) (at_stroke line)
