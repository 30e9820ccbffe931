-- ===== src/Series.antt =====
-- win32/cpp/primeser.cpp: the prime factors of a number, by a series of all odd primes up to it.
-- The array of the caller is a list, and a pointer into it an index; a write outside it is a trap.
pub mod Odd
pub mod Listed
pub mod Walk
pub mod Factors
use ltrdata.Prelude.{
  ℕ, zero, suc, ◌+◌, ◌-◌, ◌*◌, ◌/◌, ◌%◌, ◌<◌, ◌≤◌, ◌≡◌, Bool, true, false, not, List, [], ◌∷◌, ◌++◌,
  Run, done, trap, spin, ◌>>=◌, length, ◌==◌, ltb, if◌then◌else◌,
}
use ltrdata.Prelude.Int.{ℤ, pos, negsuc}
use ltrdata.Prelude.Splice.{splice}

-- `primefactors[ptr] = v`.
abbrev pub store : List ℕ → ℕ → ℕ → Run (List ℕ)
store m ptr v = if ltb ptr (length m) then done (splice m ptr (v ∷ [])) else trap

-- A factor and the one behind it.
abbrev pub store_last : List ℕ → ℕ → ℕ → Run (List ℕ)
store_last m ptr v = store m ptr v >>= λ m1. store m1 (ptr + 1) 1

-- The body of `isprimeno` at a prime that divides `no`: the array, and false.
abbrev pub divided :
    (again : ℕ → ℕ → List ℕ → Run (List ℕ × Bool))
    → (verbose : Bool) (number ptr p : ℕ) → List ℕ
    → Run (List ℕ × Bool)
divided again verbose number ptr p m =
    if verbose
    then (store_last m ptr p >>= λ m2.
        again (number / p) (ptr + 1) m2 >>= λ (m3, prime). done (m3, false))
    else done (m, false)

-- The loop of `isprimeno` from a place in the series on; `again` is the nested call.
unfoldable pub seek :
    (again : ℕ → ℕ → List ℕ → Run (List ℕ × Bool))
    → (verbose : Bool) (number ptr : ℕ) → List ℕ
    → List ℕ
    → Run (List ℕ × Bool)
seek again verbose number ptr [] m = done (m, true)
seek again verbose number ptr (p ∷ left) m =
    let rest = seek again verbose number ptr left m in
    if number == p
    then (store_last m ptr p >>= λ m2. done (m2, true))
    else if number / p * p == number
    then divided again verbose number ptr p m
    else rest

unfoldable pub isprimeno :
    (fuel : ℕ) → List ℕ → (verbose : Bool) → (number ptr : ℕ) → List ℕ → Run (List ℕ × Bool)
isprimeno zero series verbose number ptr m = spin
isprimeno (suc fuel) series verbose number ptr m =
    seek (isprimeno fuel series verbose) verbose number ptr series m

-- What follows `isprimeno` in the loop over the odd numbers.
abbrev pub after_test :
    (serieslength number ptr currentno : ℕ)
    → List ℕ
    → (verbose : Bool) → (List ℕ → List ℕ → Run (List ℕ × Bool))
    → List ℕ × Bool
    → Run (List ℕ × Bool)
after_test serieslength number ptr currentno series verbose next (m, false) = next series m
after_test serieslength number ptr currentno series verbose next (m, true) =
    if not (ltb (length series) serieslength)
    then trap
    else if verbose
    then (store_last m ptr number >>= λ m2. done (m2, true))
    else next (series ++ (currentno ∷ [])) m

-- `left` rounds are left; the last one is verbose.
unfoldable pub series_loop :
    (serieslength number ptr left currentno : ℕ) → List ℕ → List ℕ → Run (List ℕ × Bool)
series_loop serieslength number ptr zero currentno series m = done (m, true)
series_loop serieslength number ptr (suc left) currentno series m =
    isprimeno (currentno + 1) series (left == 0) currentno ptr m
    >>= after_test serieslength number ptr currentno series (left == 0)
        (series_loop serieslength number ptr left (currentno + 2))

-- The division by 2: the number, the pointer and the array behind it.
unfoldable pub halve_loop : (fuel number ptr : ℕ) → List ℕ → Run (ℕ × ℕ × List ℕ)
halve_loop zero number ptr m = spin
halve_loop (suc fuel) number ptr m =
    if number % 2 == 0
    then (store m ptr 2 >>= λ m1. halve_loop fuel (number / 2) (ptr + 1) m1)
    else done (number, ptr, m)

abbrev pub after_halving : (allocates : Bool) → ℕ × ℕ × List ℕ → Run (List ℕ × Bool)
after_halving allocates (number, ptr, m) =
    if ltb number 3
    then (store m ptr 1 >>= λ m1. done (m1, true))
    else if allocates
    then series_loop (number / 2) number ptr (number / 2) 3 [] m
    else done (m, false)

-- The array and the value that is returned; `allocates` tells whether there is memory for the series.
unfoldable pub primefactorexpress : (allocates : Bool) → List ℕ → ℤ → Run (List ℕ × Bool)
primefactorexpress allocates m (negsuc i) = store m 0 1 >>= λ m1. done (m1, true)
primefactorexpress allocates m (pos number) =
    if ltb number 2
    then (store m 0 1 >>= λ m1. done (m1, true))
    else halve_loop (number + 1) number 0 m >>= after_halving allocates
