-- ===== src/Series/Odd.antt =====
-- Series of all primes in a range, in ascending order, and the divisors of an odd number.
use native.Mathlib.Decide.{dec_lt, ℕ_discrete}
use mathlib.Core.Path.{subst}
use ltrdata.Prelude.{ℕ, zero, suc, ◌+◌, ◌%◌, ◌<◌, ◌≤◌, ◌≡◌, ◌≢◌, List, [], ◌∷◌, ◌++◌, arith}
use ltrdata.Math.Factors.{IsPrime, NoDivisorBelow, mod_trans}

-- No prime from `lo` on is below `hi`.
abbrev pub Gap : ℕ → ℕ → Type 0
Gap lo hi = (q : ℕ) → IsPrime q → lo ≤ q → q < hi → ⊥

-- The list has all primes from `lo` on below `hi`.
abbrev pub Primes : ℕ → List ℕ → ℕ → Type 0
Primes lo [] hi = Gap lo hi
Primes lo (p ∷ ps) hi = IsPrime p × (lo ≤ p) × (p < hi) × Gap lo p × Primes (p + 1) ps hi

divisor_between :
    (bound lo hi n : ℕ)
    → Gap lo hi
    → NoDivisorBelow lo n
    → (d : ℕ) → d < bound
    → 2 ≤ d
    → d < hi
    → n % d ≢ 0
divisor_between zero lo hi n gap none d small two lt e = absurd (omega arith)
divisor_between (suc bound) lo hi n gap none d small two lt e = elim (dec_lt d lo) [
  | yes below ↦ none d two below e
  | no from ↦
      gap d
        (record {
          two_le = two;
          no_divisor = λ k hk less z.
              divisor_between bound lo hi n gap none k (omega arith) hk (omega arith)
                (mod_trans k d n e z);
        })
        (omega arith) lt
]

-- A number without a divisor below `lo` has none below `hi` if no prime is between.
pub Gap-NoDivisorBelow : (lo hi n : ℕ) → Gap lo hi → NoDivisorBelow lo n → NoDivisorBelow hi n
Gap-NoDivisorBelow lo hi n gap none d two lt =
    divisor_between (suc d) lo hi n gap none d (omega arith) two lt

pub Primes-skip :
    (lo hi n p : ℕ) (ps : List ℕ)
    → Primes lo (p ∷ ps) hi
    → NoDivisorBelow lo n
    → n % p ≢ 0
    → NoDivisorBelow (p + 1) n
Primes-skip lo hi n p ps primes none ne d two lt e = elim (ℕ_discrete d p) [
  | yes same ↦ ne (rw same at e)
  | no other ↦ Gap-NoDivisorBelow lo p n primes.3 none d two (omega arith) e
]

-- The next odd number joins the series if it is prime, and not if it has a divisor.
even_composite : (n q : ℕ) → 3 ≤ n → n % 2 ≢ 0 → q ≡ n + 1 → IsPrime q → ⊥
even_composite n q three odd e prime = prime.no_divisor 2 (omega arith) (omega arith) (omega arith)

Gap-further : (lo n : ℕ) → 3 ≤ n → Gap lo n → n % 2 ≢ 0 → (IsPrime n → ⊥) → Gap lo (n + 2)
Gap-further lo n three gap odd composite q prime from lt = elim (dec_lt q n) [
  | yes below ↦ gap q prime from below
  | no past ↦ elim (ℕ_discrete q n) [
    | yes same ↦ composite (subst IsPrime same prime)
    | no other ↦ even_composite n q three odd (omega arith) prime
  ]
]

pub Primes-append :
    (lo n : ℕ) (ps : List ℕ)
    → 3 ≤ n
    → n % 2 ≢ 0
    → IsPrime n
    → lo ≤ n
    → Primes lo ps n
    → Primes lo (ps ++ (n ∷ [])) (n + 2)
Primes-append lo n [] three odd prime le gap = (
  prime,
  le,
  omega arith,
  gap,
  λ q q_prime from lt. even_composite n q three odd (omega arith) q_prime,
)
Primes-append lo n (p ∷ ps) three odd prime le (first, from, below, gap, rest) =
    (first, from, omega arith, gap, Primes-append (p + 1) n ps three odd prime (omega arith) rest)

pub Primes-further :
    (lo n : ℕ) (ps : List ℕ)
    → 3 ≤ n
    → n % 2 ≢ 0
    → (IsPrime n → ⊥)
    → Primes lo ps n
    → Primes lo ps (n + 2)
Primes-further lo n [] three odd composite gap = Gap-further lo n three gap odd composite
Primes-further lo n (p ∷ ps) three odd composite (first, from, below, gap, rest) =
    (first, from, omega arith, gap, Primes-further (p + 1) n ps three odd composite rest)
