-- ===== src/Math.antt =====
-- win32/c/wimath.c: the greatest common divisor and the prime factors of an `int`.
-- `mag` and `crem` are C's magnitude and `%`; an `int` is an integer from -2^31 to 2^31 - 1.
pub mod Gcd
pub mod Factors
use ltrdata.Prelude.{
  ℕ, zero, suc, ◌+◌, ◌/◌, ◌%◌, Bool, true, false, Run, done, trap, spin, ◌>>=◌, ◌==◌, ltb,
  if◌then◌else◌,
}
use ltrdata.Prelude.Int.{ℤ, pos, negsuc, mag, neg}

abbrev pub is_int_min : ℤ → Bool
is_int_min (pos n) = false
is_int_min (negsuc n) = n == 0x7fff_ffff

abbrev pub is_minus_one : ℤ → Bool
is_minus_one (pos n) = false
is_minus_one (negsuc n) = n == 0

-- The remainder takes the dividend's sign.
abbrev pub rem : ℤ → ℕ → ℤ
rem (pos a) b = pos (a % b)
rem (negsuc a) b = neg (suc a % b)

-- C's `a % b` on `int`: undefined for a zero divisor, and for INT_MIN % -1, where a / b overflows.
unfoldable pub crem : ℤ → ℤ → Run ℤ
crem a b = if mag b == 0 then trap else elim (is_minus_one b) [
  | true ↦ if is_int_min a then trap else done (rem a (mag b))
  | false ↦ done (rem a (mag b))
]

-- `while (c != 0) { a = b; b = c; c = a % b; } return b;`
pub gcd_loop : ℕ → ℤ → ℤ → Run ℤ
gcd_loop zero b c = spin
gcd_loop (suc fuel) b c = elim (mag c == 0) [
  | true ↦ done b
  | false ↦ crem b c >>= (λ c'. gcd_loop fuel c c')
]

unfoldable pub gcd : ℤ → ℤ → Run ℤ
unfolding gcd_loop crem
gcd a b = crem a b >>= (λ c. gcd_loop (mag b + 1) b c)

-- How the search for an odd factor ends.
pub data Trial : Type 0 where
  found : ℕ → Trial
  past unending : Trial

-- `for (c = 3; i % c; c += 2) if (c > i) return 0;` from `c` on.
unfoldable pub odd_factor : ℕ → ℕ → ℕ → Trial
odd_factor zero i c = unending
odd_factor (suc fuel) i c = elim (i % c == 0) [
  | true ↦ found c
  | false ↦ elim (ltb i c) [ true ↦ past | false ↦ odd_factor fuel i (c + 2) ]
]

-- `if (f(u, c)) return 1;`, and what follows it.
abbrev pub unless_stopped : {U : Type 0} → U × Bool → (U → Run (ℤ × U)) → Run (ℤ × U)
unless_stopped (u, true) k = done (pos 1, u)
unless_stopped (u, false) k = k u

-- `f u p` is the callback: the new user data, and whether it returned nonzero.
module _ {U : Type 0} (f : U → ℕ → U × Bool) where
  unfoldable pub factor_loop : ℕ → ℕ → U → Run (ℤ × U)
  factor_loop zero i u = spin
  factor_loop (suc fuel) i u = elim (i == 0) [
    | true ↦ done (negsuc 0, u)
    | false ↦ elim (i % 2 == 0) [
      | true ↦ unless_stopped (f u 2) (λ u'. factor_loop fuel (i / 2) u')
      | false ↦ elim (odd_factor (i + 1) i 3) [
        | found c ↦ unless_stopped (f u c) (λ u'. factor_loop fuel (i / c) u')
        | past ↦ done (pos 0, u)
        | unending ↦ spin
      ]
    ]
  ]

  unfoldable pub getprimefactors : ℤ → U → Run (ℤ × U)
  unfolding factor_loop odd_factor
  getprimefactors (pos i) u = factor_loop (i + 1) i u
  getprimefactors (negsuc i) u = done (negsuc 0, u)
