-- ===== src/Fraction/Cancelled.antt =====
-- What win32/c/fraction.c prints for a fraction.
use native.Mathlib.Nat
use ltrdata.Prelude.{
  ℕ, suc, ◌-◌, ◌*◌, ◌/◌, ◌%◌, ◌<◌, ◌≤◌, ◌∣◌, ◌≡◌, ◌≢◌, refl, sym, ap, ◌∙◌, inl, inr, some, List,
  ◌∷◌, done, ◌>>=◌, ◌==◌, Bool-cases, ==_iff, arith,
}
use mathlib.Core.Path.{subst}
use ltrdata.Prelude.Int.{ℤ, pos, negsuc, mag, mag-neg}
use ltrdata.Stdlib.{strtoul_auto}
use ltrdata.Math.Gcd.{IsGcd, gcd-IsGcd}
use ltrdata.Fraction.{
  at_stroke, to_int, quotient, cdiv, simplified, by_factor, cancel, by_line, fractions,
}

mag-quotient : (a b : ℤ) → mag (quotient a b) ≡ mag a / mag b
mag-quotient (pos a) (pos b) = refl
mag-quotient (pos a) (negsuc b) = mag-neg (a / suc b)
mag-quotient (negsuc a) (pos b) = mag-neg (suc a / b)
mag-quotient (negsuc a) (negsuc b) = refl

cdiv_lem : (a b : ℤ) → mag b ≢ 0 → mag a < 0x8000_0000 → cdiv a b ≡ done (quotient a b)
unfolding cdiv
cdiv_lem (pos a) (pos b) nz h = ground arith
cdiv_lem (pos a) (negsuc b) nz h = ground arith
cdiv_lem (negsuc a) (pos b) nz h = ground arith
cdiv_lem (negsuc a) (negsuc b) nz h = ground arith

div-mul_of-dvd : (g m : ℕ) → g ∣ m → m / g * g ≡ m
div-mul_of-dvd g m d =
    let e : m % g ≡ 0 = Nat.mod-eq-zero_of_dvd g d in
    let s : m % g ≡ m - m / g * g = Nat.mod-eq-sub-div-mul m g in
    let le : m / g * g ≤ m = Nat.div-mul-le_self m g in omega arith

-- The quotients by the greatest common divisor have no common divisor but 1.
coprime : (m n g k : ℕ) → 0 < g → IsGcd m n g → k ∣ m / g → k ∣ n / g → k ≡ 1
coprime m n g k positive is_gcd hm hn =
    let dm : k * g ∣ m =
      subst (λ x. k * g ∣ x) (div-mul_of-dvd g m is_gcd.left) (Nat.mul-dvd-mul_right k hm g) in
    let dn : k * g ∣ n =
      subst (λ x. k * g ∣ x) (div-mul_of-dvd g n is_gcd.right) (Nat.mul-dvd-mul_right k hn g) in
    let one : 1 * g ≡ g = omega arith in
    Nat.eq-one_of_dvd-one (
      Nat.dvd_of_mul-dvd-mul_right k positive
        (subst (λ x. k * g ∣ x) (sym one) (is_gcd.greatest (k * g) dm dn)))

-- `a / b` is `t / n`, cancelled by `f`, in lowest terms.
abbrev pub Lowest : (t n a b f : ℤ) → Type 0
Lowest t n a b f =
    (a ≡ quotient t f)
    × (b ≡ quotient n f)
    × (mag a * mag f ≡ mag t)
    × (mag b * mag f ≡ mag n)
    × ((k : ℕ) → k ∣ mag a → k ∣ mag b → k ≡ 1)

by_factor_lem :
    (t n f : ℤ)
    → mag f ≢ 0
    → mag t < 0x8000_0000
    → mag n < 0x8000_0000
    → by_factor t n f ≡ done (simplified (quotient t f) (quotient n f) f)
unfolding by_factor
by_factor_lem t n f nonzero ht hn = elim (Bool-cases (mag f == 0)) [
  | inl zero_factor ↦ absurd (nonzero ((==_iff (mag f) 0).0 zero_factor))
  | inr other ↦ rw (other, cdiv_lem t f nonzero ht, cdiv_lem n f nonzero hn) refl
]

cancel-Lowest :
    (t n : ℤ)
    → mag n ≢ 0
    → mag t < 0x8000_0000
    → mag n < 0x8000_0000
    → (a b f : ℤ) × (cancel t n ≡ done (simplified a b f)) × Lowest t n a b f
unfolding cancel
cancel-Lowest t n nonzero ht hn =
    let (f, run, is_gcd) = gcd-IsGcd t n nonzero ht hn in
    let positive : 0 < mag f = Nat.pos_of_dvd_of_pos is_gcd.right (omega arith) in
    let ma = mag-quotient t f in
    let mb = mag-quotient n f in
    (
      quotient t f,
      quotient n f,
      f,
      ap (λ r. r >>= by_factor t n) run ∙ by_factor_lem t n f (omega arith) ht hn,
      (
        refl,
        refl,
        ap (λ x. x * mag f) ma ∙ div-mul_of-dvd (mag f) (mag t) is_gcd.left,
        ap (λ x. x * mag f) mb ∙ div-mul_of-dvd (mag f) (mag n) is_gcd.right,
        λ k ka kb.
            coprime (mag t) (mag n) (mag f) k positive is_gcd (subst (λ x. k ∣ x) ma ka)
              (subst (λ x. k ∣ x) mb kb),
      ),
    )

-- For a line with a stroke, whose numbers are not INT_MIN and the second of which is not 0, the
-- program prints quotients of both numbers by one factor, which give the numbers again when they
-- are multiplied by it and have no common divisor but 1, and goes on with the next line; it never
-- says that it went wrong.
pub fractions-Lowest :
    (line t n : List ℕ) (lines : List (List ℕ))
    → at_stroke line ≡ some (t, n)
    → mag (to_int (strtoul_auto n)) ≢ 0
    → mag (to_int (strtoul_auto t)) < 0x8000_0000
    → mag (to_int (strtoul_auto n)) < 0x8000_0000
    → (a b f : ℤ) × (fractions (line ∷ lines)
        ≡ (fractions lines >>= λ answers. done (simplified a b f ∷ answers)))
      × Lowest (to_int (strtoul_auto t)) (to_int (strtoul_auto n)) a b f
unfolding fractions by_line
fractions-Lowest line t n lines stroke nonzero ht hn =
    let (a, b, f, run, lowest) =
      cancel-Lowest (to_int (strtoul_auto t)) (to_int (strtoul_auto n)) nonzero ht hn in
    (
      a,
      b,
      f,
      ap (by_line (fractions lines)) stroke
          ∙ ap (λ r. r >>= λ answer. fractions lines >>= λ answers. done (answer ∷ answers)) run,
      lowest,
    )
