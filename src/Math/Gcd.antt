-- ===== src/Math/Gcd.antt =====
-- `gcd` of win32/c/wimath.c, by the magnitudes of its variables.
use native.Mathlib.Nat
use ltrdata.Prelude.{
  ℕ, zero, suc, ◌+◌, ◌%◌, ◌<◌, ◌∣◌, ◌≡◌, ◌≢◌, refl, inl, inr, arith, done, ◌==◌, ==_iff, Bool-cases,
}
use ltrdata.Prelude.Int.{ℤ, pos, negsuc, mag, mag-neg}
use ltrdata.Math.{rem, crem, gcd_loop, gcd}

mag-rem : (a : ℤ) (b : ℕ) → mag (rem a b) ≡ mag a % b
mag-rem (pos a) b = refl
mag-rem (negsuc a) b = mag-neg (suc a % b)

-- Away from zero divisors and INT_MIN the remainder is defined.
pub crem_lem : (a b : ℤ) → mag b ≢ 0 → mag a < 0x8000_0000 → (crem a b ≡ done (rem a (mag b)))
unfolding crem
crem_lem (pos a) (pos b) nz h = ground arith
crem_lem (pos a) (negsuc b) nz h = ground arith
crem_lem (negsuc a) (pos b) nz h = ground arith
crem_lem (negsuc a) (negsuc b) nz h = ground arith

-- `g` is a greatest common divisor of `m` and `n`.
pub record IsGcd (m n g : ℕ) : Type 0 where
  pub left : g ∣ m
  pub right : g ∣ n
  pub greatest : (k : ℕ) → k ∣ m → k ∣ n → k ∣ g

IsGcd-step : (m n g : ℕ) → IsGcd n (m % n) g → IsGcd m n g
IsGcd-step m n g d = record {
  left = (Nat.dvd-mod_iff g d.left).0 d.right;
  right = d.left;
  greatest = λ k hm hn. d.greatest k hn ((Nat.dvd-mod_iff k hn).1 hm);
}

IsGcd-zero : (m : ℕ) → IsGcd m 0 m
IsGcd-zero m = record { left = Nat.dvd_refl m; right = Nat.dvd-zero m; greatest = λ k hm hn. hm }

-- One round of Euclid's algorithm, on `int`.
IsGcd-rem : (a b : ℤ) (g : ℕ) → IsGcd (mag b) (mag (rem a (mag b))) g → IsGcd (mag a) (mag b) g
IsGcd-rem a b g d = IsGcd-step (mag a) (mag b) g (rw (mag-rem a (mag b)) at d)

mag-rem-lt : (a : ℤ) (b : ℕ) → b ≢ 0 → mag (rem a b) < b
mag-rem-lt a b nz = omega (arith, mag-rem a b)

gcd_loop-IsGcd :
    (fuel : ℕ) (b c : ℤ)
    → mag c < fuel
    → mag b < 0x8000_0000
    → mag c < 0x8000_0000
    → (g : ℤ) × (gcd_loop fuel b c ≡ done g) × IsGcd (mag b) (mag c) (mag g)
unfolding gcd_loop
gcd_loop-IsGcd zero b c h hb hc = elim h [ ]
gcd_loop-IsGcd (suc fuel) b c h hb hc = elim (Bool-cases (mag c == 0)) [
  | inl z ↦ rw (z, gcd_loop) (b, refl, rw ((==_iff (mag c) 0).0 z) (IsGcd-zero (mag b)))
  | inr nz ↦
      let c≢0 : mag c ≢ 0 = ground arith in
      let r : ℤ = rem b (mag c) in
      let smaller : mag r < mag c = mag-rem-lt b (mag c) c≢0 in
      let (g, run, is_gcd) = gcd_loop-IsGcd fuel c r (omega arith) hc (omega arith) in
      rw (nz, crem_lem b c c≢0 hb, gcd_loop) (g, run, IsGcd-rem b c (mag g) is_gcd)
]

-- For a nonzero divisor, and with both arguments above INT_MIN, `gcd` terminates without undefined
-- behaviour, and the magnitude of its result is a greatest common divisor of the magnitudes.
pub gcd-IsGcd :
    (a b : ℤ)
    → mag b ≢ 0
    → mag a < 0x8000_0000
    → mag b < 0x8000_0000
    → (g : ℤ) × (gcd a b ≡ done g) × IsGcd (mag a) (mag b) (mag g)
unfolding gcd
gcd-IsGcd a b nz ha hb =
    let r : ℤ = rem a (mag b) in
    let smaller : mag r < mag b = mag-rem-lt a (mag b) nz in
    let (g, run, is_gcd) = gcd_loop-IsGcd (mag b + 1) b r (omega arith) hb (omega arith) in
    rw (crem_lem a b nz ha) (g, run, IsGcd-rem a b (mag g) is_gcd)
