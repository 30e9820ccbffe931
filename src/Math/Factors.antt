-- ===== src/Math/Factors.antt =====
-- `getprimefactors` of win32/c/wimath.c: what it hands to its callback.
use native.Mathlib.Nat
use mathlib.Core.Path.{fun_ext}
use native.Mathlib.Decide.{dec_lt, ℕ_discrete}
use ltrdata.Prelude.{
  ℕ, zero, suc, ◌+◌, ◌*◌, ◌/◌, ◌%◌, ◌<◌, ◌≤◌, ◌∣◌, ◌≡◌, ◌≢◌, refl, inl, inr, Bool, false, List, [],
  ◌∷◌, arith, ap, ◌∙◌, sym, Run, done, ◌==◌, ltb, ==_iff, Bool-cases,
}
use ltrdata.Prelude.Int.{ℤ, pos}
use ltrdata.Math.{found, odd_factor, factor_loop, getprimefactors, unless_stopped}

abbrev pub product : List ℕ → ℕ
product [] = 1
product (p ∷ ps) = p * product ps

pub record IsPrime (p : ℕ) : Type 0 where
  pub two_le : 2 ≤ p
  pub no_divisor : (d : ℕ) → 2 ≤ d → d < p → p % d ≢ 0

-- Primes in ascending order, from `lo` on.
abbrev pub Ascends : ℕ → List ℕ → Type 0
Ascends lo [] = Unit
Ascends lo (p ∷ ps) = IsPrime p × (lo ≤ p) × Ascends p ps

abbrev pub NoDivisorBelow : ℕ → ℕ → Type 0
NoDivisorBelow c i = (d : ℕ) → 2 ≤ d → d < c → i % d ≢ 0

-- What is reported for the factors `ps`: each in turn, until the callback asks to stop.
module _ {U : Type 0} (f : U → ℕ → U × Bool) where
  abbrev pub report : List ℕ → U → Run (ℤ × U)
  report [] u = done (pos 0, u)
  report (p ∷ ps) u = unless_stopped (f u p) (λ u'. report ps u')

-- A proper divisor of a divisor divides.
pub mod_trans : (d c i : ℕ) → i % c ≡ 0 → c % d ≡ 0 → i % d ≡ 0
mod_trans d c i hc hd =
    Nat.mod-eq-zero_of_dvd d
      (Nat.dvd_trans d (Nat.dvd_of_mod-eq-zero d hd) (Nat.dvd_of_mod-eq-zero c hc))

pub least-IsPrime : (c i : ℕ) → 2 ≤ c → i % c ≡ 0 → NoDivisorBelow c i → IsPrime c
least-IsPrime c i two hc h = record {
  two_le = two;
  no_divisor = λ d hd lt e. h d hd lt (mod_trans d c i hc e);
}

-- An odd number with no divisor below the odd `c` has none below `c + 2` unless `c` is one.
no_divisor_next :
    (i c : ℕ) → i % 2 ≢ 0 → c % 2 ≡ 1 → i % c ≢ 0 → NoDivisorBelow c i → NoDivisorBelow (c + 2) i
no_divisor_next i c odd hc nd h d two lt e = elim (dec_lt d c) [
  | yes p ↦ h d two p e
  | no p ↦ elim (ℕ_discrete d c) [
    | yes q ↦ nd (rw (← q) e)
    | no q ↦ odd (mod_trans 2 d i e (omega arith))
  ]
]

pub le_of_NoDivisorBelow : (lo i r : ℕ) → NoDivisorBelow lo i → 2 ≤ r → i % r ≡ 0 → lo ≤ r
le_of_NoDivisorBelow lo i r h two e = elim (dec_lt r lo) [
  | yes p ↦ absurd (h r two p e)
  | no p ↦ omega arith
]

-- The search finds the least divisor of an odd number.
pub odd_factor-found :
    (fuel i c : ℕ)
    → i < fuel + c
    → 3 ≤ i
    → 3 ≤ c
    → c % 2 ≡ 1
    → i % 2 ≢ 0
    → NoDivisorBelow c i
    → (r : ℕ) × (odd_factor fuel i c ≡ found r) × (i % r ≡ 0) × NoDivisorBelow r i × (3 ≤ r)
unfolding odd_factor
odd_factor-found zero i c h i3 c3 hc odd nd =
    absurd (nd i (omega arith) (omega arith) (Nat.mod_self i))
odd_factor-found (suc fuel) i c h i3 c3 hc odd nd = elim (Bool-cases (i % c == 0)) [
  | inl z ↦ let e : i % c ≡ 0 = (==_iff (i % c) 0).0 z in rw (z, odd_factor) (c, refl, e, nd, c3)
  | inr nz ↦
      let ne : i % c ≢ 0 = ground arith in
      let nd' : NoDivisorBelow (c + 2) i = no_divisor_next i c odd hc ne nd in
      let c≤i : c ≤ i = le_of_NoDivisorBelow c i i nd (omega arith) (Nat.mod_self i) in
      let going : ltb i c ≡ false = ground arith in
      rw (nz, going, odd_factor)
        (odd_factor-found fuel i (c + 2) (omega arith) i3 (omega arith) (omega arith) odd nd')
]

pub no_divisor_three : (i : ℕ) → i % 2 ≢ 0 → NoDivisorBelow 3 i
no_divisor_three i odd d two lt e = let d≡2 : d ≡ 2 = omega arith in odd (rw d≡2 at e)

pub two-IsPrime : IsPrime 2
two-IsPrime = record { two_le = omega arith; no_divisor = λ d p q e. omega arith }

pub div-mul : (i p : ℕ) → i % p ≡ 0 → p * (i / p) ≡ i
div-mul i p e = omega (arith, Nat.div-add-mod i p)

-- Dividing out a prime factor keeps all others at or above it.
pub quotient-NoDivisorBelow :
    (lo i p : ℕ) → i % p ≡ 0 → NoDivisorBelow lo i → NoDivisorBelow lo (i / p)
quotient-NoDivisorBelow lo i p e h d two lt bad = h d two lt (Nat.mod-eq-zero_of_dvd d divides)
  where
    divides : d ∣ i
    divides = rw (div-mul i p e) at (Nat.dvd-mul_left_of_dvd d (Nat.dvd_of_mod-eq-zero d bad) p)

pub quotient_pos : (i p : ℕ) → 0 < i → i % p ≡ 0 → 0 < i / p
quotient_pos i p h e = elim (ℕ_discrete (i / p) 0) [
  | yes z ↦ absurd (zero_case (rw z at (div-mul i p e)))
  | no nz ↦ omega arith
]
  where
    zero_case : p * 0 ≡ i → ⊥
    zero_case q = omega arith

module _ {U : Type 0} (f : U → ℕ → U × Bool) where
  -- From `i` on, the loop reports `ps`, the prime factors of `i` in ascending order.
  record Reports (fuel lo i : ℕ) : Type 0 where
    factors : List ℕ
    multiply : product factors ≡ i
    ascend : Ascends lo factors
    runs : (u : U) → factor_loop f fuel i u ≡ report f factors u

  factor_loop-past : (fuel : ℕ) (u : U) → factor_loop f (suc fuel) 1 u ≡ done (pos 0, u)
  unfolding factor_loop odd_factor
  factor_loop-past fuel u = refl

  -- One reported factor `p`, then the factors of the quotient.
  Reports-cons :
      (fuel lo i p : ℕ)
      → IsPrime p
      → lo ≤ p
      → i % p ≡ 0
      → ((u : U)
          → factor_loop f (suc fuel) i u
            ≡ unless_stopped (f u p) (λ u'. factor_loop f fuel (i / p) u'))
      → Reports fuel p (i / p)
      → Reports (suc fuel) lo i
  Reports-cons fuel lo i p prime le e step rest = record {
    factors = p ∷ rest.factors;
    multiply = rw (rest.multiply, div-mul i p e);
    ascend = (prime, le, rest.ascend);
    runs = λ u. step u ∙ ap (unless_stopped (f u p)) (fun_ext rest.runs);
  }

  even_step :
      (fuel i : ℕ) (u : U)
      → 0 < i
      → i % 2 ≡ 0
      → factor_loop f (suc fuel) i u ≡ unless_stopped (f u 2) (λ u'. factor_loop f fuel (i / 2) u')
  unfolding factor_loop
  even_step fuel i u h e = let nz : (i == 0) ≡ false = ground arith in rw (factor_loop, nz, e)

  odd_step :
      (fuel i c : ℕ) (u : U)
      → i % 2 ≢ 0
      → odd_factor (i + 1) i 3 ≡ found c
      → factor_loop f (suc fuel) i u ≡ unless_stopped (f u c) (λ u'. factor_loop f fuel (i / c) u')
  unfolding factor_loop
  odd_step fuel i c u ne e =
      let nz : (i == 0) ≡ false = ground arith in
      let odd : (i % 2 == 0) ≡ false = ground arith in rw (factor_loop, nz, odd, e)

  factor_loop-Reports : (fuel lo i : ℕ) → 0 < i → i < fuel → NoDivisorBelow lo i → Reports fuel lo i
  factor_loop-Reports zero lo i h small nd = absurd (omega arith)
  factor_loop-Reports (suc fuel) lo i h small nd = elim (ℕ_discrete (i % 2) 0) [
    | yes even ↦
        Reports-cons fuel lo i 2 two-IsPrime (le_of_NoDivisorBelow lo i 2 nd (omega arith) even)
          even (λ u. even_step fuel i u h even)
          (factor_loop-Reports fuel 2 (i / 2) (omega arith) (omega arith)
            (λ d two lt e. omega arith))
    | no odd ↦ elim (ℕ_discrete i 1) [
      | yes one ↦ record {
        factors = [];
        multiply = sym one;
        ascend = tt;
        runs = λ u. rw one (factor_loop-past fuel u);
      }
      | no more ↦
          let (r, run, e, least, three) =
            odd_factor-found (i + 1) i 3 (omega arith) (omega arith) (omega arith) refl odd
              (no_divisor_three i odd) in
          Reports-cons fuel lo i r (least-IsPrime r i (omega arith) e least)
            (le_of_NoDivisorBelow lo i r nd (omega arith) e) e (λ u. odd_step fuel i r u odd run)
            (factor_loop-Reports fuel r (i / r) (quotient_pos i r h e)
              (omega (arith, Nat.div-lt_self {n = i} {k = r} h (omega arith)))
              (quotient-NoDivisorBelow r i r e least))
    ]
  ]

  -- For a positive `i`, `getprimefactors` terminates and reports the prime factors of `i` to the
  -- callback in ascending order, as often as they divide `i`, and stops when the callback says so:
  -- it returns 1 then, and 0 after the last factor.
  pub getprimefactors-report :
      (i : ℕ)
      → 0 < i
      → (ps : List ℕ) × (product ps ≡ i)
        × Ascends 2 ps
        × ((u : U) → getprimefactors f (pos i) u ≡ report f ps u)
  unfolding getprimefactors
  getprimefactors-report i h =
      let r = factor_loop-Reports (i + 1) 2 i h (omega arith) (λ d two lt e. omega arith) in
      (r.factors, r.multiply, r.ascend, r.runs)
