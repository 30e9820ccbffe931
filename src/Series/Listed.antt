-- ===== src/Series/Listed.antt =====
-- The array of factors of win32/cpp/primeser.cpp, and the quotients behind a factor.
use native.Mathlib.Nat
use mathlib.Core.Path.{subst}
use ltrdata.Prelude.{
  ℕ, zero, suc, ◌+◌, ◌*◌, ◌/◌, ◌%◌, ◌^◌, ◌∣◌, ◌<◌, ◌≤◌, ◌≡◌, ◌≢◌, refl, sym, ap, ◌∙◌, List, [], ◌∷◌,
  ◌++◌, done, ◌>>=◌, length, ltb, if-cases, arith, length-append,
}
use ltrdata.Prelude.Splice.{splice, splice-splice, splice-over, length-splice}
use ltrdata.Math.Factors.{mod_trans}
use ltrdata.Series.{store, store_last}

-- The array with the factors at the pointer, and 1 behind them.
abbrev pub listed : List ℕ → ℕ → List ℕ → List ℕ
listed m ptr ps = splice m ptr (ps ++ (1 ∷ []))

pub store-splice :
    (m : List ℕ) (ptr v : ℕ) → ptr < length m → store m ptr v ≡ done (splice m ptr (v ∷ []))
store-splice m ptr v room =
    if-cases (λ r. r ≡ done (splice m ptr (v ∷ []))) (ltb ptr (length m)) (λ inside. refl)
      (λ outside. absurd (ground arith))

pub store_last-listed :
    (m : List ℕ) (ptr p : ℕ)
    → ptr + 1 < length m
    → store_last m ptr p ≡ done (listed m ptr (p ∷ []))
store_last-listed m ptr p room =
    let len : length (splice m ptr (p ∷ [])) ≡ length m =
      omega (arith, length-splice m ptr (p ∷ []) (omega arith)) in
    ap (λ r. r >>= λ m1. store m1 (ptr + 1) 1) (store-splice m ptr p (omega arith))
    ∙ store-splice (splice m ptr (p ∷ [])) (ptr + 1) 1 (omega (arith, len))
    ∙ ap done (splice-splice m ptr (p ∷ []) (1 ∷ []) (omega arith))

-- The factors of the quotient behind a factor.
pub listed-cons :
    (m : List ℕ) (ptr p : ℕ) (ps : List ℕ)
    → ptr ≤ length m
    → listed (listed m ptr (p ∷ [])) (ptr + 1) ps ≡ listed m ptr (p ∷ ps)
listed-cons m ptr p ps inside =
    let m1 = splice m ptr (p ∷ []) in
    let len = length-splice m ptr (p ∷ []) inside in
    ap (λ x. splice x (ptr + 1) (ps ++ (1 ∷ [])))
      (sym (splice-splice m ptr (p ∷ []) (1 ∷ []) inside))
    ∙ splice-over m1 (ptr + 1) (1 ∷ []) (ps ++ (1 ∷ [])) (omega (arith, len))
        (omega (arith, length-append ps (1 ∷ [])))
    ∙ splice-splice m ptr (p ∷ []) (ps ++ (1 ∷ [])) inside

-- Room for the factors of a number, for none of them is below 2.
abbrev pub Room : List ℕ → ℕ → ℕ → Type 0
Room m ptr n = (k : ℕ) × (n < 2 ^ k) × (ptr + k ≤ length m)

pub two_cells : (m : List ℕ) (ptr n : ℕ) → 2 ≤ n → Room m ptr n → ptr + 1 < length m
two_cells m ptr n two (zero, small, fits) = absurd (omega arith)
two_cells m ptr n two (suc zero, small, fits) = absurd (omega arith)
two_cells m ptr n two (suc (suc k), small, fits) = omega arith

pub half_cells :
    (m m' : List ℕ) (ptr n q : ℕ)
    → length m' ≡ length m
    → 2 * q ≤ n
    → 2 ≤ n
    → Room m ptr n
    → Room m' (ptr + 1) q
half_cells m m' ptr n q same half two (zero, small, fits) = absurd (omega arith)
half_cells m m' ptr n q same half two (suc k, small, fits) =
    (k, (let twice : 2 ^ suc k ≡ 2 ^ k * 2 = Nat.pow-suc 2 k in omega (arith, twice)), omega arith)

pub record Quotient (n p : ℕ) : Type 0 where
  pub divides : n % p ≡ 0
  pub two_le : 2 ≤ n / p
  pub half : 2 * (n / p) ≤ n
  pub odd : n / p % 2 ≢ 0

zero_times : (p n : ℕ) → 3 ≤ n → 0 * p ≡ n → ⊥
zero_times p n three e = omega arith

one_times : (p : ℕ) → 1 * p ≡ p
one_times p = omega arith

pub exact-Quotient : (n p : ℕ) → 2 ≤ p → 3 ≤ n → n % 2 ≢ 0 → n ≢ p → n / p * p ≡ n → Quotient n p
exact-Quotient n p two three odd other exact =
    let by_quotient : n % (n / p) ≡ 0 =
      Nat.mod-eq-zero_of_dvd (n / p) (subst (λ x. n / p ∣ x) exact (Nat.dvd-mul_right (n / p) p)) in
    let some_quotient : n / p ≢ 0 = λ e. zero_times p n three (ap (λ q. q * p) (sym e) ∙ exact) in
    let not_one : n / p ≢ 1 = λ e. other (sym (ap (λ q. q * p) (sym e) ∙ exact) ∙ one_times p) in
    record {
      divides = omega (arith, Nat.div-add-mod n p, exact);
      two_le = omega arith;
      half = (let twice = Nat.mul-le-mul_left (n / p) two in omega (arith, twice, exact));
      odd = λ e. odd (mod_trans 2 (n / p) n by_quotient e);
    }

pub exact_lem : (n p : ℕ) → n / p * p ≡ n → n % p ≡ 0
exact_lem n p e = omega (arith, Nat.div-add-mod n p, e)

pub inexact_lem : (n p : ℕ) → n / p * p ≢ n → n % p ≢ 0
inexact_lem n p ne e = ne (omega (arith, Nat.div-add-mod n p, e))
