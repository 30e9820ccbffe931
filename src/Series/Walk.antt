-- ===== src/Series/Walk.antt =====
-- `isprimeno` of win32/cpp/primeser.cpp on a series of all odd primes below `hi`.
use native.Mathlib.Nat
use mathlib.Core.Path.{subst}
use mathlib.Core.Bool.{true≢false}
use ltrdata.Prelude.{
  ℕ, zero, suc, ◌+◌, ◌*◌, ◌/◌, ◌%◌, ◌<◌, ◌≤◌, ◌≡◌, ◌≢◌, refl, sym, ap, ◌∙◌, ◌⊎◌, inl, inr, Bool,
  true, false, List, [], ◌∷◌, Run, done, ◌>>=◌, length, ◌==◌, ==_iff, if-cases, arith,
}
use ltrdata.Prelude.Splice.{length-splice}
use ltrdata.Math.Factors.{
  IsPrime, Ascends, NoDivisorBelow, product, quotient-NoDivisorBelow, le_of_NoDivisorBelow, div-mul,
  no_divisor_three,
}
use ltrdata.Series.{store_last, divided, seek, isprimeno}
use ltrdata.Series.Odd.{Primes, Gap-NoDivisorBelow, Primes-skip}
use ltrdata.Series.Listed.{
  listed, Room, two_cells, half_cells, store_last-listed, listed-cons, Quotient, exact-Quotient,
  exact_lem, inexact_lem,
}

-- The prime factors of `n` from `low` on are at the pointer.
abbrev pub Lists : (low n : ℕ) → List ℕ → ℕ → Run (List ℕ × Bool) → Bool → Type 0
Lists low n m ptr run prime =
    (ps : List ℕ) × (run ≡ done (listed m ptr ps, prime)) × (product ps ≡ n) × Ascends low ps

-- What a verbose call does: it lists the factors, or finds no divisor.
abbrev pub Walked : (hi low n : ℕ) → List ℕ → ℕ → Run (List ℕ × Bool) → Type 0
Walked hi low n m ptr run =
    ((prime : Bool) × Lists low n m ptr run prime × (prime ≡ true → n < hi))
    ⊎ ((run ≡ done (m, true)) × NoDivisorBelow hi n)

-- The nested call lists the factors of a smaller number.
abbrev Nested : (again : ℕ → ℕ → List ℕ → Run (List ℕ × Bool)) → ℕ → Type 0
Nested again n =
    (q low ptr : ℕ) (m : List ℕ)
    → 2 ≤ q
    → q < n
    → q % 2 ≢ 0
    → NoDivisorBelow low q
    → Room m ptr q
    → (prime : Bool) × Lists low q m ptr (again q ptr m) prime

divided-Walked :
    (again : ℕ → ℕ → List ℕ → Run (List ℕ × Bool)) (hi low n ptr p : ℕ) (m : List ℕ)
    → IsPrime p
    → NoDivisorBelow p n
    → NoDivisorBelow low n
    → Quotient n p
    → Room m ptr n
    → 3 ≤ n
    → Nested again n
    → Walked hi low n m ptr (divided again true n ptr p m)
divided-Walked again hi low n ptr p m prime none below quotient room three nested =
    let one = listed m ptr (p ∷ []) in
    let inside : ptr + 1 < length m = two_cells m ptr n (omega arith) room in
    let len : length one ≡ length m =
      omega (arith, length-splice m ptr (p ∷ 1 ∷ []) (omega arith)) in
    let (_, (ps, run, multiply, ascend)) =
      nested (n / p) p (ptr + 1) one quotient.two_le (omega (arith, quotient.half, quotient.two_le))
        quotient.odd (quotient-NoDivisorBelow p n p quotient.divides none)
        (half_cells m one ptr n (n / p) len quotient.half (omega arith) room) in
    inl (
      false,
      (
        p ∷ ps,
        ap (λ r. r >>= λ m2. again (n / p) (ptr + 1) m2 >>= λ (m3, _). done (m3, false))
              (store_last-listed m ptr p inside)
            ∙ ap (λ r. r >>= λ (m3, _). done (m3, false)) run
            ∙ ap (λ x. done (x, false)) (listed-cons m ptr p ps (omega arith)),
        ap (◌*◌ p) multiply ∙ div-mul n p quotient.divides,
        (prime, le_of_NoDivisorBelow low n p below prime.two_le quotient.divides, ascend),
      ),
      λ e. absurd (true≢false (sym e)),
    )

hit-Walked :
    (again : ℕ → ℕ → List ℕ → Run (List ℕ × Bool)) (hi low n ptr p : ℕ) (m : List ℕ)
    → IsPrime p
    → p < hi
    → NoDivisorBelow low n
    → n ≡ p
    → Room m ptr n
    → 3 ≤ n
    → Walked hi low n m ptr (store_last m ptr p >>= λ m2. done (m2, true))
hit-Walked again hi low n ptr p m prime below none same room three =
    let itself : n % p ≡ 0 = subst (λ x. n % x ≡ 0) same (Nat.mod_self n) in
    let once : p * 1 ≡ n = omega (arith, same) in
    inl (
      true,
      (
        p ∷ [],
        ap (λ r. r >>= λ m2. done (m2, true))
            (store_last-listed m ptr p (two_cells m ptr n (omega arith) room)),
        once,
        (prime, le_of_NoDivisorBelow low n p none prime.two_le itself, tt),
      ),
      λ e. omega (arith, same),
    )

seek-Walked :
    (again : ℕ → ℕ → List ℕ → Run (List ℕ × Bool)) (hi low n ptr lo : ℕ) (series m : List ℕ)
    → 3 ≤ n
    → n % 2 ≢ 0
    → n ≤ hi
    → Primes lo series hi
    → NoDivisorBelow lo n
    → NoDivisorBelow low n
    → Room m ptr n
    → Nested again n
    → Walked hi low n m ptr (seek again true n ptr series m)
unfolding seek
seek-Walked again hi low n ptr lo [] m three odd le gap none below room nested =
    inr (refl, Gap-NoDivisorBelow lo hi n gap none)
seek-Walked again hi low n ptr lo (p ∷ left) m three odd le (prime, from, under, gap, more) none
      below room nested =
    if-cases (Walked hi low n m ptr) (n == p)
      (λ same. hit-Walked again hi low n ptr p m prime under below ((==_iff n p).0 same) room three)
      (λ other.
        if-cases (Walked hi low n m ptr) (n / p * p == n)
          (λ exact.
            divided-Walked again hi low n ptr p m prime (Gap-NoDivisorBelow lo p n gap none) below
              (exact-Quotient n p prime.two_le three odd (ground arith) (ground arith)) room three
              nested)
          (λ inexact.
            seek-Walked again hi low n ptr (p + 1) left m three odd le more
              (Primes-skip lo hi n p left (prime, from, under, gap, more) none
                (inexact_lem n p (ground arith)))
              below room nested))

pub isprimeno-Walked :
    (hi : ℕ) (series : List ℕ) (fuel low n ptr : ℕ) (m : List ℕ)
    → Primes 3 series hi
    → n < fuel
    → 3 ≤ n
    → n % 2 ≢ 0
    → n ≤ hi
    → NoDivisorBelow low n
    → Room m ptr n
    → Walked hi low n m ptr (isprimeno fuel series true n ptr m)
unfolding isprimeno
isprimeno-Walked hi series zero low n ptr m primes enough three odd le below room =
    absurd (omega arith)
isprimeno-Walked hi series (suc fuel) low n ptr m primes enough three odd le below room =
    seek-Walked (isprimeno fuel series true) hi low n ptr 3 series m three odd le primes
      (no_divisor_three n odd) below room
      (λ q low' ptr' m' two less q_odd q_below q_room.
        elim (isprimeno-Walked hi series fuel low' q ptr' m' primes (omega arith) (omega arith)
          q_odd (omega arith) q_below q_room) [
            | inl (prime, lists, _) ↦ (prime, lists)
            | inr (_, none) ↦ absurd (none q two (omega arith) (Nat.mod_self q))
          ])

-- A call that is not verbose tests whether the number is prime, and stores nothing.
abbrev pub Tested : ℕ → List ℕ → Run (List ℕ × Bool) → Type 0
Tested n m run = ((run ≡ done (m, true)) × IsPrime n) ⊎ ((run ≡ done (m, false)) × (IsPrime n → ⊥))

seek-Tested :
    (again : ℕ → ℕ → List ℕ → Run (List ℕ × Bool)) (n ptr lo : ℕ) (series m : List ℕ)
    → 3 ≤ n
    → Primes lo series n
    → NoDivisorBelow lo n
    → Tested n m (seek again false n ptr series m)
unfolding seek
seek-Tested again n ptr lo [] m three gap none =
    inl (refl, record { two_le = omega arith; no_divisor = Gap-NoDivisorBelow lo n n gap none })
seek-Tested again n ptr lo (p ∷ left) m three (prime, from, under, gap, more) none =
    if-cases (Tested n m) (n == p) (λ same. absurd (ground arith))
      (λ other.
        if-cases (Tested n m) (n / p * p == n)
          (λ exact. inr (
            refl,
            λ n_prime. n_prime.no_divisor p prime.two_le under (exact_lem n p (ground arith)),
          ))
          (λ inexact. seek-Tested again n ptr (p + 1) left m three more (
            Primes-skip lo n n p left (prime, from, under, gap, more) none
              (inexact_lem n p (ground arith)))))

pub isprimeno-Tested :
    (series : List ℕ) (fuel n ptr : ℕ) (m : List ℕ)
    → 0 < fuel
    → Primes 3 series n
    → 3 ≤ n
    → n % 2 ≢ 0
    → Tested n m (isprimeno fuel series false n ptr m)
unfolding isprimeno
isprimeno-Tested series zero n ptr m enough primes three odd = absurd (omega arith)
isprimeno-Tested series (suc fuel) n ptr m enough primes three odd =
    seek-Tested (isprimeno fuel series false) n ptr 3 series m three primes (no_divisor_three n odd)
