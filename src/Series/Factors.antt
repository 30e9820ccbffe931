-- ===== src/Series/Factors.antt =====
-- `primefactorexpress` of win32/cpp/primeser.cpp.
use mathlib.Core.Path.{subst}
use native.Mathlib.Nat
use ltrdata.Prelude.{
  ℕ, zero, suc, ◌+◌, ◌*◌, ◌/◌, ◌%◌, ◌^◌, ◌<◌, ◌≤◌, ◌≡◌, ◌≢◌, refl, sym, ap, ◌∙◌, inl, inr, Bool,
  true, false, not, List, [], ◌∷◌, ◌++◌, Run, done, trap, spin, ◌>>=◌, length, ◌==◌, ltb, if-cases,
  arith, length-append,
}
use ltrdata.Prelude.Int.{pos}
use ltrdata.Prelude.Splice.{splice, splice-splice, length-splice}
use ltrdata.Math.Factors.{Ascends, NoDivisorBelow, product, le_of_NoDivisorBelow, two-IsPrime}
use ltrdata.Series.{
  store, isprimeno, after_test, series_loop, halve_loop, after_halving, primefactorexpress,
}
use ltrdata.Series.Odd.{Primes, Primes-append, Primes-further}
use ltrdata.Series.Listed.{Room, two_cells, half_cells, store-splice, store_last-listed}
use ltrdata.Series.Walk.{Lists, Walked, isprimeno-Walked, isprimeno-Tested}

module _ (size n ptr low : ℕ) where
  -- The array is listed and the test of the number is done.
  last_Lists :
      (m series : List ℕ) (run : Run (List ℕ × Bool))
      → 3 ≤ n
      → length series < size
      → NoDivisorBelow low n
      → Room m ptr n
      → Walked n low n m ptr run
      → Lists low n m ptr
          (run >>= after_test size n ptr n series true (λ series m. done (m, true)))
          true
  last_Lists m series run three room_left none room (inl (true, (ps, e, multiply, ascend), less)) =
      absurd (omega (arith, less refl))
  last_Lists m series run three room_left none room (inl (false, (ps, e, multiply, ascend), less)) =
      (
        ps,
        ap (λ r. r >>= after_test size n ptr n series true (λ series m. done (m, true))) e,
        multiply,
        ascend,
      )
  last_Lists m series run three room_left none room (inr (e, no_divisor)) =
      let once : n * 1 ≡ n = omega arith in
      subst (λ r. Lists low n m ptr r true)
        (sym (ap (λ r. r >>= after_test size n ptr n series true (λ series m. done (m, true))) e))
        (if-cases (λ r. Lists low n m ptr r true) (not (ltb (length series) size))
          (λ over. absurd (ground arith))
          (λ fits. (
            n ∷ [],
            ap (λ r. r >>= λ m2. done (m2, true))
                (store_last-listed m ptr n (two_cells m ptr n (omega arith) room)),
            once,
            (
              record { two_le = omega arith; no_divisor = no_divisor },
              le_of_NoDivisorBelow low n n none (omega arith) (Nat.mod_self n),
              tt,
            ),
          )))

  series_loop-Lists :
      (left c : ℕ) (series m : List ℕ)
      → 3 ≤ n
      → n % 2 ≢ 0
      → NoDivisorBelow low n
      → Room m ptr n
      → c + 2 * left ≡ n
      → 3 ≤ c
      → Primes 3 series c
      → length series + left < size
      → Lists low n m ptr (series_loop size n ptr (suc left) c series m) true
  unfolding series_loop
  series_loop-Lists zero c series m three odd none room at from primes fits =
      let e : c ≡ n = omega arith in
      subst
        (λ x.
          Lists low n m ptr
            (isprimeno (x + 1) series true x ptr m
              >>= after_test size n ptr x series true (λ series m. done (m, true)))
            true)
        (sym e)
        (last_Lists m series (isprimeno (n + 1) series true n ptr m) three (omega arith) none room (
          isprimeno-Walked n series (n + 1) low n ptr m (subst (Primes 3 series) e primes)
            (omega arith) three odd (omega arith) none room))
  series_loop-Lists (suc left) c series m three odd none room at from primes fits =
      let more : (suc left == 0) ≡ false = ground arith in
      let c_odd : c % 2 ≢ 0 = omega arith in
      let next = series_loop size n ptr (suc left) (c + 2) in
      rw more (elim (isprimeno-Tested series (c + 1) c ptr m (omega arith) primes from c_odd) [
        | inl (e, prime) ↦
            subst (λ r. Lists low n m ptr r true)
              (sym (ap (λ r. r >>= after_test size n ptr c series false next) e))
              (if-cases (λ r. Lists low n m ptr r true) (not (ltb (length series) size))
                (λ over. absurd (ground arith))
                (λ inside.
                  series_loop-Lists left (c + 2) (series ++ (c ∷ [])) m three odd none room
                    (omega arith) (omega arith)
                    (Primes-append 3 c series from c_odd prime from primes)
                    (omega (arith, length-append series (c ∷ [])))))
        | inr (e, composite) ↦
            subst (λ r. Lists low n m ptr r true)
              (sym (ap (λ r. r >>= after_test size n ptr c series false next) e))
              (series_loop-Lists left (c + 2) series m three odd none room (omega arith)
                (omega arith) (Primes-further 3 c series from c_odd composite primes) (omega arith))
      ])

start_Lists :
    (half n ptr : ℕ) (m : List ℕ)
    → n / 2 ≡ half
    → 3 ≤ n
    → n % 2 ≢ 0
    → Room m ptr n
    → Lists 2 n m ptr (series_loop half n ptr half 3 [] m) true
start_Lists zero n ptr m e three odd room = absurd (omega arith)
start_Lists (suc left) n ptr m e three odd room =
    series_loop-Lists (suc left) n ptr 2 left 3 [] m three odd (λ d two lt z. omega arith) room
      (omega arith) (omega arith) (λ q prime from lt. omega arith) (omega arith)

one_cell : (m : List ℕ) (ptr n : ℕ) → 0 < n → Room m ptr n → ptr < length m
one_cell m ptr n full (zero, small, fits) = absurd (omega arith)
one_cell m ptr n full (suc k, small, fits) = omega arith

two-Lists :
    (n ptr : ℕ) (m : List ℕ) (next : List ℕ → Run (List ℕ × Bool))
    → ptr < length m
    → n % 2 ≡ 0
    → Lists 2 (n / 2) (splice m ptr (2 ∷ [])) (ptr + 1) (next (splice m ptr (2 ∷ []))) true
    → Lists 2 n m ptr (store m ptr 2 >>= next) true
two-Lists n ptr m next inside even (ps, run, multiply, ascend) =
    let twice : 2 * (n / 2) ≡ n = omega arith in
    (
      2 ∷ ps,
      ap (λ r. r >>= next) (store-splice m ptr 2 inside)
          ∙ run
          ∙ ap (λ x. done (x, true)) (splice-splice m ptr (2 ∷ []) (ps ++ (1 ∷ [])) (omega arith)),
      ap (◌*◌ 2) multiply ∙ twice,
      (two-IsPrime, omega arith, ascend),
    )

one-Lists :
    (n ptr : ℕ) (m : List ℕ)
    → n ≡ 1
    → ptr < length m
    → Lists 2 n m ptr (store m ptr 1 >>= λ m1. done (m1, true)) true
one-Lists n ptr m one inside =
    ([], ap (λ r. r >>= λ m1. done (m1, true)) (store-splice m ptr 1 inside), sym one, tt)

bind_assoc :
    {A B C : Type 0} (r : Run A) (f : A → Run B) (g : B → Run C)
    → (r >>= λ a. f a >>= g) ≡ (r >>= f >>= g)
bind_assoc (done a) f g = refl
bind_assoc trap f g = refl
bind_assoc spin f g = refl

-- The division by 2, and the odd number behind it.
halve_loop-Lists :
    (fuel n ptr : ℕ) (m : List ℕ)
    → 0 < n
    → n < fuel
    → Room m ptr n
    → Lists 2 n m ptr (halve_loop fuel n ptr m >>= after_halving true) true
unfolding halve_loop
halve_loop-Lists zero n ptr m full enough room = absurd (omega arith)
halve_loop-Lists (suc fuel) n ptr m full enough room =
    let inside = one_cell m ptr n full room in
    let len : length (splice m ptr (2 ∷ [])) ≡ length m =
      omega (arith, length-splice m ptr (2 ∷ []) (omega arith)) in
    if-cases (λ r. Lists 2 n m ptr (r >>= after_halving true) true) (n % 2 == 0)
      (λ even.
        subst (λ r. Lists 2 n m ptr r true) (bind_assoc (store m ptr 2) _ (after_halving true))
          (two-Lists n ptr m (λ m1. halve_loop fuel (n / 2) (ptr + 1) m1 >>= after_halving true)
            inside (ground arith)
            (halve_loop-Lists fuel (n / 2) (ptr + 1) (splice m ptr (2 ∷ [])) (ground arith)
              (ground arith)
              (half_cells m (splice m ptr (2 ∷ [])) ptr n (n / 2) len (ground arith) (ground arith)
                room))))
      (λ odd.
        if-cases (λ r. Lists 2 n m ptr r true) (ltb n 3)
          (λ small. one-Lists n ptr m (ground arith) inside)
          (λ more. start_Lists (n / 2) n ptr m refl (ground arith) (ground arith) room))

-- For a positive number below 2 ^ n, for an array of n cells or more, and if there is memory for
-- the series, `primefactorexpress` returns true and leaves the prime factors of the number, as often
-- as they divide it, in ascending order at the start of the array, with 1 behind them; it changes
-- nothing behind that and stays inside the array and the series.
pub primefactorexpress-lists :
    (m : List ℕ) (n : ℕ)
    → 0 < n
    → n < 2 ^ length m
    → (ps : List ℕ) × (primefactorexpress true m (pos n) ≡ done (splice m 0 (ps ++ (1 ∷ [])), true))
      × (product ps ≡ n)
      × Ascends 2 ps
unfolding primefactorexpress
primefactorexpress-lists m n full small =
    let room : Room m 0 n = (length m, small, omega arith) in
    if-cases (λ r. Lists 2 n m 0 r true) (ltb n 2)
      (λ one. one-Lists n 0 m (ground arith) (one_cell m 0 n full room))
      (λ more. halve_loop-Lists (n + 1) n 0 m full (omega arith) room)
