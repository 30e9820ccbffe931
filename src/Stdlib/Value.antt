-- ===== src/Stdlib/Value.antt =====
-- The number that `%u` and `ultoa` print can be read back.
use ltrdata.Prelude.{
  ℕ, zero, suc, ◌+◌, ◌-◌, ◌*◌, ◌/◌, ◌%◌, ◌<◌, ◌≡◌, refl, inl, inr, List, [], ◌∷◌, ◌++◌, arith, ltb,
  Bool-cases,
}
use ltrdata.Stdlib.{print_digits, print_u}

-- The value of decimal digits behind the digits of `acc`.
unfoldable pub value : ℕ → List ℕ → ℕ
value acc [] = acc
value acc (c ∷ cs) = value (acc * 10 + (c - b'0')) cs

value-snoc :
    (acc : ℕ) (cs : List ℕ) (c : ℕ) → value acc (cs ++ c ∷ []) ≡ value acc cs * 10 + (c - b'0')
unfolding value
value-snoc acc [] c = refl
value-snoc acc (d ∷ cs) c = value-snoc (acc * 10 + (d - b'0')) cs c

value-print_digits : (fuel n : ℕ) → n < fuel → value 0 (print_digits fuel n) ≡ n
unfolding print_digits value
value-print_digits zero n h = absurd (omega arith)
value-print_digits (suc fuel) n h = elim (Bool-cases (ltb n 10)) [
  | inl small ↦ rw (print_digits, small) (omega arith)
  | inr large ↦
      let big : 10 - 1 < n = ground arith in
      let first = value-print_digits fuel (n / 10) (omega arith) in
      rw (print_digits, large, value-snoc 0 (print_digits fuel (n / 10)) (b'0' + n % 10), first)
        (omega arith)
]

pub value-print_u : (n : ℕ) → value 0 (print_u n) ≡ n
unfolding print_u
value-print_u n = value-print_digits (n + 1) n (omega arith)
