-- ===== src/Stdlib/Decimal.antt =====
-- The last character that `%u` prints.
use ltrdata.Prelude.{
  ℕ, zero, suc, ◌+◌, ◌-◌, ◌/◌, ◌%◌, ◌<◌, ◌≡◌, inl, inr, List, [], ◌∷◌, ◌++◌, arith, length, get_or,
  length-append, get_or-append_right, ltb, Bool-cases,
}
use ltrdata.Stdlib.{print_digits, print_u}

get_or-snoc : (xs : List ℕ) (y : ℕ) → get_or (xs ++ y ∷ []) (length (xs ++ y ∷ []) - 1) 0 ≡ y
get_or-snoc xs y =
    let e : length (xs ++ y ∷ []) - 1 ≡ length xs = omega (arith, length-append xs (y ∷ [])) in
    let z : length xs - length xs ≡ 0 = omega arith in
    rw (e, get_or-append_right xs (y ∷ []) (length xs) 0 (omega arith), z)

last_digit :
    (fuel n : ℕ)
    → n < fuel
    → get_or (print_digits fuel n) (length (print_digits fuel n) - 1) 0 ≡ b'0' + n % 10
unfolding print_digits
last_digit zero n h = absurd (omega arith)
last_digit (suc fuel) n h = elim (Bool-cases (ltb n 10)) [
  | inl small ↦ rw (print_digits, small) (let b : n < 10 = ground arith in omega arith)
  | inr large ↦ rw (print_digits, large) (get_or-snoc (print_digits fuel (n / 10)) _)
]

-- The last character of a number in decimal is its last digit.
pub print_u_last : (n : ℕ) → get_or (print_u n) (length (print_u n) - 1) 0 ≡ b'0' + n % 10
unfolding print_u
print_u_last n = last_digit (n + 1) n (omega arith)
