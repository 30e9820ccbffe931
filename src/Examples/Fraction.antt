-- ===== src/Examples/Fraction.antt =====
-- win32/c/fraction.c on some lines.
use ltrdata.Prelude.{ℕ, ◌≡◌, refl, List, [], ◌∷◌, done, trap, ◌>>=◌, arith}
use ltrdata.Prelude.Int.{ℤ, pos}
use ltrdata.Math.{gcd}
use ltrdata.Stdlib.{strtoul_auto}
use ltrdata.Fraction.{at_stroke, to_int, cdiv, simplified, by_factor, cancel, by_line, fractions}
use ltrdata.Fraction.Cancelled.{Lowest, fractions-Lowest}

-- "12/18", and the end of the program.
abbrev twelve : List ℕ
twelve = b'1' ∷ b'2' ∷ []

abbrev eighteen : List ℕ
eighteen = b'1' ∷ b'8' ∷ []

abbrev line : List ℕ
line = b'1' ∷ b'2' ∷ b'/' ∷ b'1' ∷ b'8' ∷ []

fractions-Lowest_example :
    (a b f : ℤ) × (fractions (line ∷ [] ∷ [])
      ≡ (fractions ([] ∷ []) >>= λ answers. done (simplified a b f ∷ answers)))
    × Lowest (to_int (strtoul_auto twelve)) (to_int (strtoul_auto eighteen)) a b f
unfolding at_stroke strtoul_auto
fractions-Lowest_example =
    fractions-Lowest line twelve eighteen ([] ∷ []) refl (omega arith) (omega arith) (omega arith)

fractions_run : fractions (line ∷ [] ∷ []) ≡ done (simplified (pos 2) (pos 3) (pos 6) ∷ [])
unfolding fractions by_line cancel by_factor cdiv at_stroke strtoul_auto gcd
fractions_run = refl

-- A denominator of 0 is divided by.
cancel_run : cancel (pos 3) (pos 0) ≡ trap
unfolding cancel gcd
cancel_run = refl
