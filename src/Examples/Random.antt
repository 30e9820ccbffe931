-- ===== src/Examples/Random.antt =====
-- win32/c/genpwds.c and win32/c/lotto.c with the numbers 0, 1, 2 and so on for `rand`.
use ltrdata.Prelude.{ℕ, ◌+◌, ◌-◌, ◌%◌, ◌≡◌, refl, ap, List, [], ◌∷◌, All, length, done, arith}
use ltrdata.Stdlib.{strtoul_auto}
use ltrdata.Random.{
  draw, contains, rare_vowels, letter, next_letter, letters, passwords, marks, lottery, passwds,
  genpwds,
}
use ltrdata.Random.Passwords.{Pronounceable, Varied, spaced, genpwds-Pronounceable}

abbrev counting : ℕ → ℕ
counting n = n

-- The letter B comes in every 26 letters.
counting-Varied : Varied counting 26
unfolding contains
counting-Varied n =
    let i : ℕ = (27 - n % 26) % 26 in
    let is : letter counting 26 (n + i) ≡ b'B' = omega arith in
    (i, omega arith, ap (contains rare_vowels) is)

genpwds-Pronounceable_example :
    (ps : List (List ℕ)) × (genpwds counting 26 ((b'2' ∷ []) ∷ []) ≡ done (spaced ps))
    × (length ps ≡ passwds ((b'2' ∷ []) ∷ []))
    × All Pronounceable ps
unfolding strtoul_auto
genpwds-Pronounceable_example =
    genpwds-Pronounceable counting 26 counting-Varied ((b'2' ∷ []) ∷ []) (omega arith)

-- "ABDE    FGHI    ", and the numbers from 6 to 12.
passwords_run :
    passwords counting 26 2 0
    ≡ done (
      b'A' ∷ b'B' ∷ b'D' ∷ b'E' ∷ b' ' ∷ b' ' ∷ b' ' ∷ b' ' ∷ b'F' ∷ b'G' ∷ b'H' ∷ b'I' ∷ b' '
          ∷ b' ' ∷ b' ' ∷ b' ' ∷ [],
      9,
    )
unfolding passwords letters next_letter draw contains
passwords_run = refl

lottery_run : lottery counting 39 5 ≡ done (6 ∷ 7 ∷ 8 ∷ 9 ∷ 10 ∷ 11 ∷ 12 ∷ [], 12)
unfolding lottery marks draw
lottery_run = refl
