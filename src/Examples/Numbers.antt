-- ===== src/Examples/Numbers.antt =====
-- win32/c/wimath.c and win32/c/personnr.c on concrete numbers.
use ltrdata.Prelude.{
  ◌++◌, ℕ, ◌%◌, ◌+◌, ◌≡◌, ◌↔◌, refl, Bool, true, false, List, [], ◌∷◌, done, arith, ltb, All,
}
use ltrdata.Prelude.Int.{ℤ, pos, negsuc, mag}
use ltrdata.Math.{gcd, getprimefactors}
use ltrdata.Math.Gcd.{IsGcd, gcd-IsGcd}
use ltrdata.Math.Factors.{product, Ascends, report, getprimefactors-report}
use ltrdata.Stdlib.{print_u}
use ltrdata.Prime.{printfactor, starred, equals_line, primtal, primtal-starred}
use ltrdata.Personnr.{Verdict, correct, kind_of, personnr}
use ltrdata.Personnr.Luhn.{IsFigure, luhn_from, personnr-luhn}

gcd-IsGcd_example : (g : ℤ) × (gcd (pos 12) (negsuc 17) ≡ done g) × IsGcd 12 18 (mag g)
gcd-IsGcd_example = gcd-IsGcd (pos 12) (negsuc 17) (omega arith) (omega arith) (omega arith)

gcd_run : gcd (pos 12) (negsuc 17) ≡ done (negsuc 5)
unfolding gcd
gcd_run = refl

abbrev collect : List ℕ → ℕ → List ℕ × Bool
collect seen p = (p ∷ seen, false)

getprimefactors-report_example :
    (ps : List ℕ) × (product ps ≡ 60)
    × Ascends 2 ps
    × ((u : List ℕ) → getprimefactors collect (pos 60) u ≡ report collect ps u)
getprimefactors-report_example = getprimefactors-report collect 60 (omega arith)

getprimefactors_run : getprimefactors collect (pos 60) [] ≡ done (pos 0, 5 ∷ 3 ∷ 2 ∷ 2 ∷ [])
unfolding getprimefactors
getprimefactors_run = refl

abbrev any_date : ℕ → ℕ → ℕ → Bool
any_date year month day = true

abbrev figures : List ℕ
figures = 8 ∷ 1 ∷ 1 ∷ 2 ∷ 1 ∷ 8 ∷ 9 ∷ 8 ∷ 7 ∷ []

figures_lem : All IsFigure figures
figures_lem = (
  omega arith,
  (
    omega arith,
    (
      omega arith,
      (omega arith, (omega arith, (omega arith, (omega arith, (omega arith, (omega arith, tt)))))),
    ),
  ),
)

personnr-luhn_example :
    (v : Verdict) × (personnr any_date
        (b'8' ∷ b'1' ∷ b'1' ∷ b'2' ∷ b'1' ∷ b'8' ∷ b'9' ∷ b'8' ∷ b'7' ∷ b'6' ∷ [])
      ≡ done (
        kind_of any_date (b'8' ∷ b'1' ∷ b'1' ∷ b'2' ∷ b'1' ∷ b'8' ∷ b'9' ∷ b'8' ∷ b'7' ∷ b'6' ∷ []),
        v,
      ))
    × ((v ≡ correct) ↔ ((luhn_from 0 figures + 6) % 10 ≡ 0))
personnr-luhn_example = personnr-luhn any_date figures 6 refl figures_lem (omega arith) refl

abbrev low_figures : List ℕ
low_figures = 4 ∷ 1 ∷ 1 ∷ 2 ∷ 1 ∷ 8 ∷ 0 ∷ 8 ∷ 2 ∷ []

low_figures_lem : All IsFigure low_figures
low_figures_lem = (
  omega arith,
  (
    omega arith,
    (
      omega arith,
      (omega arith, (omega arith, (omega arith, (omega arith, (omega arith, (omega arith, tt)))))),
    ),
  ),
)

abbrev calendar : ℕ → ℕ → ℕ → Bool
calendar year month day = ltb 0 month

primtal-starred_example :
    (ps : List ℕ) × (product ps ≡ 12)
    × Ascends 2 ps
    × (primtal (pos 12 ∷ pos 0 ∷ []) []
        ≡ primtal (pos 0 ∷ []) (([] ++ starred false ps) ++ equals_line 12))
primtal-starred_example = primtal-starred 12 (pos 0 ∷ []) [] (omega arith)

-- 2 * 2 * 3 = 12
primtal_run :
    primtal (pos 12 ∷ []) []
    ≡ done (
        b'2' ∷ b' ' ∷ b'*' ∷ b' ' ∷ b'2' ∷ b' ' ∷ b'*' ∷ b' ' ∷ b'3' ∷ b' ' ∷ b'=' ∷ b' ' ∷ b'1'
        ∷ b'2' ∷ b'\n' ∷ [])
unfolding primtal getprimefactors printfactor print_u
primtal_run = refl
