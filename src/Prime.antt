-- ===== src/Prime.antt =====
-- win32/c/primtal.c: prints the prime factors of the numbers that are typed in.
-- Standard output is the text printed so far, without the question before each number.
use mathlib.Core.List.{append-nil, append_assoc}
use ltrdata.Prelude.{
  ℕ, zero, suc, arith, ◌≡◌, ◌<◌, sym, ap, ◌∙◌, Bool, true, false, List, [], ◌∷◌, ◌++◌, Run, done,
  ◌>>=◌, if◌then◌else◌,
}
use ltrdata.Prelude.Int.{ℤ, pos, negsuc}
use ltrdata.Stdlib.{print_u}
use ltrdata.Math.{getprimefactors}
use ltrdata.Math.Factors.{product, Ascends, report, getprimefactors-report}

abbrev pub times : List ℕ
times = b' ' ∷ b'*' ∷ b' ' ∷ []

-- The callback. The state is the output and `factorprinted`.
unfoldable pub printfactor : List ℕ × Bool → ℕ → (List ℕ × Bool) × Bool
printfactor (out, printed) f =
    ((out ++ ((if printed then times else []) ++ print_u f), true), false)

abbrev pub equals_line : ℕ → List ℕ
equals_line m = b' ' ∷ b'=' ∷ b' ' ∷ (print_u m ++ b'\n' ∷ [])

-- The loop of `main` on the numbers that `scanf` reads. The end of the list stops it too.
unfoldable pub primtal : List ℤ → List ℕ → Run (List ℕ)
primtal [] out = done out
primtal (negsuc m ∷ ms) out = done out
primtal (pos zero ∷ ms) out = done out
primtal (pos (suc m) ∷ ms) out =
    getprimefactors printfactor (pos (suc m)) (out, false)
    >>= (λ r. primtal ms (r.1.0 ++ equals_line (suc m)))

-- The factors with " * " between them, or in front of each.
abbrev pub starred : Bool → List ℕ → List ℕ
starred printed [] = []
starred printed (p ∷ ps) = ((if printed then times else []) ++ print_u p) ++ starred true ps

report-starred :
    (ps out : List ℕ) (printed : Bool)
    → (b : Bool) × (report printfactor ps (out, printed)
        ≡ done (pos 0, (out ++ starred printed ps, b)))
unfolding printfactor
report-starred [] out printed =
    (printed, ap (λ l. done (pos 0, (l, printed))) (sym (append-nil out)))
report-starred (p ∷ ps) out printed =
    let text : List ℕ = (if printed then times else []) ++ print_u p in
    let (b, run) = report-starred ps (out ++ text) true in
    (b, run ∙ ap (λ l. done (pos 0, (l, b))) (append_assoc out text (starred true ps)))

-- For a positive number the program prints a line with its prime factors in ascending order, with
-- " * " between them and the number behind " = ", and goes on to the next number.
pub primtal-starred :
    (m : ℕ) (ms : List ℤ) (out : List ℕ)
    → 0 < m
    → (ps : List ℕ) × (product ps ≡ m)
      × Ascends 2 ps
      × (primtal (pos m ∷ ms) out ≡ primtal ms ((out ++ starred false ps) ++ equals_line m))
unfolding primtal
primtal-starred zero ms out positive = absurd (omega arith)
primtal-starred (suc m) ms out positive =
    let (ps, multiply, ascend, runs) = getprimefactors-report printfactor (suc m) positive in
    let (b, run) = report-starred ps out false in
    (ps, multiply, ascend, rw (primtal, runs (out, false), run))
