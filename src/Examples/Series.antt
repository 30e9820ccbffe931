-- ===== src/Examples/Series.antt =====
-- win32/cpp/primeser.cpp on small numbers.
use ltrdata.Prelude.{ℕ, ◌≡◌, refl, true, false, List, [], ◌∷◌, ◌++◌, done, trap, arith}
use ltrdata.Prelude.Int.{pos, negsuc}
use ltrdata.Prelude.Splice.{splice}
use ltrdata.Math.Factors.{product, Ascends}
use ltrdata.Series.{seek, isprimeno, series_loop, halve_loop, primefactorexpress}
use ltrdata.Series.Factors.{primefactorexpress-lists}

abbrev seven_cells : List ℕ
seven_cells = 9 ∷ 9 ∷ 9 ∷ 9 ∷ 9 ∷ 9 ∷ 9 ∷ []

primefactorexpress-lists_example :
    (ps : List ℕ) × (primefactorexpress true seven_cells (pos 90)
      ≡ done (splice seven_cells 0 (ps ++ (1 ∷ [])), true))
    × (product ps ≡ 90)
    × Ascends 2 ps
primefactorexpress-lists_example =
    primefactorexpress-lists seven_cells 90 (omega arith) (omega arith)

-- With factors, with an array that is too short, without memory for the series, and below 2.
primefactorexpress_run :
    (primefactorexpress true seven_cells (pos 90) ≡ done (2 ∷ 3 ∷ 3 ∷ 5 ∷ 1 ∷ 9 ∷ 9 ∷ [], true))
    × (primefactorexpress true (9 ∷ 9 ∷ []) (pos 90) ≡ trap)
    × (primefactorexpress false (9 ∷ 9 ∷ []) (pos 6) ≡ done (2 ∷ 9 ∷ [], false))
    × (primefactorexpress true (9 ∷ 9 ∷ []) (negsuc 5) ≡ done (1 ∷ 9 ∷ [], true))
unfolding primefactorexpress halve_loop series_loop isprimeno seek splice
primefactorexpress_run = (refl, refl, refl, refl)
