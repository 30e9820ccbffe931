-- ===== src/Examples/Truncate.antt =====
-- win32/cpp/trunczerotail.cpp on small files.
use ltrdata.Prelude.{ℕ, ◌≡◌, refl, true, false, List, [], ◌∷◌, ◌==◌, not, take, drop, arith}
use ltrdata.Truncate.{buffer_size, Calls, scan_loop, truncate_tail}
use ltrdata.Truncate.Scan.{Zero, truncate_tail-Zero}
use ltrdata.Truncate.Size.{faultless, Cuts, truncate_tail-Cuts}

buffer_size_run : buffer_size 1500 ≡ 1024
unfolding buffer_size
buffer_size_run = refl

-- Twenty bytes, of which the last six are zeros, in buffers of 8 bytes.
abbrev twenty : List ℕ
twenty = 1 ∷ 2 ∷ 3 ∷ 4 ∷ 5 ∷ 6 ∷ 7 ∷ 8 ∷ 9 ∷ 1 ∷ 2 ∷ 3 ∷ 4 ∷ 5 ∷ 0 ∷ 0 ∷ 0 ∷ 0 ∷ 0 ∷ 0 ∷ []

-- The read at the start of the second buffer fails.
abbrev second_fails : Calls
second_fails = record { seeks_to = λ pos. true; reads_at = λ pos. not (pos == 8); sets_end = true }

truncate_tail-Zero_example :
    (n : ℕ) × ((truncate_tail second_fails 8 twenty).0 ≡ take n twenty) × Zero (drop n twenty)
truncate_tail-Zero_example = truncate_tail-Zero second_fails 8 twenty

truncate_tail-Cuts_example :
    (n : ℕ) × (truncate_tail faultless 8 twenty ≡ (take n twenty, true))
    × Cuts 8 (omega arith) twenty n
    × Zero (drop n twenty)
truncate_tail-Cuts_example = truncate_tail-Cuts 8 (omega arith) twenty

truncate_tail_run :
    (truncate_tail faultless 8 twenty ≡ (take 16 twenty, true))
    × (truncate_tail second_fails 8 twenty ≡ (twenty, false))
unfolding truncate_tail scan_loop
truncate_tail_run = (refl, refl)
