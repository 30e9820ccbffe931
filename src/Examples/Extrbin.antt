-- ===== src/Examples/Extrbin.antt =====
-- win32/cpp/extrbin.cpp on a short device.
use ltrdata.Prelude.{ℕ, ◌+◌, ◌≡◌, refl, false, List, [], ◌∷◌, done, length, arith}
use ltrdata.Filters.Console.{memory_console, memory_whole}
use ltrdata.Rawcopy.{same_bytes}
use ltrdata.Extrbin.{Search, extract}
use ltrdata.Extrbin.Saved.{Saves, extract-Saves}

-- Sectors of 4 bytes, blocks of 6.
abbrev small_blocks : Search
small_blocks = record {
  search_data = 0 ∷ 0 ∷ 1 ∷ 186 ∷ [];
  offset = 0;
  block_size = 6;
  sector_size = 4;
}

abbrev device : List ℕ
device = 1 ∷ 2 ∷ 3 ∷ 4 ∷ 0 ∷ 0 ∷ 1 ∷ 186 ∷ 7 ∷ 8 ∷ 5 ∷ 5 ∷ 5 ∷ 5 ∷ 0 ∷ 0 ∷ 1 ∷ 186 ∷ 9 ∷ []

abbrev unset : List ℕ
unset = 170 ∷ 170 ∷ 170 ∷ 170 ∷ 170 ∷ 170 ∷ []

extract-Saves_example :
    (w' : List ℕ × List ℕ) × (ys : List ℕ) × (extract memory_console
        (λ w. false)
        small_blocks
        20
        unset
        0
        (device, [])
      ≡ done (w', 0 + length ys))
    × (w'.1 ≡ ys)
    × Saves small_blocks device ys
extract-Saves_example =
    extract-Saves memory_whole (λ w. false) small_blocks 20 unset 0 (device, []) (λ w. refl)
      (omega arith) (omega arith) (omega arith) (omega arith)

-- The last block is cut off at the end of the device.
extract_run :
    extract memory_console (λ w. false) small_blocks 20 unset 0 (device, [])
    ≡ done (([], 0 ∷ 0 ∷ 1 ∷ 186 ∷ 7 ∷ 8 ∷ 0 ∷ 0 ∷ 1 ∷ 186 ∷ 9 ∷ []), 11)
unfolding extract same_bytes
extract_run = refl
