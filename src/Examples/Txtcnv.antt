-- ===== src/Examples/Txtcnv.antt =====
-- win32/cpp/txtcnv32.cpp on a short text.
use ltrdata.Prelude.{ℕ, ◌≡◌, refl, true, false, List, [], ◌∷◌, done, arith}
use ltrdata.Filters.Console.{memory_console, memory_whole}
use ltrdata.Txtcnv.{CodePages, wide_chars, wide_bytes, convert_stream}
use ltrdata.Txtcnv.Swapping.{swaps, swapping, convert_stream-twice}

-- Code pages that know no character.
abbrev no_pages : CodePages
no_pages = record {
  from_oem = λ bs. bs;
  to_oem = λ bs. bs;
  to_wide = λ page bs. [];
  from_wide = λ page cs. [];
}

abbrev big_endian : List ℕ
big_endian = 0 ∷ b'h' ∷ 0 ∷ b'i' ∷ []

convert_stream-twice_example :
    (w : List ℕ × List ℕ) × (convert_stream no_pages swapping memory_console
        (λ w. false)
        5
        (big_endian, [])
      ≡ done (w, true))
    × (w.1 ≡ swaps big_endian)
    × (v : List ℕ × List ℕ) × (convert_stream no_pages swapping memory_console
          (λ w. false)
          5
          (w.1, [])
        ≡ done (v, true))
    × (v.1 ≡ big_endian)
convert_stream-twice_example =
    convert_stream-twice memory_whole no_pages (λ w. false) (λ bs. (bs, [])) 5 big_endian
      (λ bs. (refl, refl)) ((omega arith, (omega arith, (omega arith, (omega arith, tt)))), refl)
      (omega arith)

-- Of an odd count the last byte is lost.
convert_stream_run :
    (convert_stream no_pages swapping memory_console (λ w. false) 5 (big_endian, [])
      ≡ done (([], b'h' ∷ 0 ∷ b'i' ∷ 0 ∷ []), true))
    × (convert_stream no_pages swapping memory_console (λ w. false) 5 (1 ∷ 2 ∷ 3 ∷ [], [])
        ≡ done (([], 2 ∷ 1 ∷ []), true))
unfolding convert_stream wide_chars wide_bytes
convert_stream_run = (refl, refl)
