-- ===== src/Examples/Filters.antt =====
-- The console filters on a console in memory.
use ltrdata.Filters.Spell.{request, spell, write_spelled, spell_out}
use ltrdata.Filters.Spell.Laws.{respelled_all, spell_out-output}
use ltrdata.Prelude.Cut.{Cut}
use ltrdata.Prelude.{joined, Bool, leb, ℕ, ◌≡◌, refl, List, [], ◌∷◌, done, arith, map}
use ltrdata.Filters.Console.{after_read, memory_console, memory_reliable, memory_whole}
use ltrdata.Filters.Rot13.{buffer_size, rot13}
use ltrdata.Filters.Rot13.Laws.{rotated, rot13-output}
use ltrdata.Filters.Extract.{skipping, after_byte, after_put, extract_text}
use ltrdata.Filters.Extract.Laws.{lines, extract_text-lines}

abbrev text : List ℕ
text = b'H' ∷ b'i' ∷ 7 ∷ 10 ∷ b'z' ∷ []

rot13-output_example :
    (w' : List ℕ × List ℕ) × (rot13 memory_console 6 buffer_size (text, []) ≡ done (w', 0))
    × (w'.0 ≡ [])
    × (w'.1 ≡ map rotated text)
    × (map rotated (map rotated text) ≡ text)
unfolding memory_reliable
rot13-output_example =
    rot13-output memory_reliable 6 buffer_size (text, []) (omega arith) (omega arith)

extract_text-lines_example :
    (w' : List ℕ × List ℕ) × (extract_text memory_console 6 skipping (text, []) ≡ done (w', 0))
    × (w'.0 ≡ [])
    × (w'.1 ≡ lines skipping text)
unfolding memory_reliable
extract_text-lines_example = extract_text-lines memory_reliable 6 skipping (text, []) (omega arith)

extract_text_run :
    extract_text memory_console 6 skipping (text, [])
    ≡ done (([], b'H' ∷ b'i' ∷ b'\r' ∷ b'\n' ∷ b'z' ∷ []), 0)
unfolding extract_text after_byte after_put
extract_text_run = refl

abbrev is_lower : ℕ → Bool
is_lower c = leb b'a' c

-- Two letters of code page 850 in a short text.
abbrev swedish : List ℕ
swedish = 0x99 ∷ b'r' ∷ 0x86 ∷ []

spell_out-output_example :
    (w' : List ℕ × List ℕ) × (blocks : List (List ℕ)) × (spell_out is_lower memory_console 4
        (swedish, [])
      ≡ done (w', 0))
    × (w'.0 ≡ [])
    × (joined blocks ≡ swedish)
    × Cut request blocks
    × (w'.1 ≡ respelled_all is_lower blocks)
spell_out-output_example = spell_out-output is_lower refl memory_whole 4 (swedish, []) (omega arith)

spell_out_run :
    spell_out is_lower memory_console 4 (swedish, [])
    ≡ done (([], b'O' ∷ b'e' ∷ b'r' ∷ b'a' ∷ b'a' ∷ []), 0)
unfolding spell_out write_spelled spell after_read
spell_out_run = refl
