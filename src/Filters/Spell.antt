-- ===== src/Filters/Spell.antt =====
-- win32/c/aaofiltr.c: spells the Swedish letters of code page 850 out. `IsCharLower` is not part of
-- the repository: `is_lower` is its result.
pub mod Laws
use ltrdata.Prelude.{ℕ, zero, suc, Bool, List, [], ◌∷◌, Run, spin, get_or, ◌==◌, if◌then◌else◌}
use ltrdata.Filters.Console.{Console, after_read}

-- `sizeof(buffer) - 1`
abbrev pub request : ℕ
request = 260

-- The characters of a buffer before its NUL.
abbrev pub c_string : List ℕ → List ℕ
c_string [] = []
c_string (c ∷ cs) = if c == 0 then [] else c ∷ c_string cs

module _ (is_lower : ℕ → Bool) where
  -- The `switch` on a character, with the one behind it.
  unfoldable pub spell : ℕ → ℕ → List ℕ
  spell c next =
      if c == 0x86
      then b'a' ∷ b'a' ∷ []
      else if c == 0x84
      then b'a' ∷ b'e' ∷ []
      else if c == 0x94
      then b'o' ∷ b'e' ∷ []
      else if c == 0x8f
      then b'A' ∷ (if is_lower next then b'a' else b'A') ∷ []
      else if c == 0x8e
      then b'A' ∷ (if is_lower next then b'e' else b'E') ∷ []
      else if c == 0x99
      then b'O' ∷ (if is_lower next then b'e' else b'E') ∷ []
      else c ∷ []

  module _ {W : Type 0} (console : Console W) where
    -- The loop over the characters. The results of the writes are not looked at.
    unfoldable pub write_spelled : List ℕ → W → W
    write_spelled [] w = w
    write_spelled (c ∷ cs) w = write_spelled cs (console.write w (spell c (get_or cs 0 0))).0

    -- `main`: every way out of the loop leads to exit status 0.
    unfoldable pub spell_out : ℕ → W → Run (W × ℕ)
    spell_out zero w = spin
    spell_out (suc fuel) w =
        after_read 0 (console.read w request)
          (λ w' bytes. spell_out fuel (write_spelled (c_string bytes) w'))
