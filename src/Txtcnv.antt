-- ===== src/Txtcnv.antt =====
-- win32/cpp/txtcnv32.cpp: converts a text on the standard handles between code pages.
-- ReadFile and WriteFile are a `Console`, and the conversions of Windows a parameter. A character
-- of 16 bits is a number below 2 ^ 16.
pub mod Swapping
use ltrdata.Prelude.{
  ℕ, zero, suc, ◌+◌, ◌*◌, ◌/◌, ◌%◌, Bool, true, false, Option, none, some, List, [], ◌∷◌, Run, done,
  spin, map, ◌==◌, if◌then◌else◌,
}
use ltrdata.Filters.Console.{Console}

pub data Conversion : Type 0 where
  oem_to_char char_to_oem codec : Conversion

-- OemToCharBuff and CharToOemBuff on a buffer, and MultiByteToWideChar and WideCharToMultiByte for
-- a code page; no characters are a failure.
pub record CodePages : Type 0 where
  pub from_oem : List ℕ → List ℕ
  pub to_oem : List ℕ → List ℕ
  pub to_wide : (page : ℕ) → List ℕ → List ℕ
  pub from_wide : (page : ℕ) → List ℕ → List ℕ

pub record Settings : Type 0 where
  pub conv : Conversion
  pub decode_page : ℕ
  pub encode_page : ℕ
  pub byteswap : Bool

-- Bytes as characters of 16 bits, of which the last byte of an odd count is none, and back.
unfoldable pub wide_chars : List ℕ → List ℕ
wide_chars [] = []
wide_chars (a ∷ []) = []
wide_chars (a ∷ b ∷ bs) = (a + 256 * b) ∷ wide_chars bs

unfoldable pub wide_bytes : List ℕ → List ℕ
wide_bytes [] = []
wide_bytes (c ∷ cs) = (c % 256) ∷ (c / 256) ∷ wide_bytes cs

-- `_swab` on one character.
abbrev pub swab : ℕ → ℕ
swab c = c / 256 + 256 * (c % 256)

abbrev pub unless_empty : List ℕ → Option (List ℕ)
unless_empty [] = none
unless_empty (c ∷ cs) = some (c ∷ cs)

module _ (pages : CodePages) (o : Settings) where
  abbrev pub decoded : List ℕ → Option (List ℕ)
  decoded bs =
      if o.decode_page == 0
      then some (wide_chars bs)
      else unless_empty (pages.to_wide o.decode_page bs)

  abbrev pub swapped : List ℕ → List ℕ
  swapped cs = if o.byteswap then map swab cs else cs

  abbrev pub encoded : Option (List ℕ) → Option (List ℕ)
  encoded none = none
  encoded (some cs) =
      if o.encode_page == 0
      then some (wide_bytes (swapped cs))
      else unless_empty (pages.from_wide o.encode_page (swapped cs))

  -- A buffer that was read; `none` is `return -1`.
  abbrev pub converted : Conversion → List ℕ → Option (List ℕ)
  converted oem_to_char bs = some (pages.from_oem bs)
  converted char_to_oem bs = some (pages.to_oem bs)
  converted codec bs = encoded (decoded bs)

  module _ {W : Type 0} (console : Console W) (broken_pipe : W → Bool) where
    -- True is the exit status 0, and false -1. A write of less than all only gives a warning.
    abbrev pub after_converted_write : (W → Run (W × Bool)) → W × Option ℕ → Run (W × Bool)
    after_converted_write next (w, none) = done (w, false)
    after_converted_write next (w, some n) = next w

    abbrev pub write_converted : (W → Run (W × Bool)) → W → Option (List ℕ) → Run (W × Bool)
    write_converted next w none = done (w, false)
    write_converted next w (some bs) = after_converted_write next (console.write w bs)

    abbrev pub after_text_read : (W → Run (W × Bool)) → W × Option (List ℕ) → Run (W × Bool)
    after_text_read next (w, none) = done (w, broken_pipe w)
    after_text_read next (w, some []) = done (w, true)
    after_text_read next (w, some (b ∷ bs)) = write_converted next w (converted o.conv (b ∷ bs))

    unfoldable pub convert_stream : ℕ → W → Run (W × Bool)
    convert_stream zero w = spin
    convert_stream (suc fuel) w = after_text_read (convert_stream fuel) (console.read w 2048)
