-- ===== src/Truncate.antt =====
-- win32/cpp/trunczerotail.cpp: cuts the zeros off the end of a file, in whole buffers.
-- The Windows calls are not part of the repository: `Calls` tells which of them succeed. The numbers
-- below 2^63 of the source are natural numbers here.
pub mod Scan
pub mod Size
pub mod Bits
use ltrdata.Prelude.{
  zeros, ℕ, zero, suc, ◌+◌, ◌-◌, ◌*◌, ◌/◌, ◌%◌, ◌^◌, Bool, true, false, ◌||◌, not, Option, none,
  some, List, [], ◌∷◌, ◌++◌, length, take, drop, ◌==◌, ltb, leb, if◌then◌else◌,
}

-- The suffix of the `-m` option: the shifts and products of a DWORD fall through to those below.
abbrev pub dword : ℕ → ℕ
dword n = n % 2 ^ 32

unfoldable pub scaled : ℕ → ℕ → Option ℕ
scaled bufsiz suffix =
    if suffix == b'G'
    then some (dword (bufsiz * 2 ^ 30))
    else if suffix == b'M'
    then some (dword (bufsiz * 2 ^ 20))
    else if suffix == b'K'
    then some (dword (bufsiz * 2 ^ 10))
    else if suffix == b'g'
    then some (dword (bufsiz * 10 ^ 9))
    else if suffix == b'm'
    then some (dword (bufsiz * 10 ^ 6))
    else if suffix == b'k'
    then some (dword (bufsiz * 10 ^ 3))
    else if suffix == 0
    then some bufsiz
    else none

-- `for (…; rembufsiz > 1; rembufsiz >>= 1) bufsizbits++;`
unfoldable pub size_bits : ℕ → ℕ → ℕ
size_bits zero rembufsiz = 0
size_bits (suc fuel) rembufsiz =
    let rest = size_bits fuel (rembufsiz / 2) in if ltb 1 rembufsiz then suc rest else 0

-- `(bufsiz & ~0x1FF) | 0x200`: 512 times a quotient with its lowest bit set.
abbrev pub rembufsiz : ℕ → ℕ
rembufsiz bufsiz = 512 * (bufsiz / 512 + 1 - bufsiz / 512 % 2)

-- `1 << bits`
abbrev pub shifted : ℕ → ℕ
shifted zero = 1
shifted (suc bits) = 2 * shifted bits

unfoldable pub buffer_size : ℕ → ℕ
unfolding size_bits
buffer_size bufsiz = shifted (size_bits 32 (rembufsiz bufsiz))

pub record Calls : Type 0 where
  pub seeks_to : ℕ → Bool
  pub reads_at : ℕ → Bool
  pub sets_end : Bool

-- `if (*bufptr2 != 0)` for some word, which is that some byte is not zero.
abbrev pub nonzero : List ℕ → Bool
nonzero [] = false
nonzero (b ∷ bs) = not (b == 0) || nonzero bs

-- The loop over the file ends with `current_out_pointer` and the file pointer, or with an error.
pub data Scanned : Type 0 where
  failed unending : Scanned
  stopped : (current pointer : ℕ) → Scanned

-- What the buffer holds after a read, and how much of it the loop over the words looks at.
abbrev pub filled : List ℕ → List ℕ → List ℕ
filled bytes buffer = bytes ++ drop (length bytes) buffer

abbrev pub whole_words : ℕ → ℕ
whole_words n = (n + 7) / 8 * 8

module _ (calls : Calls) (bufsiz : ℕ) (file : List ℕ) where
  unfoldable pub scan_loop : ℕ → ℕ → List ℕ → Scanned
  scan_loop zero current buffer = unending
  scan_loop (suc fuel) current buffer =
      let pos = current - bufsiz in
      let bytes = take bufsiz (drop pos file) in
      let rest = scan_loop fuel pos (filled bytes buffer) in
      if ltb current bufsiz
      then stopped current current
      else if not (calls.seeks_to pos)
      then failed
      else if not (calls.reads_at pos)
      then failed
      else if length bytes == 0
      then failed
      else if nonzero (take (whole_words (length bytes)) (filled bytes buffer))
      then stopped pos (pos + length bytes)
      else if not (calls.seeks_to pos)
      then failed
      else rest

  -- `SetFilePointer` from the end: the file's length, rounded up to whole buffers.
  abbrev pub start : ℕ
  start =
      let last_block_bytes = length file % bufsiz in
      length file + (if last_block_bytes == 0 then 0 else bufsiz - last_block_bytes)

  -- What follows the loop: the file, and whether the program returns 0.
  abbrev pub set_end : Scanned → List ℕ × Bool
  set_end failed = (file, false)
  set_end unending = (file, false)
  set_end (stopped current pointer) =
      if leb (length file) (current + bufsiz)
      then (file, true)
      else if calls.sets_end
      then (take pointer file, true)
      else (file, false)

  -- `main` on an open file, from the point on where its length is known.
  unfoldable pub truncate_tail : List ℕ × Bool
  truncate_tail =
      if calls.seeks_to start
      then set_end (scan_loop (length file + 2) start (zeros bufsiz))
      else (file, false)
