-- ===== src/Strip.antt =====
-- win32/c/stripcr.c: removes carriage returns, from standard input to standard output, or in a
-- file in place through two memory mappings of it.
-- This module has `convert`, which finds the runs between carriage returns and hands each to a
-- callback. A pointer into the buffer is an index, and NULL is `none`. The buffer is read through
-- the state, because in a file the callback writes to the bytes that `convert` reads.
pub mod Slices
pub mod Convert
pub mod Stream
pub mod InPlace
use ltrdata.Prelude.{
  ℕ, zero, suc, ◌+◌, ◌-◌, Bool, true, false, Option, none, some, List, [], ◌∷◌, ◌==◌, if◌then◌else◌,
}

-- `if (!sendfnc(…)) return FALSE;`, and what follows it.
abbrev pub on_success : {S : Type 0} → S × Bool → (S → S × Bool) → S × Bool
on_success (s, true) k = k s
on_success (s, false) k = (s, false)

-- `read s i` is the byte `buffer[i]`, and `send s i n` is `sendfnc(buffer + i, n)`.
module _ {S : Type 0} (read : S → ℕ → ℕ) (send : S → ℕ → ℕ → S × Bool) where
  -- The loop at `ptr` with `left` bytes to go.
  unfoldable pub convert_loop : ℕ → ℕ → Option ℕ → Option ℕ → S → S × Bool
  convert_loop zero ptr lastbegin none s = (s, true)
  convert_loop zero ptr lastbegin (some e) s = send s e (ptr - e)
  convert_loop (suc left) ptr lastbegin (some e) s = elim (read s ptr == b'\r') [
    | true ↦ on_success (send s e (ptr - e)) (λ s'. convert_loop left (ptr + 1) (some ptr) none s')
    | false ↦ convert_loop left (ptr + 1) lastbegin (some e) s
  ]
  convert_loop (suc left) ptr none none s =
      convert_loop left (ptr + 1) (if read s ptr == b'\r' then some ptr else none) none s
  convert_loop (suc left) ptr (some b) none s =
      convert_loop left (ptr + 1) (some b) (if read s ptr == b'\r' then none else some ptr) s

  unfoldable pub convert : ℕ → S → S × Bool
  unfolding convert_loop
  convert length s = convert_loop length 0 none (some 0) s

-- What the program is for: the bytes without the carriage returns.
abbrev pub strip : List ℕ → List ℕ
strip [] = []
strip (c ∷ cs) = if c == b'\r' then strip cs else c ∷ strip cs
