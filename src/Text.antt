-- ===== src/Text.antt =====
-- The string helpers: win32/c/wmemstr.c, win32/c/wmemwcs.c, win32/c/olofstr.c (the same code as
-- win32/c/wstring.c) and posix/strlwr.c. A string is the list of its characters before the NUL.
pub mod Search
pub mod Trim
pub mod Lower
use ltrdata.Prelude.{
  ℕ, zero, suc, ◌+◌, ◌-◌, Bool, true, false, ◌&&◌, Option, none, some, List, [], ◌∷◌, map, Run,
  done, trap, ◌>>=◌, length, get_elem?, take, drop, ◌==◌, ltb, leb, if◌then◌else◌,
}

-- A read of `mem[j]`; outside the memory it is undefined.
unfoldable pub read_at : List ℕ → ℕ → Run ℕ
read_at mem j = elim (get_elem? mem j) [ some c ↦ done c | none ↦ trap ]

-- The inner loop: does the rest of `fnd` stand at `mem + j`?
unfoldable pub matches_at : List ℕ → List ℕ → ℕ → Run Bool
matches_at mem [] j = done true
matches_at mem (c ∷ cs) j =
    read_at mem j >>= (λ d. elim (d == c) [ true ↦ matches_at mem cs (j + 1) | false ↦ done false ])

-- The outer loop at `i`, with `left` positions to try.
unfoldable pub search_loop : List ℕ → List ℕ → ℕ → ℕ → Run (Option ℕ)
search_loop mem fnd zero i = done none
search_loop mem fnd (suc left) i =
    matches_at mem fnd i
    >>= (λ found. elim found [ true ↦ done (some i) | false ↦ search_loop mem fnd left (i + 1) ])

-- `some i` is the pointer `mem + i`.
unfoldable pub memstr : List ℕ → List ℕ → ℕ → Run (Option ℕ)
unfolding search_loop
memstr mem fnd max =
    if ltb max (length fnd) then done none else search_loop mem fnd (max - length fnd + 1) 0

-- The same on wide characters.
unfoldable pub memwcs : List ℕ → List ℕ → ℕ → Run (Option ℕ)
unfolding search_loop
memwcs mem fnd max =
    if ltb max (length fnd) then done none else search_loop mem fnd (max - length fnd + 1) 0

-- `while (ptr[0] == ' ') ++ptr;`, as the count of characters passed.
unfoldable pub leading_blanks : List ℕ → ℕ
leading_blanks [] = 0
leading_blanks (c ∷ cs) = if c == b' ' then suc (leading_blanks cs) else 0

-- `while (ptr[--len] == ' ') ptr[len] = 0;` from the index `end` of the buffer on: the new end.
-- A step below the buffer's start is undefined.
unfoldable pub trailing_end : List ℕ → ℕ → Run ℕ
trailing_end buffer zero = trap
trailing_end buffer (suc end) =
    read_at buffer end
    >>= (λ c. elim (c == b' ') [ true ↦ trailing_end buffer end | false ↦ done (suc end) ])

unfoldable pub strltrm : Option (List ℕ) → Option (List ℕ)
unfolding leading_blanks
strltrm none = none
strltrm (some s) = some (drop (leading_blanks s) s)

unfoldable pub strrtrm : Option (List ℕ) → Run (Option (List ℕ))
unfolding trailing_end
strrtrm none = done none
strrtrm (some s) = trailing_end s (length s) >>= (λ end. done (some (take end s)))

-- The blanks in front stay in the buffer, so the second loop can step back over them.
unfoldable pub strtrm : Option (List ℕ) → Run (Option (List ℕ))
unfolding leading_blanks trailing_end
strtrm none = done none
strtrm (some s) =
    let start = leading_blanks s in
    trailing_end s (length s) >>= (λ end. done (some (drop start (take end s))))

-- C's `tolower` in the "C" locale.
abbrev pub tolower : ℕ → ℕ
tolower c = if leb b'A' c && leb c b'Z' then c + 32 else c

unfoldable pub strlwr : Option (List ℕ) → Option (List ℕ)
strlwr none = none
strlwr (some s) = some (map tolower s)
