-- ===== src/Filters/Rot13.antt =====
-- win32/c/rot13.c: `ReadFile` and `WriteFile` in turn, with the letters rotated in between.
-- `dwReadLen` is the size of the next request as well as the count of the last call, so a request
-- is never larger than what was written last.
pub mod Laws
use ltrdata.Prelude.{
  ℕ, zero, suc, ◌+◌, ◌-◌, Bool, true, false, Option, none, some, List, [], ◌∷◌, map, Run, done,
  spin, length, leb, if◌then◌else◌,
}
use ltrdata.Filters.Console.{Console, after_read, after_write}

abbrev pub buffer_size : ℕ
buffer_size = 8192

-- The body of the loop over the buffer.
unfoldable pub rot13_byte : ℕ → ℕ
rot13_byte c =
    if leb b'a' c
    then if leb c (b'z' - 13) then c + 13 else if leb c b'z' then c - 13 else c
    else if leb b'A' c
    then if leb c (b'Z' - 13) then c + 13 else if leb c b'Z' then c - 13 else c
    else c

module _ {W : Type 0} (console : Console W) where
  -- `main`. `n` is `dwReadLen`.
  unfoldable pub rot13 : ℕ → ℕ → W → Run (W × ℕ)
  rot13 zero n w = spin
  rot13 (suc fuel) n w = after_read 1 (console.read w n) (λ w' bytes.
      after_write 1 (console.write w' (map rot13_byte bytes)) (λ w'' n'. rot13 fuel n' w''))
