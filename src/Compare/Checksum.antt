-- ===== src/Compare/Checksum.antt =====
-- `GetFileCheckSum` of win32/fdf/chkfile.c: two 64-bit sums over the words of a file.
pub mod Words
pub mod Sums
use Prim.Native.Nat.{bit_xor}
use ltrdata.Prelude.{
  zeros, ℕ, zero, suc, ◌+◌, ◌-◌, ◌*◌, ◌/◌, ◌%◌, ◌^◌, Bool, true, false, Option, none, some, List,
  [], ◌∷◌, ◌++◌, Run, done, spin, length, take, drop, ◌==◌, if◌then◌else◌,
}
use ltrdata.Compare.{File}

-- The bytes of a word, the lowest first.
abbrev pub word : List ℕ → ℕ
word [] = 0
word (b ∷ bs) = b + 256 * word bs

abbrev pub words : ℕ → List ℕ → List ℕ
words zero bytes = []
words (suc n) bytes = word (take 8 bytes) ∷ words n (drop 8 bytes)

-- `if (dwReadSize & 7)`: zeros up to a multiple of eight.
unfoldable pub padded : List ℕ → List ℕ
padded bytes = if length bytes % 8 == 0 then bytes else bytes ++ zeros (8 - length bytes % 8)

-- `*lpChecksum0` and `*lpChecksum1`.
abbrev pub Sums : Type 0
Sums = ℕ × ℕ

-- The body of the loop over the buffer, at `dwBufferIdx`.
unfoldable pub add_word : ℕ → ℕ → Sums → Sums
add_word idx w (sum₀, sum₁) =
    let sum₀' = bit_xor sum₀ w in (sum₀', (sum₁ + (w + sum₀' + idx + 1)) % 2 ^ 64)

abbrev pub sum_words : ℕ → List ℕ → Sums → Sums
sum_words idx [] s = s
sum_words idx (w ∷ ws) s = sum_words (idx + 1) ws (add_word idx w s)

unfoldable pub sum_buffer : List ℕ → Sums → Sums
sum_buffer bytes s = let all = padded bytes in sum_words 0 (words (length all / 8) all) s

module _ {H : Type 0} (file : File H) where
  -- What follows a `ReadFile`.
  unfoldable pub after_sum_read :
      H × Option (List ℕ) → Sums → (H → List ℕ → Run (Bool × Sums)) → Run (Bool × Sums)
  after_sum_read (h, none) s k = done (false, s)
  after_sum_read (h, some []) s k = done (true, s)
  after_sum_read (h, some (b ∷ bs)) s k = k h (b ∷ bs)

  -- The outer loop.
  unfoldable pub checksum_loop : ℕ → H → Sums → Run (Bool × Sums)
  checksum_loop zero h s = spin
  checksum_loop (suc fuel) h s =
      after_sum_read (file.read h) s (λ h' bytes. checksum_loop fuel h' (sum_buffer bytes s))

  unfoldable pub get_file_checksum : ℕ → H → Run (Bool × Sums)
  get_file_checksum fuel h = checksum_loop fuel h (0, 0)
