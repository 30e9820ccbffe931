-- ===== src/Filters/Extract.antt =====
-- win32/c/extrtext32.c: the runs of printable bytes, one to a line. The program reads and writes
-- one byte at a time.
pub mod Laws
use ltrdata.Prelude.{
  ℕ, zero, suc, ◌+◌, Bool, true, false, Option, none, some, List, [], ◌∷◌, Run, done, spin, ltb,
  if◌then◌else◌,
}
use ltrdata.Filters.Console.{Console}

-- The two `do` loops: passing over bytes below 0x20, and copying all others.
pub data Phase : Type 0 where
  skipping copying : Phase

module _ {W : Type 0} (console : Console W) where
  -- What `ReadFile` of one byte leads to.
  unfoldable pub after_byte : W × Option (List ℕ) → (W → ℕ → Run (W × ℕ)) → Run (W × ℕ)
  after_byte (w, none) k = done (w, 1)
  after_byte (w, some []) k = done (w, 0)
  after_byte (w, some (c ∷ cs)) k = k w c

  -- What `WriteFile` of one byte leads to: a write of nothing is an error.
  unfoldable pub after_put : W × Option ℕ → (W → Run (W × ℕ)) → Run (W × ℕ)
  after_put (w, none) k = done (w, 1)
  after_put (w, some zero) k = done (w, 1)
  after_put (w, some (suc n)) k = k w

  -- `main` before a `ReadFile`. The result of the write of the line's end is not looked at.
  unfoldable pub extract_text : ℕ → Phase → W → Run (W × ℕ)
  extract_text zero phase w = spin
  extract_text (suc fuel) skipping w = after_byte (console.read w 1) (λ w' c. elim (ltb c 0x20) [
    | true ↦ extract_text fuel skipping w'
    | false ↦ after_put (console.write w' (c ∷ [])) (λ w''. extract_text fuel copying w'')
  ])
  extract_text (suc fuel) copying w = after_byte (console.read w 1) (λ w' c. elim (ltb c 0x20) [
    | true ↦ extract_text fuel skipping (console.write w' (b'\r' ∷ b'\n' ∷ [])).0
    | false ↦ after_put (console.write w' (c ∷ [])) (λ w''. extract_text fuel copying w'')
  ])
