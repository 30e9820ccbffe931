-- ===== src/Extrbin.antt =====
-- win32/cpp/extrbin.cpp: saves the blocks of a device that begin with given data, from its loop on.
-- ReadFile and WriteFile are a `Console`; a copy or a comparison outside of the array `block` is a
-- trap. The count of bytes, of 64 bits, is a natural number.
pub mod Saved
use ltrdata.Prelude.{
  ℕ, zero, suc, ◌+◌, ◌-◌, ◌<◌, Bool, true, false, not, Option, none, some, List, [], ◌∷◌, ◌++◌, Run,
  done, trap, spin, length, take, drop, ◌==◌, ltb, if◌then◌else◌,
}
use ltrdata.Truncate.{filled}
use ltrdata.Rawcopy.{same_bytes}
use ltrdata.Filters.Console.{Console}

-- `search_data` is the number as its bytes.
pub record Search : Type 0 where
  pub search_data : List ℕ
  pub offset : ℕ
  pub block_size : ℕ
  pub sector_size : ℕ

module _ {W : Type 0} (console : Console W) (ctrlbreak : W → Bool) (s : Search) where
  abbrev pub compared : ℕ
  compared = if ltb 4 s.block_size then 4 else s.block_size

  -- What follows WriteFile: `saved` counts the block already.
  abbrev pub after_save : (ℕ → W → Run (W × ℕ)) → ℕ → W × Option ℕ → Run (W × ℕ)
  after_save next saved (w, none) = done (w, saved)
  after_save next saved (w, some n) = next saved w

  -- What follows the second ReadFile, of the rest of the block.
  abbrev pub after_rest :
      (List ℕ → ℕ → W → Run (W × ℕ)) → List ℕ → ℕ → W × Option (List ℕ) → Run (W × ℕ)
  after_rest next block saved (w, none) = done (w, saved)
  after_rest next block saved (w, some bs) =
      let whole = take s.sector_size block ++ (bs ++ drop (s.sector_size + length bs) block) in
      let rep = length bs + s.sector_size in
      if ltb s.block_size rep
      then trap
      else after_save (next whole) (saved + rep) (console.write w (take rep whole))

  abbrev pub save_block : (List ℕ → ℕ → W → Run (W × ℕ)) → List ℕ → ℕ → W → Run (W × ℕ)
  save_block next block saved w =
      if ltb s.sector_size s.block_size
      then after_rest next block saved (console.read w (s.block_size - s.sector_size))
      else after_rest next block saved (w, some [])

  -- What follows the first ReadFile, with the array as it was.
  abbrev pub after_sector :
      (List ℕ → ℕ → W → Run (W × ℕ)) → List ℕ → ℕ → W × Option (List ℕ) → Run (W × ℕ)
  after_sector next old saved (w, none) = done (w, saved)
  after_sector next old saved (w, some bs) =
      let block = filled bs old in
      if ltb s.block_size (length bs)
      then trap
      else if not (length bs == s.sector_size)
      then done (w, saved)
      else if ltb s.block_size (s.offset + compared)
      then trap
      else if same_bytes (take compared s.search_data) (take compared (drop s.offset block))
      then save_block next block saved w
      else next block saved w

  unfoldable pub extract : ℕ → List ℕ → ℕ → W → Run (W × ℕ)
  extract zero block saved w = spin
  extract (suc fuel) block saved w =
      if ctrlbreak w
      then done (w, saved)
      else after_sector (extract fuel) block saved (console.read w s.sector_size)
