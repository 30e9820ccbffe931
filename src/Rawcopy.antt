-- ===== src/Rawcopy.antt =====
-- win32/cpp/rawcopy.cpp: copies a file or a device block by block, from the loop of `main` on.
-- The calls of Windows are the parameter `Device`. A call that fails leaves the count of bytes 0,
-- which ReadFile and WriteFile set first. Numbers below 2^63 are natural numbers here; a size that
-- would be negative is 0, which no comparison of the loop tells apart.
pub mod Reliable
pub mod Retries
pub mod Put
pub mod Copies
pub mod Adjust
use ltrdata.Prelude.{
  ℕ, zero, suc, ◌+◌, ◌-◌, ◌*◌, Bool, true, false, ◌&&◌, ◌||◌, not, Option, none, some, List, [],
  ◌∷◌, Run, done, spin, ◌>>=◌, length, take, zeros, ◌==◌, ltb, leb, if◌then◌else◌,
}
use ltrdata.Truncate.{nonzero, filled, whole_words}

-- How a read or a write ends: the flag of a failure is whether the error is ERROR_BROKEN_PIPE or
-- ERROR_INVALID_PARAMETER.
pub data Read : Type 0 where
  bytes : List ℕ → Read
  read_error : (ended : Bool) → Read

pub data Write : Type 0 where
  wrote : ℕ → Write
  write_error : (ended : Bool) → Write

pub data Button : Type 0 where
  abort retry ignore : Button

pub record Device (W : Type 0) : Type 0 where
  pub read : W → ℕ → W × Read
  pub write : W → List ℕ → W × Write
  -- ReadFile on the output file.
  pub read_back : W → ℕ → W × Option (List ℕ)
  pub seek_in : W → ℕ → W × Bool
  pub seek_out : W → ℕ → W × Bool
  pub rewind_out : W → ℕ → W × Bool
  pub set_end : W → W
  pub message_box : W → W × Button

-- The variables that the options set, and `existing_out_file_size`.
pub record Options : Type 0 where
  pub bufsiz : ℕ
  pub retrycount : ℕ
  pub ignore_errors : Bool
  pub create_sparse : Bool
  pub differential : Bool
  pub copylength : ℕ
  pub existing : ℕ

pub record Progress : Type 0 where
  pub readbytes : ℕ
  pub writtenblocks : ℕ
  pub skipped : ℕ
  pub buffer : List ℕ

-- `memcmp(…) == 0` on blocks of one length.
unfoldable pub same_bytes : List ℕ → List ℕ → Bool
same_bytes [] [] = true
same_bytes (x ∷ xs) (y ∷ ys) = let rest = same_bytes xs ys in if x == y then rest else false
same_bytes _ _ = false

-- The size of the next block, unless all of `copylength` was read.
abbrev pub block_size : Options → Progress → Option ℕ
block_size o p =
    if o.copylength == 0
    then some o.bufsiz
    else if leb o.copylength p.readbytes
    then none
    else if leb o.copylength (o.bufsiz + p.readbytes)
    then some (o.copylength - p.readbytes)
    else some o.bufsiz

module _ {W : Type 0} (device : Device W) (o : Options) where
  abbrev pub choose : W → W × Button
  choose w = if o.ignore_errors then (w, ignore) else device.message_box w

  -- The answer to an error that was tried often enough: `none` is `return -1`, and `again` the
  -- next round.
  abbrev pub read_choice :
      ℕ → (W → Run (W × Option (List ℕ))) → W × Button → Run (W × Option (List ℕ))
  read_choice n again (w, abort) = done (w, none)
  read_choice n again (w, retry) = again w
  read_choice n again (w, ignore) =
      let (w', moved) = device.seek_in w o.bufsiz in
      if moved then done (w', some (zeros n)) else done (w', none)

  abbrev pub after_read :
      (n retries : ℕ) → (ℕ → W → Run (W × Option (List ℕ))) → W × Read → Run (W × Option (List ℕ))
  after_read n retries again (w, bytes bs) = done (w, some bs)
  after_read n retries again (w, read_error true) = done (w, some [])
  after_read n retries again (w, read_error false) =
      if ltb retries o.retrycount then again (retries + 1) w else read_choice n (again 0) (choose w)

  unfoldable pub read_block : ℕ → (n retries : ℕ) → W → Run (W × Option (List ℕ))
  read_block zero n retries w = spin
  read_block (suc fuel) n retries w = after_read n retries (read_block fuel n) (device.read w n)

  abbrev pub write_choice : ℕ → (W → Run (W × Option ℕ)) → W × Button → Run (W × Option ℕ)
  write_choice n again (w, abort) = done (w, none)
  write_choice n again (w, retry) = again w
  write_choice n again (w, ignore) =
      let (w', moved) = device.seek_out w n in if moved then done (w', some 0) else done (w', none)

  abbrev pub after_write :
      (n retries : ℕ) → (ℕ → W → Run (W × Option ℕ)) → W × Write → Run (W × Option ℕ)
  after_write n retries again (w, wrote k) = done (w, some k)
  after_write n retries again (w, write_error true) = done (w, some 0)
  after_write n retries again (w, write_error false) =
      if ltb retries o.retrycount
      then again (retries + 1) w
      else write_choice n (again 0) (choose w)

  unfoldable pub write_block : ℕ → List ℕ → (retries : ℕ) → W → Run (W × Option ℕ)
  write_block zero bs retries w = spin
  write_block (suc fuel) bs retries w =
      after_write (length bs) retries (write_block fuel bs) (device.write w bs)

  -- The test for a block of zeros behind the end of the output file. `p` is the progress before the
  -- block, and the buffer has it.
  abbrev pub skips_zeros : Progress → List ℕ → List ℕ → Bool
  skips_zeros p bs buffer =
      o.create_sparse
      && leb o.existing p.readbytes
      && not (nonzero (take (whole_words (length bs)) buffer))

  -- The comparison with the block that the output file has already: `none` is `return -1`.
  abbrev pub after_rewind : List ℕ → List ℕ → Bool → W × Bool → W × Option Bool
  after_rewind bs old skip (w, false) = (w, none)
  after_rewind bs old skip (w, true) = (w, some (skip || same_bytes bs old))

  abbrev pub after_back : List ℕ → Bool → W × Option (List ℕ) → W × Option Bool
  after_back bs skip (w, none) = (w, none)
  after_back bs skip (w, some old) =
      if length old == length bs
      then after_rewind bs old skip (device.rewind_out w (length old))
      else (w, none)

  unfoldable pub skips_block : Progress → List ℕ → List ℕ → W → W × Option Bool
  skips_block p bs buffer w =
      let skip = skips_zeros p bs buffer in
      if o.differential && leb (p.readbytes + length bs) o.existing
      then after_back bs skip (device.read_back w (length bs))
      else (w, some skip)

  -- A block that is skipped: `readbytes` is the count with the block.
  abbrev pub after_skip : (readbytes n : ℕ) → W × Bool → Run (W × Option ℕ)
  after_skip readbytes n (w, false) = done (w, none)
  after_skip readbytes n (w, true) =
      done ((if ltb o.existing readbytes then device.set_end w else w), some n)

  abbrev pub put_block : ℕ → ℕ → List ℕ → W × Option Bool → Run (W × Option ℕ × Bool)
  put_block fuel readbytes bs (w, none) = done (w, none, false)
  put_block fuel readbytes bs (w, some true) =
      after_skip readbytes (length bs) (device.seek_out w (length bs)) >>= λ (w', n).
      done (w', n, true)
  put_block fuel readbytes bs (w, some false) =
      write_block fuel bs 0 w >>= λ (w', n). done (w', n, false)

  abbrev pub advanced : Progress → List ℕ → List ℕ → ℕ → Bool → Progress
  advanced p bs buffer n skip = record {
    readbytes = p.readbytes + length bs;
    writtenblocks = p.writtenblocks + 1;
    skipped = if skip then p.skipped + n else p.skipped;
    buffer = buffer;
  }

  -- What follows a block: the loop goes on with `next`, ends, or the program returns -1.
  abbrev pub after_put :
      Progress
      → List ℕ
      → List ℕ
      → (Progress → W → Run (W × Bool))
      → W × Option ℕ × Bool
      → Run (W × Bool)
  after_put p bs buffer next (w, none, skip) = done (w, false)
  after_put p bs buffer next (w, some zero, skip) = done (w, true)
  after_put p bs buffer next (w, some (suc n), skip) =
      if not (o.copylength == 0) && leb o.copylength (p.writtenblocks + 1)
      then done (w, true)
      else next (advanced p bs buffer (suc n) skip) w

  abbrev pub after_block :
      ℕ → Progress → (Progress → W → Run (W × Bool)) → W × Option (List ℕ) → Run (W × Bool)
  after_block fuel p next (w, none) = done (w, false)
  after_block fuel p next (w, some []) = done (w, true)
  after_block fuel p next (w, some (b ∷ bs)) =
      let buffer = filled (b ∷ bs) p.buffer in
      put_block fuel (p.readbytes + length (b ∷ bs)) (b ∷ bs) (skips_block p (b ∷ bs) buffer w)
      >>= after_put p (b ∷ bs) buffer next

  abbrev pub next_block :
      ℕ → Progress → (Progress → W → Run (W × Bool)) → W → Option ℕ → Run (W × Bool)
  next_block fuel p next w none = done (w, true)
  next_block fuel p next w (some n) = read_block fuel n 0 w >>= after_block fuel p next

  -- The loop: true unless the program returns -1. `tries` is the fuel of the loops on one block.
  unfoldable pub copy_blocks : (tries fuel : ℕ) → Progress → W → Run (W × Bool)
  copy_blocks tries zero p w = spin
  copy_blocks tries (suc fuel) p w = next_block tries p (copy_blocks tries fuel) w (block_size o p)
