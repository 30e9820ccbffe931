-- ===== src/Strip/InPlace.antt =====
-- In-place stripping of a file in win32/c/stripcr.c: `wrfmap`, and `main` for one argument.
-- Both mappings are MAP_SHARED mappings of the file, so a pointer into one is a position of the
-- file, and what `wrfmap` writes is what `convert` would read there. `mmap_works n` tells whether
-- the n-th call of `mmap` succeeds; a mapping of no bytes always fails. The window size MMPSIZE, 524288 in the source, is a parameter.
pub mod Copy
pub mod Window
pub mod Whole
use ltrdata.Prelude.{
  ℕ, zero, suc, ◌+◌, ◌-◌, Bool, true, false, ◌&&◌, List, [], ◌∷◌, ◌++◌, length, get_or, take, drop,
  ltb, if◌then◌else◌,
}
use ltrdata.Strip.{on_success, convert}

abbrev pub mmp_size : ℕ
mmp_size = 524288

-- NULL, MAP_FAILED, or a mapping.
pub data Mapping : Type 0 where
  null failed mapped : Mapping

pub record Disk : Type 0 where
  pub file : List ℕ
  -- `sb.st_size`: what is left from the read position on, and `sb2.st_size`, the same for writing.
  pub size : ℕ
  pub size2 : ℕ
  pub rdmapfilepos : ℕ
  pub wrmapfilepos : ℕ
  pub wrmap : Mapping
  -- Whether `wrmapptr` is not NULL, and `wrmapptr - wrmap`.
  pub started : Bool
  pub offset : ℕ
  -- How often `mmap` was called.
  pub maps : ℕ

-- memmove(file + dst, file + src, n)
abbrev pub memmove : List ℕ → ℕ → ℕ → ℕ → List ℕ
memmove file dst src n = take dst file ++ (take n (drop src file) ++ drop (dst + n) file)

-- The two statements `memmove(wrmapptr, buffer, n)`, with `buffer` at `src`.
abbrev pub copy : Disk → ℕ → ℕ → Disk
copy s src n = record s { file = memmove s.file (s.wrmapfilepos + s.offset) src n }

abbrev pub read_byte : Disk → ℕ → ℕ
read_byte s i = get_or s.file (s.rdmapfilepos + i) 0

abbrev pub is_mapped : Mapping → Bool
is_mapped mapped = true
is_mapped _ = false

-- `ftruncate(fd, wrmapfilepos + (wrmapptr - wrmap))`, if there is a write mapping.
abbrev pub truncate : Bool → Disk → Disk × Bool
truncate works s =
    if is_mapped s.wrmap
    then if works
      then (record s { file = take (s.wrmapfilepos + s.offset) s.file }, true)
      else (s, false)
    else (s, true)

abbrev pub opened : List ℕ → Disk
opened file = record {
  file = file;
  size = length file;
  size2 = 0;
  rdmapfilepos = 0;
  wrmapfilepos = 0;
  wrmap = null;
  started = false;
  offset = 0;
  maps = 0;
}

module _ (mmpsize : ℕ) (mmap_works : ℕ → Bool) where
  -- The next window of the write mapping, both where the first one is opened and in the loop.
  abbrev pub open_window : Disk → Disk
  open_window s = record s {
    size2 = if ltb mmpsize s.size2 then s.size2 - mmpsize else s.size2;
    wrmap = if mmap_works s.maps then mapped else failed;
    maps = s.maps + 1;
  }

  -- `if (wrmap == MAP_FAILED) return FALSE; wrmapptr = wrmap;`, and what follows.
  abbrev pub if_mapped : Disk → (Disk → Disk × Bool) → Disk × Bool
  if_mapped s k = elim s.wrmap [
    | mapped ↦ k (record s { started = true; offset = 0 })
    | _ ↦ (s, false)
  ]

  -- `while (wrmapptr - wrmap + length > MMPSIZE) …`, then the last `memmove`.
  -- `buffer` stays where it is when the first part has been written.
  unfoldable pub wrfmap_loop : ℕ → ℕ → ℕ → Disk → Disk × Bool
  wrfmap_loop zero src n s = (s, false)
  wrfmap_loop (suc fuel) src n s = elim (ltb mmpsize (s.offset + n)) [
    | true ↦
        let room = mmpsize - s.offset in
        let full = copy s src room in
        if_mapped (open_window (record full { wrmapfilepos = s.wrmapfilepos + mmpsize }))
          (λ s'. wrfmap_loop fuel src (n - room) s')
    | false ↦ (record (copy s src n) { offset = s.offset + n }, true)
  ]

  -- `buffer` is the byte `e` of the read mapping.
  unfoldable pub wrfmap : Disk → ℕ → ℕ → Disk × Bool
  unfolding wrfmap_loop
  wrfmap s e n = elim s.started [
    | true ↦ wrfmap_loop (n + 2) (s.rdmapfilepos + e) n s
    | false ↦
        if_mapped (open_window (record s { size2 = s.size }))
          (λ s'. wrfmap_loop (n + 2) (s.rdmapfilepos + e) n s')
  ]

  -- `rdmap = mmap(…); if (rdmap == MAP_FAILED) …; else if (!convert(wrfmap, rdmap, n)) …`
  abbrev pub convert_window : ℕ → Disk → Disk × Bool
  convert_window n s =
      if mmap_works s.maps && ltb 0 n
      then convert read_byte wrfmap n (record s { maps = s.maps + 1 })
      else (record s { maps = s.maps + 1 }, false)

  -- `while (sb.st_size > MMPSIZE) …`, left by its test (`true`) or by a `break`.
  unfoldable pub window_loop : ℕ → Disk → Disk × Bool
  window_loop zero s = (s, false)
  window_loop (suc fuel) s = elim (ltb mmpsize s.size) [
    | true ↦ on_success (convert_window mmpsize s) (λ s'.
        window_loop fuel
          (record s' { rdmapfilepos = s'.rdmapfilepos + mmpsize; size = s'.size - mmpsize }))
    | false ↦ (s, true)
  ]

  -- The body of the loop over the arguments, for a file that was opened and measured.
  -- `ftruncate_works` tells whether `ftruncate` succeeds. The flag is `false` if "failed" is
  -- printed.
  unfoldable pub strip_file : Bool → List ℕ → Disk × Bool
  strip_file ftruncate_works file =
      on_success (window_loop (length file + 1) (opened file))
        (λ s. on_success (convert_window s.size s) (truncate ftruncate_works))
