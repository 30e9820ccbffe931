-- ===== src/Strip/InPlace/Window.antt =====
-- `wrfmap` of win32/c/stripcr.c where a run of bytes crosses the end of the write window.
use ltrdata.Prelude.{
  ℕ, suc, ◌+◌, ◌-◌, ◌≤◌, ◌<◌, ◌≡◌, ap, ◌∙◌, Bool, true, false, List, arith, length, get_or, ltb,
  if◌then◌else◌,
}
use ltrdata.Strip.InPlace.{Disk, mapped, memmove, wrfmap_loop, wrfmap}
use ltrdata.Strip.InPlace.Copy.{
  length-memmove, get_or-memmove, get_or-memmove_before, get_or-memmove_moved,
}

-- A run that fits the window.
last_copy :
    (mmpsize : ℕ) (mmap_works : ℕ → Bool) (fuel src m : ℕ) (t : Disk)
    → t.offset + m ≤ mmpsize
    → wrfmap_loop mmpsize mmap_works (suc fuel) src m t ≡ (
      record t { file = memmove t.file (t.wrmapfilepos + t.offset) src m; offset = t.offset + m },
      true,
    )
unfolding wrfmap_loop
last_copy mmpsize mmap_works fuel src m t h =
    let under : ltb mmpsize (t.offset + m) ≡ false = ground arith in rw (wrfmap_loop, under)

module _ (mmpsize : ℕ) (mmap_works : ℕ → Bool) (s : Disk) (e n : ℕ) where
  -- Where the run is read, where it goes, and how much of it fits the window.
  abbrev pub from : ℕ
  from = s.rdmapfilepos + e

  abbrev pub to : ℕ
  to = s.wrmapfilepos + s.offset

  abbrev pub room : ℕ
  room = mmpsize - s.offset

  -- The run crosses the end of the window, is read behind it, and fits the file.
  pub record Crosses : Type 0 where
    pub running : s.started ≡ true
    pub works : mmap_works s.maps ≡ true
    pub partly : s.offset ≤ mmpsize
    pub crosses : room < n
    pub fits_next : n - room ≤ mmpsize
    pub read_behind : s.wrmapfilepos + mmpsize ≤ from
    pub inside : from + n ≤ length s.file

  module _ (h : Crosses) where
    abbrev first_part : List ℕ
    first_part = memmove s.file to from room

    abbrev both_parts : List ℕ
    both_parts = memmove first_part (s.wrmapfilepos + mmpsize) from (n - room)

    abbrev after : Disk
    after = record s {
      file = both_parts;
      size2 = if ltb mmpsize s.size2 then s.size2 - mmpsize else s.size2;
      wrmapfilepos = s.wrmapfilepos + mmpsize;
      wrmap = mapped;
      started = true;
      offset = n - room;
      maps = s.maps + 1;
    }

    wrfmap_runs : wrfmap mmpsize mmap_works s e n ≡ (after, true)
    unfolding wrfmap
    wrfmap_runs =
        let two : n + 2 ≡ suc (suc n) = omega arith in
        let over : ltb mmpsize (s.offset + n) ≡ true = over_lem in
        let rest : 0 + (n - room) ≡ n - room = omega arith in
        let start : s.wrmapfilepos + mmpsize + 0 ≡ s.wrmapfilepos + mmpsize = omega arith in
        rw (wrfmap, h.running, two, wrfmap_loop, over, h.works)
          (last_copy mmpsize mmap_works n from (n - room) window (omega (arith, h.fits_next))
            ∙ rw (rest, start))
      where
        window : Disk
        window = record after { file = first_part; offset = 0 }

        over_lem : ltb mmpsize (s.offset + n) ≡ true
        over_lem =
            let b : mmpsize < s.offset + n = omega (arith, h.crosses, h.partly) in ground arith

    to_end : to + room ≡ s.wrmapfilepos + mmpsize
    to_end = omega (arith, h.partly)

    -- If the write window is open, `mmap` succeeds for the next one, and a run of `n` bytes crosses
    -- the end of the window, is read at or behind that end, lies within the file, and fits the next
    -- window with its rest, then it is stored wrongly: its first `room` bytes fill the window, and
    -- the next window gets the first `n - room` bytes of the run once more, where its last
    -- `n - room` bytes should stand.
    pub wrfmap-repeats :
        (s' : Disk) × (wrfmap mmpsize mmap_works s e n ≡ (s', true))
        × ((i : ℕ) → i < room → get_or s'.file (to + i) 0 ≡ get_or s.file (from + i) 0)
        × ((i : ℕ) → i < n - room → get_or s'.file (to + room + i) 0 ≡ get_or s.file (from + i) 0)
    wrfmap-repeats = (after, wrfmap_runs, first, second)
      where
        low : to ≤ from
        low = omega (arith, h.read_behind, h.partly)

        fits_first : from + room ≤ length s.file
        fits_first = omega (arith, h.inside, h.crosses)

        same_length : length first_part ≡ length s.file
        same_length = length-memmove s.file to from room low fits_first

        fits_second : from + (n - room) ≤ length first_part
        fits_second = omega (arith, h.inside, h.crosses, same_length)

        first : (i : ℕ) → i < room → get_or both_parts (to + i) 0 ≡ get_or s.file (from + i) 0
        first i lt =
            get_or-memmove_before first_part (s.wrmapfilepos + mmpsize) from (n - room)
              h.read_behind fits_second (to + i) (omega (arith, h.partly))
            ∙ get_or-memmove_moved s.file to from room low fits_first i lt

        second :
            (i : ℕ)
            → i < n - room
            → get_or both_parts (to + room + i) 0 ≡ get_or s.file (from + i) 0
        second i lt =
            ap (λ k. get_or both_parts (k + i) 0) to_end
            ∙ get_or-memmove_moved first_part (s.wrmapfilepos + mmpsize) from (n - room)
                h.read_behind fits_second i lt
            ∙ get_or-memmove s.file to from room low fits_first (from + i)
                (omega (arith, to_end, h.read_behind))
