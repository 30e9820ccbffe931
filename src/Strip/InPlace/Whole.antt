-- ===== src/Strip/InPlace/Whole.antt =====
-- win32/c/stripcr.c on a file of one window: the file is stripped in place.
use ltrdata.Prelude.{
  ℕ, suc, ◌+◌, ◌-◌, ◌≤◌, ◌<◌, ◌≡◌, refl, sym, ap, ◌∙◌, Bool, true, false, List, [], ◌++◌, arith,
  length, get_or, take, ltb, if◌then◌else◌, Bool-cases, inl, inr,
}
use ltrdata.Strip.{strip}
use ltrdata.Strip.Convert.{Sender, convert-Writes}
use ltrdata.Strip.Slices.{slice, take-drop-slice, slice_whole, slice_ext}
use ltrdata.Strip.InPlace.{
  Disk, mapped, memmove, wrfmap_loop, wrfmap, read_byte, window_loop, truncate, opened, strip_file,
}
use ltrdata.Strip.InPlace.Copy.{length-memmove, take-memmove, get_or-memmove}

module _ (mmpsize : ℕ) (mmap_works : ℕ → Bool) (works : (n : ℕ) → mmap_works n ≡ true)
    (orig : List ℕ) (fits : length orig ≤ mmpsize) where
  abbrev byte : ℕ → ℕ
  byte i = get_or orig i 0

  -- The state between two calls of `wrfmap`: the bytes from `e` on are still the original ones.
  record Holds (s : Disk) (e : ℕ) : Type 0 where
    at_start : s.rdmapfilepos ≡ 0
    one_window : s.wrmapfilepos ≡ 0
    same_length : length s.file ≡ length orig
    behind : s.offset ≤ e
    closed : s.started ≡ false → s.offset ≡ 0
    open_map : s.started ≡ true → s.wrmap ≡ mapped
    unread : (j : ℕ) → e ≤ j → get_or s.file j 0 ≡ byte j

  abbrev out : Disk → List ℕ
  out s = take s.offset s.file

  -- `wrfmap` once its mapping is there.
  loop-sends :
      (s : Disk) (e n fuel : ℕ)
      → Holds s e
      → s.started ≡ true
      → e + n ≤ length orig
      → (s' : Disk) × (wrfmap_loop mmpsize mmap_works (suc fuel) e n s ≡ (s', true))
        × Holds s' (e + n)
        × (s'.started ≡ true)
        × (out s' ≡ out s ++ slice byte e n)
  unfolding wrfmap_loop
  loop-sends s e n fuel h running room =
      let small : ltb mmpsize (s.offset + n) ≡ false = lt_false in
      let at : s.wrmapfilepos + s.offset ≡ s.offset = omega (arith, h.one_window) in
      (moved, rw (wrfmap_loop, small, at), moved-Holds, running, moved_out)
    where
      inside : e + n ≤ length s.file
      inside = omega (arith, h.same_length)

      lt_false : ltb mmpsize (s.offset + n) ≡ false
      lt_false = let b : s.offset + n ≤ mmpsize = omega (arith, h.behind) in ground arith

      moved : Disk
      moved = record s { file = memmove s.file s.offset e n; offset = s.offset + n }

      moved-Holds : Holds moved (e + n)
      moved-Holds = record {
        at_start = h.at_start;
        one_window = h.one_window;
        same_length = length-memmove s.file s.offset e n h.behind inside ∙ h.same_length;
        behind = omega (arith, h.behind);
        closed = λ q. cc;
        open_map = h.open_map;
        unread = λ j le.
            get_or-memmove s.file s.offset e n h.behind inside j (omega (arith, h.behind))
            ∙ h.unread j (omega arith);
      }

      moved_out : out moved ≡ out s ++ slice byte e n
      moved_out =
          take-memmove s.file s.offset e n h.behind inside
          ∙ ap (◌++◌ (take s.offset s.file)) (
              take-drop-slice s.file e n inside
              ∙ slice_ext (λ i. get_or s.file i 0) byte e n h.unread)

  -- The first call opens the write mapping.
  abbrev window : Disk → Disk
  window s = record s {
    size2 = if ltb mmpsize s.size then s.size - mmpsize else s.size;
    wrmap = mapped;
    started = true;
    offset = 0;
    maps = s.maps + 1;
  }

  window-Holds : (s : Disk) (e : ℕ) → Holds s e → Holds (window s) e
  window-Holds s e h = record {
    at_start = h.at_start;
    one_window = h.one_window;
    same_length = h.same_length;
    behind = omega arith;
    closed = λ q. refl;
    open_map = λ q. refl;
    unread = h.unread;
  }

  nothing : (s : Disk) (e : ℕ) → Holds s e → s.started ≡ false → [] ≡ out s
  nothing s e h first = ap (λ k. take k s.file) (sym (h.closed first))

  wrfmap-sends :
      (s : Disk) (e n : ℕ)
      → Holds s e
      → e + n ≤ length orig
      → (s' : Disk) × (wrfmap mmpsize mmap_works s e n ≡ (s', true))
        × Holds s' (e + n)
        × (s'.started ≡ true)
        × (out s' ≡ out s ++ slice byte e n)
  unfolding wrfmap
  wrfmap-sends s e n h room = elim (Bool-cases s.started) [
    | inl running ↦
        let at : s.rdmapfilepos + e ≡ e = omega (arith, h.at_start) in
        let two : n + 2 ≡ suc (n + 1) = omega arith in
        rw (wrfmap, running, at, two) (loop-sends s e n (n + 1) h running room)
    | inr first ↦
        let at : s.rdmapfilepos + e ≡ e = omega (arith, h.at_start) in
        let two : n + 2 ≡ suc (n + 1) = omega arith in
        let (s', run, holds, running, grown) =
          loop-sends (window s) e n (n + 1) (window-Holds s e h) refl room in
        rw (wrfmap, first, works s.maps, at, two)
          (s', run, holds, running, grown ∙ ap (λ l. l ++ slice byte e n) (nothing s e h first))
  ]

  sender : Sender read_byte (wrfmap mmpsize mmap_works) byte (length orig)
  sender = record {
    out = out;
    Holds = Holds;
    Sent = λ s. s.started ≡ true;
    weaken = λ s e e' le h. record {
      at_start = h.at_start;
      one_window = h.one_window;
      same_length = h.same_length;
      behind = omega (arith, h.behind);
      closed = h.closed;
      open_map = h.open_map;
      unread = λ j q. h.unread j (omega arith);
    };
    reads = λ s e j h le lt.
        let at : s.rdmapfilepos + j ≡ j = omega (arith, h.at_start) in rw at (h.unread j le);
    sends = wrfmap-sends;
  }

  opened-Holds : Holds (record (opened orig) { maps = 1 }) 0
  opened-Holds = record {
    at_start = refl;
    one_window = refl;
    same_length = refl;
    behind = omega arith;
    closed = λ q. refl;
    open_map = λ q. cc;
    unread = λ j le. refl;
  }

  truncate_lem :
      (s : Disk)
      → Holds s (length orig)
      → s.started ≡ true
      → truncate true s ≡ (record s { file = out s }, true)
  truncate_lem s h running =
      let at : s.wrmapfilepos + s.offset ≡ s.offset = omega (arith, h.one_window) in
      rw (h.open_map running, at)

  one_window_loop :
      window_loop mmpsize mmap_works (length orig + 1) (opened orig) ≡ (opened orig, true)
  unfolding window_loop
  one_window_loop =
      let small : ltb mmpsize (length orig) ≡ false = ground arith in
      let fuel : length orig + 1 ≡ suc (length orig) = omega arith in rw (fuel, window_loop, small)

  -- If every `mmap` and `ftruncate` succeeds, a file of one byte to one window (MMPSIZE) is
  -- stripped in place: its contents become the original bytes without the carriage returns, though
  -- the program writes to the file while it reads it.
  pub strip_file-strip :
      0 < length orig
      → (s : Disk) × (strip_file mmpsize mmap_works true orig ≡ (s, true)) × (s.file ≡ strip orig)
  unfolding strip_file sender
  strip_file-strip some_bytes =
      let nonempty : ltb 0 (length orig) ≡ true = ground arith in
      let (s, run, holds, running, grown) =
        convert-Writes sender (record (opened orig) { maps = 1 }) opened-Holds in
      (
        record s { file = out s },
        rw (one_window_loop, works 0, nonempty, run) (truncate_lem s holds running),
        grown ∙ ap strip (slice_whole orig),
      )
