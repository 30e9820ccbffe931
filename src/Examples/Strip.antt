-- ===== src/Examples/Strip.antt =====
-- win32/c/stripcr.c on concrete bytes, with a window of a few bytes.
use ltrdata.Prelude.{
  ℕ, ◌+◌, ◌<◌, ◌≡◌, refl, Bool, true, Option, some, List, [], ◌∷◌, ◌++◌, arith, get_or, length,
}
use ltrdata.Prelude.Int.{ℤ, pos}
use ltrdata.Strip.{convert, strip}
use ltrdata.Strip.Slices.{slice}
use ltrdata.Strip.Convert.{Sender, Writes, convert-Writes}
use ltrdata.Strip.Stream.{filter_input, received, exit_status}
use ltrdata.Strip.Stream.Laws.{Output, filter_input-strip}
use ltrdata.Strip.InPlace.{Disk, mapped, opened, wrfmap, window_loop, strip_file}
use ltrdata.Strip.InPlace.Window.{Crosses, wrfmap-repeats}
use ltrdata.Strip.InPlace.Whole.{strip_file-strip}

abbrev text : List ℕ
text = b'a' ∷ b'\r' ∷ b'\n' ∷ b'\r' ∷ b'\r' ∷ b'b' ∷ []

-- A callback that appends the bytes to a list.
abbrev byte : ℕ → ℕ
byte i = get_or text i 0

abbrev read : List ℕ → ℕ → ℕ
read sent i = byte i

abbrev append : List ℕ → ℕ → ℕ → List ℕ × Bool
append sent e n = (sent ++ slice byte e n, true)

appender : Sender read append byte 6
appender = record {
  out = λ s. s;
  Holds = λ s e. Unit {0};
  Sent = λ s. Unit {0};
  weaken = λ s e e' le h. tt;
  reads = λ s e j h le lt. refl;
  sends = λ s e n h fits. (sent s e n, refl, tt, tt, refl);
}
  where
    sent : List ℕ → ℕ → ℕ → List ℕ
    sent s e n = s ++ slice byte e n

convert-Writes_example : Writes appender (convert read append 6 []) [] (strip (slice byte 0 6))
unfolding appender
convert-Writes_example = convert-Writes appender [] tt

convert_run : convert read append 6 [] ≡ (b'a' ∷ b'\n' ∷ b'b' ∷ [], true)
unfolding convert
convert_run = refl

abbrev write : List ℕ → List ℕ → List ℕ × ℤ
write written bytes = (written ++ bytes, pos (length bytes))

memory_output : Output write
memory_output = record { written = λ w. w; takes_all = λ w bytes. (w ++ bytes, refl, refl) }

-- A carriage return at the end of the first read.
abbrev reads : List (Option (List ℕ))
reads = some (b'a' ∷ b'\r' ∷ []) ∷ some (b'\n' ∷ b'b' ∷ []) ∷ some [] ∷ []

filter_input-strip_example :
    (w' : List ℕ) × (filter_input write reads [] ≡ (w', exit_status reads))
    × (w' ≡ strip (received reads))
unfolding memory_output
filter_input-strip_example = filter_input-strip memory_output reads []

abbrev mmap_works : ℕ → Bool
mmap_works n = true

strip_file-strip_example :
    (s : Disk) × (strip_file 8 mmap_works true text ≡ (s, true)) × (s.file ≡ strip text)
strip_file-strip_example =
    strip_file-strip 8 mmap_works (λ n. refl) text (omega arith) (omega arith)

-- A file of two windows, stripped in place: `def` is stored where `efg` should be.
strip_file_run :
    (s : Disk) × (strip_file 4 mmap_works true
        (b'a' ∷ b'\r' ∷ b'b' ∷ b'c' ∷ b'd' ∷ b'e' ∷ b'f' ∷ b'g' ∷ [])
      ≡ (s, true))
    × (s.file ≡ b'a' ∷ b'b' ∷ b'c' ∷ b'd' ∷ b'd' ∷ b'e' ∷ b'f' ∷ [])
unfolding strip_file window_loop convert wrfmap
strip_file_run = (_, refl, refl)

-- Three bytes of the first window are written when a run of three is found in the second one.
abbrev disk : Disk
disk = record (opened (b'a' ∷ b'\r' ∷ b'b' ∷ b'c' ∷ b'd' ∷ b'e' ∷ b'f' ∷ [])) {
  rdmapfilepos = 4;
  size = 3;
  size2 = 3;
  wrmap = mapped;
  started = true;
  offset = 3;
  maps = 3;
}

disk-Crosses : Crosses 4 mmap_works disk 0 3
disk-Crosses = record {
  running = refl;
  works = refl;
  partly = omega arith;
  crosses = omega arith;
  fits_next = omega arith;
  read_behind = omega arith;
  inside = omega arith;
}

wrfmap-repeats_example :
    (s' : Disk) × (wrfmap 4 mmap_works disk 0 3 ≡ (s', true))
    × ((i : ℕ) → i < 1 → get_or s'.file (3 + i) 0 ≡ get_or disk.file (4 + i) 0)
    × ((i : ℕ) → i < 2 → get_or s'.file (4 + i) 0 ≡ get_or disk.file (4 + i) 0)
wrfmap-repeats_example = wrfmap-repeats 4 mmap_works disk 0 3 disk-Crosses
