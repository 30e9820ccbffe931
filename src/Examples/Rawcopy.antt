-- ===== src/Examples/Rawcopy.antt =====
-- win32/cpp/rawcopy.cpp on a file in memory.
use mathlib.Core.Bool.{true≢false}
use mathlib.Core.Option.{some-injective}
use ltrdata.Prelude.{
  ℕ, zero, suc, ◌+◌, ◌-◌, ◌<◌, ◌≡◌, refl, sym, true, false, Option, some, none, List, [], ◌∷◌, ◌++◌,
  done, length, take, drop, zeros, arith, take-append-drop, length-take,
}
use ltrdata.Rawcopy.{
  bytes, read_error, wrote, abort, Device, Options, Progress, read_block, write_block, skips_block,
  same_bytes, copy_blocks,
}
use ltrdata.Prelude.Splice.{splice, resized}
use ltrdata.Rawcopy.Reliable.{Reliable}
use ltrdata.Rawcopy.Retries.{Tries, read_block-Tries}
use ltrdata.Rawcopy.Adjust.{Output, MayFail, Adjusted, adjust_size, adjust_size-Adjusted}

record Disk : Type 0 where
  unread : List ℕ
  image : List ℕ
  at : ℕ

abbrev memory : Device Disk
memory = record {
  read = λ w n.
      (record { unread = drop n w.unread; image = w.image; at = w.at }, bytes (take n w.unread));
  write = λ w bs. (
    record { unread = w.unread; image = splice w.image w.at bs; at = w.at + length bs },
    wrote (length bs),
  );
  read_back = λ w n. (
    record { unread = w.unread; image = w.image; at = w.at + n },
    some (take n (drop w.at w.image)),
  );
  seek_in = λ w n. (record { unread = drop n w.unread; image = w.image; at = w.at }, true);
  seek_out = λ w n. (record { unread = w.unread; image = w.image; at = w.at + n }, true);
  rewind_out = λ w n. (record { unread = w.unread; image = w.image; at = w.at - n }, true);
  set_end = λ w. record { unread = w.unread; image = resized w.image w.at; at = w.at };
  message_box = λ w. (w, abort);
}

take-empty : (xs : List ℕ) (n : ℕ) → 0 < n → length (take n xs) ≡ 0 → xs ≡ []
take-empty [] n full empty = refl
take-empty (x ∷ xs) zero full empty = absurd (omega arith)
take-empty (x ∷ xs) (suc n) full empty = absurd (omega (arith, empty))

abbrev memory_reliable : Reliable memory
memory_reliable = record {
  input = λ w. w.unread;
  file = λ w. w.image;
  pos = λ w. w.at;
  reads = λ w n full. (
    _,
    take n w.unread,
    refl,
    omega (arith, length-take n w.unread),
    sym (take-append-drop n w.unread),
    take-empty w.unread n full,
    refl,
    refl,
  );
  writes = λ w bs inside. (_, refl, refl, refl, refl);
  reads_back = λ w n inside. (_, refl, refl, refl, refl);
  skips = λ w n. (_, refl, refl, refl, refl);
  rewinds = λ w n inside. (_, refl, refl, refl, refl);
  ends = λ w. (refl, refl, refl);
}

abbrev both_modes : Options
both_modes = record {
  bufsiz = 8;
  retrycount = 2;
  ignore_errors = true;
  create_sparse = true;
  differential = true;
  copylength = 0;
  existing = 8;
}

abbrev started : Progress
started = record { readbytes = 0; writtenblocks = 0; skipped = 0; buffer = zeros 8 }

abbrev eight : List ℕ
eight = 1 ∷ 2 ∷ 3 ∷ 4 ∷ 5 ∷ 6 ∷ 7 ∷ 8 ∷ []

-- The first block is there already, and the second is zeros behind the end.
abbrev disk : Disk
disk = record { unread = eight ++ zeros 8 ++ (3 ∷ []); image = eight; at = 0 }

copy_blocks_run :
    copy_blocks memory both_modes 1 18 started disk
    ≡ done (record { unread = []; image = eight ++ zeros 8 ++ (3 ∷ []); at = 17 }, true)
unfolding copy_blocks read_block write_block skips_block same_bytes splice resized
copy_blocks_run = refl

-- A device whose every read fails, on the state that counts them.
abbrev unreadable : Device ℕ
unreadable = record {
  read = λ w n. (w + 1, read_error false);
  write = λ w bs. (w, wrote (length bs));
  read_back = λ w n. (w, none);
  seek_in = λ w n. (w, true);
  seek_out = λ w n. (w, true);
  rewind_out = λ w n. (w, true);
  set_end = λ w. w;
  message_box = λ w. (w, abort);
}

read_block-Tries_example :
    (r : ℕ × Option (List ℕ)) × (read_block unreadable both_modes 3 5 0 0 ≡ done r)
    × Tries unreadable both_modes 5 2 0 r
read_block-Tries_example = read_block-Tries unreadable both_modes 5 3 2 0 0 refl refl (omega arith)

read_block_run : read_block unreadable both_modes 3 5 0 0 ≡ done (3, some (zeros 5))
unfolding read_block
read_block_run = refl

-- The output in memory, with its position.
abbrev memory_output : Output (List ℕ × ℕ)
memory_output = record {
  get_file_size = λ w. some (length w.0);
  seek_begin = λ w n. ((w.0, n), true);
  set_end_of_file = λ w. ((take w.1 w.0, w.1), true);
}

abbrev memory_MayFail : MayFail memory_output
memory_MayFail = record {
  file = λ w. w.0;
  pos = λ w. w.1;
  sizes = λ w n e. sym (some-injective _ _ e);
  seeks = λ w n. (refl, λ e. refl);
  ends = λ w inside. ((λ e. refl), λ e. absurd (true≢false e));
}

adjust_size-Adjusted_example :
    Adjusted memory_MayFail 6 (eight, 8) (adjust_size memory_output 7 1 (eight, 8))
adjust_size-Adjusted_example = adjust_size-Adjusted memory_MayFail 7 1 (eight, 8)

adjust_size_run :
    (adjust_size memory_output 7 1 (eight, 8) ≡ ((take 6 eight, 6), 0))
    × (adjust_size memory_output 9 0 (eight, 8) ≡ ((eight, 8), 1))
unfolding adjust_size
adjust_size_run = (refl, refl)
