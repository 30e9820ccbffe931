-- ===== src/Examples/Files.antt =====
-- win32/fdf/chkfile.c on files in memory.
use ltrdata.Prelude.{ℕ, ◌*◌, ◌≡◌, ◌↔◌, refl, true, some, List, [], ◌∷◌, done, arith, take, drop}
use ltrdata.Compare.{
  Status, equal, buffer_size, File, compare_memory, closed, compare_loop, compare_files,
}
use ltrdata.Compare.Verdict.{OnDisk, SameWords, compare_files-Decides}
use ltrdata.Compare.Checksum.{
  words, get_file_checksum, checksum_loop, after_sum_read, sum_buffer, padded, add_word,
}
use ltrdata.Compare.Checksum.Sums.{sum_all, get_file_checksum-sum_all}

abbrev counting : List ℕ
counting = 1 ∷ 2 ∷ 3 ∷ 4 ∷ 5 ∷ 6 ∷ 7 ∷ 8 ∷ 9 ∷ []

abbrev miscounting : List ℕ
miscounting = 1 ∷ 2 ∷ 3 ∷ 4 ∷ 5 ∷ 6 ∷ 7 ∷ 8 ∷ 0 ∷ []

abbrev memory_file : List ℕ → File (List ℕ)
memory_file bytes = record {
  opens = true;
  seeks = true;
  start = bytes;
  read = λ h. (drop buffer_size h, some (take buffer_size h));
}

memory_on_disk : (bytes : List ℕ) → OnDisk (memory_file bytes) (8 * 2048)
memory_on_disk bytes = record { contents = λ h. h; returns = λ h. refl; advances = λ h. refl }

compare_files-Decides_example :
    (s : Status) × (compare_files (memory_file counting) (memory_file miscounting) 10 0
      ≡ done (closed s))
    × ((s ≡ equal) ↔ SameWords counting miscounting)
unfolding memory_on_disk
compare_files-Decides_example =
    compare_files-Decides 2048 (omega arith) (memory_on_disk counting) (memory_on_disk miscounting)
      10 0 (refl, refl) (refl, refl) (omega arith)

-- The ninth bytes differ, and are not looked at.
compare_files_run :
    compare_files (memory_file counting) (memory_file miscounting) 10 0 ≡ done (closed equal)
unfolding compare_files compare_loop compare_memory
compare_files_run = refl

get_file_checksum-sum_all_example :
    get_file_checksum (memory_file counting) 10 counting
    ≡ done (true, sum_all 0 (words 2 counting) (0, 0))
unfolding memory_on_disk
get_file_checksum-sum_all_example =
    get_file_checksum-sum_all (memory_on_disk counting) 10 counting (omega arith)

get_file_checksum_run :
    get_file_checksum (memory_file (2 ∷ 1 ∷ [])) 3 (2 ∷ 1 ∷ []) ≡ done (true, (258, 517))
unfolding get_file_checksum checksum_loop after_sum_read sum_buffer padded add_word
get_file_checksum_run = refl
