-- ===== src/Examples/FileTimes.antt =====
-- win32/c/roundft.c and win32/c/copyft.c on four files each, and a time that win32/c/wtimeflt.c prints.
use ltrdata.Prelude.{◌&&◌, ◌≡◌, refl, Bool, true, false, none, some, List, [], ◌∷◌, All, arith}
use ltrdata.FileTimes.{
  Times, File, weeks, days, clock, rounded, round_file, round_files, print_absolute_time,
}
use ltrdata.FileTimes.Rounding
use ltrdata.FileTimes.Rounding.{WholeTimes, times_set, Each, round_files-Each}
use ltrdata.FileTimes.Copying.{Information, Target}
use ltrdata.FileTimes.Copying.Copies.{
  open_handles, times_of, attributes_of, for_each, count, settable, leaking, copies,
  copy_times-Copied,
}
use ltrdata.FileTimes.Printing.{Usual, total, print_absolute_time-total}

abbrev some_times : Times
some_times = record { creation = 30000000; last_access = 30000001; last_write = 39999999 }

abbrev whole_times : Times
whole_times = record { creation = 30000000; last_access = 40000000; last_write = 40000000 }

abbrev a_file : Bool → Bool → File
a_file opens sets = record { opens = opens; times = some some_times; sets = sets }

abbrev four_files : List File
four_files =
    a_file false true
    ∷ record { opens = true; times = none; sets = true }
    ∷ a_file true false
    ∷ a_file true true
    ∷ []

round_files-Each_example :
    Each WholeTimes (some_times ∷ []) (times_set (round_files four_files))
    × (Rounding.open_handles 0 (round_files four_files) ≡ 0)
round_files-Each_example = round_files-Each four_files ((omega arith, omega arith, omega arith), tt)

round_files_run : times_set (round_files four_files) ≡ whole_times ∷ []
unfolding round_files round_file rounded
round_files_run = refl

-- Eight days, an hour and a tenth of a second.
print_absolute_time-total_example :
    (total (print_absolute_time 6948001000000) ≡ 6948001000000)
    × All Usual (print_absolute_time 6948001000000)
print_absolute_time-total_example = print_absolute_time-total 6948001000000 (omega arith)

print_absolute_time_run :
    print_absolute_time 6948001000000 ≡ weeks 1 ∷ days 1 ∷ clock 1 0 0 1000000 ∷ []
unfolding print_absolute_time
print_absolute_time_run = refl

abbrev a_target : Bool → Bool → Bool → Target
a_target opens sets attributes = record {
  opens = opens;
  sets_times = sets;
  sets_attributes = attributes;
}

abbrev four_targets : List Target
four_targets =
    a_target false true true
    ∷ a_target true false true
    ∷ a_target true true true
    ∷ a_target true true false
    ∷ []

abbrev some_information : Information
some_information = record { times = some_times; attributes = 32 }

copy_times-Copied_example :
    ((copies some_information (a_target true true true) four_targets).1 ≡ 0)
    × (times_of (copies some_information (a_target true true true) four_targets).0
        ≡ for_each settable some_times four_targets)
    × (attributes_of (copies some_information (a_target true true true) four_targets).0
        ≡ for_each (λ t. settable t && t.sets_attributes) 32 four_targets)
    × (open_handles 0 (copies some_information (a_target true true true) four_targets).0
        ≡ count leaking four_targets)
copy_times-Copied_example =
    copy_times-Copied some_information (a_target true true true) (a_target false true true)
      (a_target true false true ∷ a_target true true true ∷ a_target true true false ∷ [])
