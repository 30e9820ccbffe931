-- ===== src/FileTimes.antt =====
-- Times in units of 100 ns, in 64 bits: win32/c/roundft.c, which rounds those of files up to whole
-- seconds, and `PrintAbsoluteTime` of win32/c/wtimeflt.c.
pub mod Rounding
pub mod Copying
pub mod Printing
use ltrdata.Prelude.{
  ℕ, suc, ◌+◌, ◌*◌, ◌/◌, ◌%◌, ◌^◌, Bool, true, false, not, Option, none, some, List, [], ◌∷◌, ◌++◌,
  map, ◌==◌, if◌then◌else◌,
}

abbrev pub qword : ℕ → ℕ
qword n = n % 2 ^ 64

pub record Times : Type 0 where
  pub creation : ℕ
  pub last_access : ℕ
  pub last_write : ℕ

-- What the calls of Windows give for a file that is named on the command line.
pub record File : Type 0 where
  pub opens : Bool
  pub times : Option Times
  pub sets : Bool

-- The calls that matter and the messages, in order.
pub data Event : Type 0 where
  opened closed : Event
  open_failed query_failed set_failed : Event
  set_time : Times → Event

unfoldable pub rounded : ℕ → ℕ
rounded time = qword (qword (time + 9999999) / 10000000 * 10000000)

abbrev pub rounded_times : Times → Times
rounded_times t = record {
  creation = rounded t.creation;
  last_access = rounded t.last_access;
  last_write = rounded t.last_write;
}

abbrev pub after_query : Bool → Option Times → List Event
after_query sets none = closed ∷ query_failed ∷ []
after_query sets (some t) =
    if sets then set_time (rounded_times t) ∷ closed ∷ [] else set_failed ∷ closed ∷ []

-- One round of the loop, and `main` on its arguments.
unfoldable pub round_file : File → List Event
round_file file =
    if not file.opens then open_failed ∷ [] else opened ∷ after_query file.sets file.times

unfoldable pub round_files : List File → List Event
unfolding round_file
round_files [] = []
round_files (file ∷ files) = round_file file ++ round_files files

-- What `PrintAbsoluteTime` prints: the milliseconds with their fraction are units of 100 ns here.
pub data Field : Type 0 where
  weeks days : ℕ → Field
  clock : (hours minutes seconds units : ℕ) → Field

abbrev pub dword : ℕ → ℕ
dword n = n % 2 ^ 32

unfoldable pub print_absolute_time : ℕ → List Field
print_absolute_time time =
    let w = dword (time / 6048000000000) in
    let time1 = time % 6048000000000 in
    let d = dword (time1 / 864000000000) in
    let time2 = time1 % 864000000000 in
    let h = dword (time2 / 36000000000) in
    let time3 = time2 % 36000000000 in
    let m = dword (time3 / 600000000) in
    let time4 = time3 % 600000000 in
    let s = dword (time4 / 10000000) in
    let time5 = time4 % 10000000 in
    (if not (w == 0) then weeks w ∷ [] else [])
    ++ (if not (d == 0) then days d ∷ [] else [])
    ++ clock h m s time5 ∷ []
