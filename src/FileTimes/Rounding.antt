-- ===== src/FileTimes/Rounding.antt =====
-- The times that win32/c/roundft.c sets.
use ltrdata.Prelude.{
  ℕ, suc, ◌+◌, ◌*◌, ◌%◌, ◌^◌, ◌≤◌, ◌<◌, ◌≡◌, refl, Bool, true, false, Option, none, some, List, [],
  ◌∷◌, ◌++◌, ◌&&◌, ◌-◌, All, if◌then◌else◌, arith,
}
use ltrdata.FileTimes.{
  Times, File, Event, opened, closed, set_time, rounded, round_file, round_files,
}

-- More than two seconds are left before the 64 bits overflow.
abbrev pub Small : ℕ → Type 0
Small time = time + 2 * 10 ^ 7 ≤ 2 ^ 64

-- `time'` is the first whole second from `time` on, and is rounded to itself.
abbrev pub Whole : ℕ → ℕ → Type 0
Whole time time' =
    (time' % 10 ^ 7 ≡ 0) × (time ≤ time') × (time' < time + 10 ^ 7) × (rounded time' ≡ time')

rounded-Whole : (time : ℕ) → Small time → Whole time (rounded time)
unfolding rounded
rounded-Whole time small = (omega arith, omega arith, omega arith, omega arith)

abbrev pub SmallTimes : Times → Type 0
SmallTimes t = Small t.creation × Small t.last_access × Small t.last_write

abbrev pub WholeTimes : Times → Times → Type 0
WholeTimes t t' =
    Whole t.creation t'.creation
    × Whole t.last_access t'.last_access
    × Whole t.last_write t'.last_write

-- The times of the files that can be opened, queried and set.
abbrev pub reachable : File → List Times
reachable file = elim file.times [
  | none ↦ []
  | some t ↦ if file.opens && file.sets then t ∷ [] else []
]

abbrev pub reachable_times : List File → List Times
reachable_times [] = []
reachable_times (file ∷ files) = reachable file ++ reachable_times files

abbrev pub times_set : List Event → List Times
times_set [] = []
times_set (set_time t ∷ es) = t ∷ times_set es
times_set (_ ∷ es) = times_set es

-- How many handles are open after the events.
abbrev pub open_handles : ℕ → List Event → ℕ
open_handles n [] = n
open_handles n (opened ∷ es) = open_handles (suc n) es
open_handles n (closed ∷ es) = open_handles (n - 1) es
open_handles n (_ ∷ es) = open_handles n es

abbrev pub Each : (Times → Times → Type 0) → List Times → List Times → Type 0
Each P [] [] = Unit
Each P (x ∷ xs) (y ∷ ys) = P x y × Each P xs ys
Each P _ _ = ⊥

Result : List File → List Event → Type 0
Result files es = Each WholeTimes (reachable_times files) (times_set es) × (open_handles 0 es ≡ 0)

next_file :
    (opens : Bool) (times : Option Times) (sets : Bool) (files : List File) (es : List Event)
    → All SmallTimes
        (reachable_times (record { opens = opens; times = times; sets = sets } ∷ files))
    → (All SmallTimes (reachable_times files) → Result files es)
    → Result
        (record { opens = opens; times = times; sets = sets } ∷ files)
        (round_file (record { opens = opens; times = times; sets = sets }) ++ es)
unfolding round_file Result
next_file false none sets files es small rest = rest small
next_file false (some t) sets files es small rest = rest small
next_file true none sets files es small rest = rest small
next_file true (some t) false files es small rest = rest small
next_file true (some t) true files es ((c, a, w), small) rest =
    let (each, handles) = rest small in
    (((rounded-Whole _ c, rounded-Whole _ a, rounded-Whole _ w), each), handles)

-- Of the files whose times can all be rounded without overflow, those that can be opened, queried
-- and set get, one by one, times that are the first whole seconds from the old ones on, which a
-- second run keeps, and no other time is set; and every handle is closed again.
pub round_files-Each :
    (files : List File)
    → All SmallTimes (reachable_times files)
    → Each WholeTimes (reachable_times files) (times_set (round_files files))
      × (open_handles 0 (round_files files) ≡ 0)
unfolding round_files Result
round_files-Each [] small = (tt, refl)
round_files-Each (file ∷ files) small =
    next_file file.opens file.times file.sets files (round_files files) small
      (round_files-Each files)
