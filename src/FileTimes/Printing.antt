-- ===== src/FileTimes/Printing.antt =====
-- The fields that `PrintAbsoluteTime` prints make up the time.
use ltrdata.Prelude.{
  ℕ, ◌+◌, ◌*◌, ◌/◌, ◌%◌, ◌^◌, ◌<◌, ◌≡◌, not, List, [], ◌∷◌, ◌++◌, All, ◌==◌, if◌then◌else◌, inl,
  inr, Bool-cases, arith,
}
use ltrdata.FileTimes.{Field, weeks, days, clock, dword, print_absolute_time}

-- A minute has 60 seconds, and so on, and nothing that is 0 is printed in front.
abbrev pub Usual : Field → Type 0
Usual (weeks w) = 0 < w
Usual (days d) = (0 < d) × (d < 7)
Usual (clock h m s u) = (h < 24) × (m < 60) × (s < 60) × (u < 10 ^ 7)

abbrev pub units_of : Field → ℕ
units_of (weeks w) = w * (7 * 24 * 60 * 60 * 10 ^ 7)
units_of (days d) = d * (24 * 60 * 60 * 10 ^ 7)
units_of (clock h m s u) = ((h * 60 + m) * 60 + s) * 10 ^ 7 + u

abbrev pub total : List Field → ℕ
total [] = 0
total (f ∷ fs) = units_of f + total fs

-- Fields that make up a number of units.
Makes : ℕ → List Field → Type 0
Makes time fs = (total fs ≡ time) × All Usual fs

with_days :
    (d h m s u time : ℕ)
    → Usual (clock h m s u)
    → d < 7
    → units_of (days d) + units_of (clock h m s u) ≡ time
    → Makes time ((if not (d == 0) then days d ∷ [] else []) ++ clock h m s u ∷ [])
unfolding Makes
with_days d h m s u time usual less sum = elim (Bool-cases (d == 0)) [
  | inl none ↦ rw none (ground arith, (usual, tt))
  | inr some ↦ rw some (omega arith, ((ground arith, less), (usual, tt)))
]

-- The fields of a 64-bit time are in their usual ranges, and make up the time together.
pub print_absolute_time-total :
    (time : ℕ)
    → time < 2 ^ 64
    → (total (print_absolute_time time) ≡ time) × All Usual (print_absolute_time time)
unfolding print_absolute_time Makes
print_absolute_time-total time small =
    let w = dword (time / 6048000000000) in
    let time1 = time % 6048000000000 in
    let d = dword (time1 / 864000000000) in
    let time2 = time1 % 864000000000 in
    let h = dword (time2 / 36000000000) in
    let time3 = time2 % 36000000000 in
    let m = dword (time3 / 600000000) in
    let time4 = time3 % 600000000 in
    let s = dword (time4 / 10000000) in
    let (all, usual) =
      with_days d h m s (time4 % 10000000) time1
        (omega arith, omega arith, omega arith, omega arith) (omega arith) (omega arith) in
    elim (Bool-cases (w == 0)) [
      | inl none ↦ rw none (ground (arith, all), usual)
      | inr some ↦ rw some (omega (arith, all), (ground arith, usual))
    ]
