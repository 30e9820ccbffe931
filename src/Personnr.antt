-- ===== src/Personnr.antt =====
-- win32/c/personnr.c: checks a Swedish personal or organisation number.
-- `SystemTimeToFileTime` is not part of the repository: `valid_date year month day` tells whether
-- it accepts the date.
pub mod Luhn
pub mod Dates
use Prim.Native.Nat.{bit_and}
use ltrdata.Prelude.{
  ℕ, zero, suc, ◌+◌, ◌-◌, ◌*◌, ◌/◌, ◌%◌, ◌^◌, Bool, true, false, not, ◌&&◌, ◌||◌, List, [], ◌∷◌,
  ◌++◌, Run, done, trap, ◌>>=◌, Option, none, some, length, get_elem?, get_or, take, drop, ◌==◌,
  leb, if◌then◌else◌,
}
use ltrdata.Stdlib.{print_u, strtoul_auto}

-- `c & 0xCF`
abbrev pub figure : ℕ → ℕ
figure c = bit_and c 0xCF

-- `sprintf(buf, "%u", …)`, then the sum over the characters of `buf`.
abbrev pub sum_figures : List ℕ → ℕ
sum_figures [] = 0
sum_figures (c ∷ cs) = figure c + sum_figures cs

abbrev pub doubled : ℕ → List ℕ
doubled c = print_u (figure c * 2)

-- The checksum over the characters from position `count` on.
unfoldable pub checksum_from : ℕ → List ℕ → ℕ
checksum_from count [] = 0
checksum_from count (c ∷ cs) =
    (if count % 2 == 1 then figure c else sum_figures (doubled c)) + checksum_from (count + 1) cs

-- Whether some `sprintf` of the loop stored the third byte of `buf`: one that printed two digits.
unfoldable pub stores_third : ℕ → List ℕ → Bool
stores_third count [] = false
stores_third count (c ∷ cs) =
    (not (count % 2 == 1) && leb 2 (length (doubled c))) || stores_third (count + 1) cs

pub data Kind : Type 0 where
  man woman organisation : Kind

pub data Verdict : Type 0 where
  correct : Verdict
  should_be : ℕ → Verdict

-- `10 - last digit`, with 10 read as 0.
unfoldable pub check_figure : ℕ → ℕ
check_figure checksum =
    let text = print_u checksum in
    let checkfig = 10 - figure (get_or text (length text - 1) 0) in
    if checkfig == 10 then 0 else checkfig

module _ (valid_date : ℕ → ℕ → ℕ → Bool) where
  -- The date's parts go through `buf`, by `strncpy` of two characters in front of its third byte.
  unfoldable pub kind_of : List ℕ → Kind
  kind_of buffer =
      let year = (strtoul_auto (take 2 buffer) + 1900) % 2 ^ 16 in
      let month = strtoul_auto (take 2 (drop 2 buffer)) % 2 ^ 16 in
      let day = strtoul_auto (take 2 (drop 4 buffer)) % 2 ^ 16 in
      if valid_date year month day
      then if get_or buffer 8 0 % 2 == 1 then man else woman
      else organisation

  -- `main` on the line that was typed, without its newline. A line of less than ten characters
  -- leaves parts of `buffer` unset, and with no two-digit product the third byte of `buf` is unset.
  unfoldable pub personnr : List ℕ → Run (Kind × Verdict)
  unfolding checksum_from stores_third kind_of check_figure
  personnr buffer =
      let checkfig = check_figure (checksum_from 0 (take 9 buffer)) in
      let verdict =
        if checkfig == figure (get_or buffer 9 0) then correct else should_be checkfig in
      if leb 10 (length buffer) && stores_third 0 (take 9 buffer)
      then done (kind_of buffer, verdict)
      else trap
