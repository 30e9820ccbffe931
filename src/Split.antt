-- ===== src/Split.antt =====
-- win32/c/fsplit32.c: splits a file into numbered pieces.
-- The file system is not part of the repository: `Files` has the calls that the loop makes. The
-- results of `open` on the input file, of `malloc` and of `filelength` are parameters.
pub mod Held
pub mod Pieces
use Prim.Native.Nat.{bit_or}
use ltrdata.Prelude.{
  ℕ, zero, suc, ◌+◌, ◌%◌, ◌^◌, Bool, true, false, not, Option, none, some, List, [], ◌∷◌, ◌++◌, Run,
  done, trap, spin, length, take, get_or, ◌==◌, ltb, if◌then◌else◌,
}
use ltrdata.Stdlib.{print_u, strtoul_ten}

pub data Status : Type 0 where
  noerr nofiles inferr outferr memerr inftoosmall fragtoosmall outfwrerr : Status

-- `warned`: fewer bytes were written than the file has.
pub data Ending : Type 0 where
  ended : Status → Ending
  finished : (pieces : ℕ) (warned : Bool) → Ending

-- `none` is -1. A piece is written by its name, since it is open only for one write. `create` opens
-- it with O_CREAT and without O_TRUNC: a file that exists is not cut.
pub record Files (W : Type 0) : Type 0 where
  pub read : W → ℕ → W × Option (List ℕ)
  pub create : W → List ℕ → W × Bool
  pub write : W → List ℕ → List ℕ → W × Option ℕ
  pub unlink : W → List ℕ → W

abbrev pub max_path : ℕ
max_path = 260

-- The name that `ultoa` completes, without its NUL.
unfoldable pub piece_name : List ℕ → ℕ → List ℕ
piece_name template n = template ++ b'.' ∷ print_u n

module _ {W : Type 0} where
  -- What follows a `read`.
  unfoldable pub after_read :
      W × Option (List ℕ)
      → (W → Run (W × Ending))
      → (W → List ℕ → Run (W × Ending))
      → Run (W × Ending)
  after_read (w, none) at_end k = done (w, ended inferr)
  after_read (w, some []) at_end k = at_end w
  after_read (w, some (c ∷ cs)) at_end k = k w (c ∷ cs)

  -- What follows the `open` of a piece.
  unfoldable pub after_create : W × Bool → (W → Run (W × Ending)) → Run (W × Ending)
  after_create (w, false) k = done (w, ended outferr)
  after_create (w, true) k = k w

  -- What follows the `write` of `bytesread` bytes: one of another count, -1 included, is an error.
  unfoldable pub after_write :
      ℕ → W × Option ℕ → (W → W) → (W → Run (W × Ending)) → Run (W × Ending)
  after_write bytesread (w, none) unlink k = done (unlink w, ended outferr)
  after_write bytesread (w, some n) unlink k =
      if n == bytesread then k w else done (unlink w, ended outferr)

module _ {W : Type 0} (files : Files W) (template : List ℕ) (outfsiz filelength : ℕ) where
  -- The loop, with `filecou` and `written`. A name that is too long for `OutFile` is undefined.
  unfoldable pub split_loop : ℕ → ℕ → ℕ → W → Run (W × Ending)
  split_loop zero filecou written w = spin
  split_loop (suc fuel) filecou written w =
      after_read (files.read w outfsiz)
        (λ w'. done (w', finished filecou (not (written == filelength % 2 ^ 32))))
        (λ w' bytes.
          let n = (filecou + 1) % 2 ^ 32 in
          let name = piece_name template n in
          if ltb (length name) max_path
          then after_create (files.create w' name) (λ w''.
            after_write (length bytes) (files.write w'' name bytes) (λ v. files.unlink v name)
              (split_loop fuel n ((written + length bytes) % 2 ^ 32)))
          else trap)

-- A leading '-' or '/'.
abbrev pub is_option : List ℕ → Bool
is_option name = bit_or (get_or name 0 0) 2 == b'/'

abbrev pub outfile : List ℕ → List (List ℕ) → List ℕ
outfile infile [] = take 259 infile
outfile infile (name ∷ rest) = take 259 name

abbrev pub fragment_size : List (List ℕ) → ℕ
fragment_size (name ∷ size ∷ rest) = strtoul_ten size
fragment_size _ = 1457664

module _ {W : Type 0} (files : Files W) (opens : Bool) (malloc : ℕ → Bool) (filelength : ℕ) where
  -- `main` from the point on where the names are known.
  unfoldable pub split_file : ℕ → List ℕ → List (List ℕ) → W → Run (W × Ending)
  split_file fuel infile rest w =
      let template = outfile infile rest in
      let outfsiz = fragment_size rest in
      if get_or template 0 0 == 0
      then done (w, ended nofiles)
      else if outfsiz == 0
      then done (w, ended fragtoosmall)
      else if malloc outfsiz
      then if opens
        then split_loop files template outfsiz filelength fuel 0 0 w
        else done (w, ended inferr)
      else done (w, ended memerr)

  -- `main` on `argv` from `argv[1]` on. The help is printed with status NOERR.
  unfoldable pub fsplit : ℕ → List (List ℕ) → W → Run (W × Ending)
  fsplit fuel [] w = done (w, ended noerr)
  fsplit fuel (infile ∷ rest) w =
      if is_option infile
      then done (w, ended noerr)
      else if get_or infile 0 0 == 0
      then done (w, ended nofiles)
      else split_file fuel infile rest w
