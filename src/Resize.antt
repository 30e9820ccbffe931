-- ===== src/Resize.antt =====
-- win32/c/chsize32.c: sets the size of a file.
-- `sscanf` and the calls of Windows are parameters. A size has the 64 bits of the source's
-- `FileSize`, read without their sign; the messages and the text of the help are left out.
pub mod Sizes
use ltrdata.Prelude.{
  ℕ, ◌*◌, ◌%◌, ◌^◌, Bool, true, false, ◌||◌, not, Option, none, some, List, [], ◌∷◌, ◌==◌,
  if◌then◌else◌,
}

-- What `sscanf(text, "%I64i%c", …)` gives: nothing, a number, or a number and a character.
pub data Scan : Type 0 where
  no_number : Scan
  number : ℕ → Scan
  number_suffix : (n c : ℕ) → Scan

-- `FileSize.QuadPart <<= 10`
abbrev pub shift_ten : ℕ → ℕ
shift_ten n = n * 2 ^ 10 % 2 ^ 64

abbrev pub either : ℕ → ℕ → ℕ → Bool
either c a b = c == a || c == b

-- Each case of the switch falls through to the next one.
unfoldable pub with_suffix : ℕ → ℕ → Option ℕ
with_suffix n c =
    if c == 0
    then some n
    else if either c b'T' b't'
    then some (shift_ten (shift_ten (shift_ten (shift_ten n))))
    else if either c b'G' b'g'
    then some (shift_ten (shift_ten (shift_ten n)))
    else if either c b'M' b'm'
    then some (shift_ten (shift_ten n))
    else if either c b'K' b'k'
    then some (shift_ten n)
    else none

abbrev pub file_size : Scan → Option ℕ
file_size no_number = none
file_size (number n) = some n
file_size (number_suffix n c) = with_suffix n c

-- CreateFile, DeviceIoControl, SetFilePointer with what GetLastError gives behind it, and
-- SetEndOfFile.
pub record Volume (W : Type 0) : Type 0 where
  pub create_file : W → List ℕ → W × Option ℕ
  pub set_sparse : W → ℕ → W × Bool
  pub set_file_pointer : W → (handle size : ℕ) → W × (ℕ × ℕ)
  pub set_end_of_file : W → ℕ → W × Bool

-- `strcmpi(text, "-s") == 0`
abbrev pub is_sparse_option : List ℕ → Bool
is_sparse_option (c ∷ d ∷ []) = if c == b'-' then either d b's' b'S' else false
is_sparse_option _ = false

module _ {W : Type 0} (volume : Volume W) where
  -- The new world and the exit code.
  unfoldable pub after_pointer : ℕ → W × (ℕ × ℕ) → W × ℕ
  after_pointer handle (w, (low, error)) =
      let (w', ends) = volume.set_end_of_file w handle in
      if (if low == 0xffff_ffff then not (error == 0) else false)
      then (w, 1)
      else if ends
      then (w', 0)
      else (w', 1)

  -- A failure to make the file sparse gives a message only.
  unfoldable pub after_create : Bool → ℕ → W × Option ℕ → W × ℕ
  unfolding after_pointer
  after_create sparse size (w, none) = (w, 1)
  after_create sparse size (w, some handle) =
      let w' = if sparse then (volume.set_sparse w handle).0 else w in
      after_pointer handle (volume.set_file_pointer w' handle size)

  unfoldable pub resize : W → Bool → List ℕ → Option ℕ → W × ℕ
  unfolding after_create
  resize w sparse name none = (w, 1)
  resize w sparse name (some size) = after_create sparse size (volume.create_file w name)

  -- `main` on its arguments; without a file and a size it shows the help.
  unfoldable pub chsize : (List ℕ → Scan) → W → List (List ℕ) → W × ℕ
  unfolding resize
  chsize sscanf w (name ∷ size ∷ []) = resize w false name (file_size (sscanf size))
  chsize sscanf w (option ∷ name ∷ size ∷ []) =
      if is_sparse_option option then resize w true name (file_size (sscanf size)) else (w, 0)
  chsize sscanf w _ = (w, 0)
