-- ===== src/Strip/Stream.antt =====
-- The filter of win32/c/stripcr.c: `main` with no argument, and `wrstdout`.
-- `write` is the system call on standard output: the new world, and the count that it returns.
-- What `read` returns, call by call, is a list: `none` is -1, and an empty list is the end of the
-- input, as is the end of the list of calls.
pub mod Laws
use ltrdata.Prelude.{
  ℕ, Bool, true, false, Option, none, some, List, [], ◌∷◌, ◌++◌, length, get_or, take, drop, ◌==◌,
  if◌then◌else◌,
}
use ltrdata.Prelude.Int.{ℤ, pos, negsuc}
use ltrdata.Strip.{convert}

-- C's `==` between a signed count and a length.
abbrev is_count : ℤ → ℕ → Bool
is_count (pos k) n = k == n
is_count (negsuc k) n = false

-- `if (!convert(…)) { …; return 1; }`, and what follows it.
abbrev pub if_converted : {W : Type 0} → W × Bool → (W → W × ℕ) → W × ℕ
if_converted (w, true) k = k w
if_converted (w, false) k = (w, 1)

module _ {W : Type 0} (write : W → List ℕ → W × ℤ) where
  pub wrstdout : W → List ℕ → W × Bool
  wrstdout w bytes = let (w', k) = write w bytes in (w', is_count k (length bytes))

  -- `convert(wrstdout, buffer, length)`, with pointers into `buffer`.
  unfoldable pub convert_buffer : List ℕ → W → W × Bool
  unfolding wrstdout
  convert_buffer buffer =
      convert (λ w i. get_or buffer i 0) (λ w e n. wrstdout w (take n (drop e buffer)))
        (length buffer)

  -- The loop of `main`, with the process's exit status.
  unfoldable pub filter_input : List (Option (List ℕ)) → W → W × ℕ
  filter_input [] w = (w, 0)
  filter_input (none ∷ rs) w = (w, 1)
  filter_input (some [] ∷ rs) w = (w, 0)
  filter_input (some (c ∷ cs) ∷ rs) w =
      if_converted (convert_buffer (c ∷ cs) w) (λ w'. filter_input rs w')

-- The bytes that were read before the end or an error, and whether it was an error.
abbrev pub received : List (Option (List ℕ)) → List ℕ
received [] = []
received (none ∷ rs) = []
received (some [] ∷ rs) = []
received (some (c ∷ cs) ∷ rs) = (c ∷ cs) ++ received rs

abbrev pub exit_status : List (Option (List ℕ)) → ℕ
exit_status [] = 0
exit_status (none ∷ rs) = 1
exit_status (some [] ∷ rs) = 0
exit_status (some (c ∷ cs) ∷ rs) = exit_status rs
