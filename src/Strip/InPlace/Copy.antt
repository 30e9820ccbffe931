-- ===== src/Strip/InPlace/Copy.antt =====
-- `memmove` to an earlier place in the same file.
use ltrdata.Prelude.{
  ℕ, ◌+◌, ◌-◌, ◌≤◌, ◌<◌, ◌≡◌, sym, ap, ◌∙◌, List, ◌++◌, arith, length, get_or, take, drop,
  length-append, length-take, length-drop, take-append, get_or-append_right, get_or-drop,
  get_or-append_left, get_or-take,
}
use mathlib.Core.List.{append_assoc}
use ltrdata.Strip.InPlace.{memmove}

module _ (file : List ℕ) (dst src n : ℕ) (le : dst ≤ src) (fits : src + n ≤ length file) where
  abbrev front : List ℕ
  front = take dst file ++ take n (drop src file)

  memmove-front : memmove file dst src n ≡ front ++ drop (dst + n) file
  memmove-front = sym (append_assoc (take dst file) (take n (drop src file)) (drop (dst + n) file))

  length-front : length front ≡ dst + n
  length-front = omega (
    arith,
    length-append (take dst file) (take n (drop src file)),
    length-take dst file,
    length-take n (drop src file),
    length-drop src file,
  )

  pub length-memmove : length (memmove file dst src n) ≡ length file
  length-memmove =
      ap length memmove-front
      ∙ omega (
        arith,
        length-append front (drop (dst + n) file),
        length-front,
        length-drop (dst + n) file,
      )

  pub take-memmove : take (dst + n) (memmove file dst src n) ≡ front
  take-memmove =
      ap (take (dst + n)) memmove-front ∙ take-append front (drop (dst + n) file) length-front

  pub get_or-memmove : (j : ℕ) → dst + n ≤ j → get_or (memmove file dst src n) j 0 ≡ get_or file j 0
  get_or-memmove j h =
      ap (λ l. get_or l j 0) memmove-front
      ∙ get_or-append_right front (drop (dst + n) file) j 0 (omega (arith, length-front))
      ∙ get_or-drop (dst + n) file (j - length front) 0
      ∙ ap (λ k. get_or file k 0) (omega (arith, length-front))

  -- The bytes before the target stay, and the target gets the source's.
  pub get_or-memmove_before :
      (j : ℕ) → j < dst → get_or (memmove file dst src n) j 0 ≡ get_or file j 0
  get_or-memmove_before j h =
      get_or-append_left (take dst file) (take n (drop src file) ++ drop (dst + n) file) j 0
        (omega (arith, length-take dst file))
      ∙ get_or-take dst file j 0 h

  pub get_or-memmove_moved :
      (i : ℕ) → i < n → get_or (memmove file dst src n) (dst + i) 0 ≡ get_or file (src + i) 0
  get_or-memmove_moved i h =
      get_or-append_right (take dst file) (take n (drop src file) ++ drop (dst + n) file) (dst + i)
        0 (omega (arith, length-take dst file))
      ∙ ap (λ k. get_or (take n (drop src file) ++ drop (dst + n) file) k 0)
          (omega (arith, length-take dst file))
      ∙ get_or-append_left (take n (drop src file)) (drop (dst + n) file) i 0
          (omega (arith, length-take n (drop src file), length-drop src file))
      ∙ get_or-take n (drop src file) i 0 h
      ∙ get_or-drop src file i 0
