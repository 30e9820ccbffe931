-- ===== src/Strip/Slices.antt =====
-- Runs of bytes of a buffer that is read by index.
use ltrdata.Prelude.{
  ℕ, zero, suc, ◌+◌, ◌≤◌, ◌≡◌, refl, sym, ap, ◌∙◌, List, [], ◌∷◌, ◌++◌, arith, length, get_or, take,
  drop, take-length, drop-eq-cons,
}

-- The bytes `orig e`, …, `orig (e + n - 1)`.
abbrev pub slice : (ℕ → ℕ) → ℕ → ℕ → List ℕ
slice orig e zero = []
slice orig e (suc n) = orig e ∷ slice orig (e + 1) n

pub slice-suc :
    (orig : ℕ → ℕ) (e n : ℕ) → slice orig e (suc n) ≡ slice orig e n ++ orig (e + n) ∷ []
slice-suc orig e zero = let h : e + 0 ≡ e = omega arith in rw h
slice-suc orig e (suc n) =
    let h : e + suc n ≡ e + 1 + n = omega arith in
    rw h (ap (◌∷◌ (orig e)) (slice-suc orig (e + 1) n))

pub take-drop-slice :
    (bytes : List ℕ) (e n : ℕ)
    → e + n ≤ length bytes
    → take n (drop e bytes) ≡ slice (λ i. get_or bytes i 0) e n
take-drop-slice bytes e zero h = refl
take-drop-slice bytes e (suc n) h =
    rw (drop-eq-cons bytes e 0 (omega arith))
      (ap (◌∷◌ (get_or bytes e 0)) (take-drop-slice bytes (e + 1) n (omega arith)))

pub slice_whole : (bytes : List ℕ) → slice (λ i. get_or bytes i 0) 0 (length bytes) ≡ bytes
slice_whole bytes = sym (take-drop-slice bytes 0 (length bytes) (omega arith)) ∙ take-length bytes

pub slice_ext : (f g : ℕ → ℕ) (e n : ℕ) → ((j : ℕ) → e ≤ j → f j ≡ g j) → slice f e n ≡ slice g e n
slice_ext f g e zero h = refl
slice_ext f g e (suc n) h =
    rw (h e (omega arith), slice_ext f g (e + 1) n (λ j le. h j (omega arith)))
