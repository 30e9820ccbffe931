-- ===== src/Prelude/Splice.antt =====
-- Bytes written over a file at a position in it.
use mathlib.Core.List.{append-nil, append_assoc}
use ltrdata.Prelude.{
  ℕ, zero, suc, ◌+◌, ◌-◌, ◌≤◌, ◌≡◌, refl, sym, ap, ◌∙◌, List, [], ◌++◌, length, take, drop, zeros,
  arith, length-append, length-take, length-drop, take-append, take-append-drop, take-all, drop-all,
  drop-drop, drop-append,
}

unfoldable pub splice : List ℕ → ℕ → List ℕ → List ℕ
splice file p bs = take p file ++ (bs ++ drop (p + length bs) file)

-- The file with its end at `n`.
unfoldable pub resized : List ℕ → ℕ → List ℕ
resized file n = take n file ++ zeros (n - length file)

length-zeros : (n : ℕ) → length (zeros n) ≡ n
length-zeros zero = refl
length-zeros (suc n) = ap suc (length-zeros n)

length-take_le : (p : ℕ) (file : List ℕ) → p ≤ length file → length (take p file) ≡ p
length-take_le p file h = omega (arith, length-take p file)

pub splice-nil : (file : List ℕ) (p : ℕ) → splice file p [] ≡ file
unfolding splice
splice-nil file p = let e : p + 0 ≡ p = omega arith in rw e (take-append-drop p file)

pub splice-splice :
    (file : List ℕ) (p : ℕ) (xs ys : List ℕ)
    → p ≤ length file
    → splice (splice file p xs) (p + length xs) ys ≡ splice file p (xs ++ ys)
unfolding splice
splice-splice file p xs ys inside =
    let a : List ℕ = take p file in
    let c : List ℕ = drop (p + length xs) file in
    let front : length (a ++ xs) ≡ p + length xs =
      omega (arith, length-append a xs, length-take_le p file inside) in
    let taken : take (p + length xs) (a ++ (xs ++ c)) ≡ a ++ xs =
      ap (take (p + length xs)) (sym (append_assoc a xs c)) ∙ take-append (a ++ xs) c front in
    let left : drop (p + length xs + length ys) (a ++ (xs ++ c)) ≡ drop (length ys) c =
      ap (drop (p + length xs + length ys)) (sym (append_assoc a xs c))
      ∙ ap (λ k. drop (k + length ys) (a ++ xs ++ c)) (sym front)
      ∙ drop-append (a ++ xs) c (length ys) in
    let all : p + length xs + length ys ≡ p + length (xs ++ ys) =
      omega (arith, length-append xs ys) in
    rw (taken, left, drop-drop (p + length xs) (length ys) file, all)
      (append_assoc a xs (ys ++ drop (p + length (xs ++ ys)) file)
        ∙ ap (◌++◌ a) (sym (append_assoc xs ys (drop (p + length (xs ++ ys)) file))))

pub length-splice :
    (file : List ℕ) (p : ℕ) (bs : List ℕ)
    → p ≤ length file
    → length (splice file p bs) ≡ p + length bs + (length file - (p + length bs))
unfolding splice
length-splice file p bs inside =
    let e = length-append (take p file) (bs ++ drop (p + length bs) file) in
    let b = length-append bs (drop (p + length bs) file) in
    let t = length-take_le p file inside in let d = length-drop (p + length bs) file in omega arith

-- Writing what is there already.
pub splice-same :
    (file : List ℕ) (p n : ℕ) → p + n ≤ length file → splice file p (take n (drop p file)) ≡ file
unfolding splice
splice-same file p n inside =
    let e : length (take n (drop p file)) ≡ n =
      omega (arith, length-take n (drop p file), length-drop p file) in
    rw (e, sym (drop-drop p n file), take-append-drop n (drop p file)) (take-append-drop p file)

-- Zeros behind the end of the file.
pub splice-zeros :
    (file : List ℕ) (p n : ℕ) → length file ≡ p → splice file p (zeros n) ≡ resized file (p + n)
unfolding splice resized
splice-zeros file p n end =
    let len = length-zeros n in
    let all : p + n - length file ≡ n = omega arith in
    rw
      (
        take-all p file (omega arith),
        take-all (p + n) file (omega arith),
        all,
        drop-all (p + length (zeros n)) file (omega arith),
      )
      (ap (◌++◌ file) (append-nil (zeros n)))

-- What is written over other bytes at the same position.
pub splice-over :
    (file : List ℕ) (p : ℕ) (xs ys : List ℕ)
    → p ≤ length file
    → length xs ≤ length ys
    → splice (splice file p xs) p ys ≡ splice file p ys
unfolding splice
splice-over file p xs ys inside covers =
    let a = take p file in
    let c = drop (p + length xs) file in
    let front : length a ≡ p = length-take_le p file inside in
    let more : length ys ≡ length xs + (length ys - length xs) = omega arith in
    let all : p + length xs + (length ys - length xs) ≡ p + length ys = omega arith in
    let behind : drop (p + length ys) (a ++ (xs ++ c)) ≡ drop (p + length ys) file =
      ap (λ k. drop (k + length ys) (a ++ (xs ++ c))) (sym front)
      ∙ drop-append a (xs ++ c) (length ys)
      ∙ ap (λ k. drop k (xs ++ c)) more
      ∙ drop-append xs c (length ys - length xs)
      ∙ drop-drop (p + length xs) (length ys - length xs) file
      ∙ ap (λ k. drop k file) all in
    rw (take-append a (xs ++ c) front, behind) refl
