-- ===== src/Compare/Checksum/Words.antt =====
-- The words of a buffer and of a file in win32/fdf/chkfile.c.
use mathlib.Core.List.{append-nil}
use ltrdata.Prelude.{
  drop-nil, drop-drop, zeros, ℕ, zero, suc, ◌+◌, ◌-◌, ◌*◌, ◌/◌, ◌%◌, ◌≤◌, ◌≡◌, refl, sym, ap, ◌∙◌,
  inl, inr, List, [], ◌∷◌, ◌++◌, arith, length, take, drop, length-take, length-drop, length-append,
  ◌==◌, ==_iff, Bool-cases,
}
use native.Mathlib.Decide.{dec_lt}
use ltrdata.Compare.Checksum.{word, words, padded}

-- How many words `n` bytes fill, the last perhaps in part.
abbrev pub word_count : ℕ → ℕ
word_count n = (n + 7) / 8

take-nil : (n : ℕ) → take {A = ℕ} n [] ≡ []
take-nil zero = refl
take-nil (suc n) = refl

word-zeros : (n m : ℕ) → word (take n (zeros m)) ≡ 0
word-zeros zero m = refl
word-zeros (suc n) zero = refl
word-zeros (suc n) (suc m) = rw (word-zeros n m) (omega arith)

word-pad : (n m : ℕ) (bytes : List ℕ) → word (take n (bytes ++ zeros m)) ≡ word (take n bytes)
word-pad zero m bytes = refl
word-pad (suc n) m [] = word-zeros (suc n) m
word-pad (suc n) m (b ∷ bs) = rw (word-pad n m bs)

drop-pad :
    (n m : ℕ) (bytes : List ℕ) → (k : ℕ) × (drop n (bytes ++ zeros m) ≡ drop n bytes ++ zeros k)
drop-pad zero m bytes = (m, refl)
drop-pad (suc n) zero [] = (0, refl)
drop-pad (suc n) (suc m) [] =
    let (k, e) = drop-pad n m [] in (k, e ∙ ap (λ l. l ++ zeros k) (drop-nil n))
drop-pad (suc n) m (b ∷ bs) = drop-pad n m bs

words-pad : (n m : ℕ) (bytes : List ℕ) → words n (bytes ++ zeros m) ≡ words n bytes
words-pad zero m bytes = refl
words-pad (suc n) m bytes =
    let (k, e) = drop-pad 8 m bytes in rw (word-pad 8 m bytes, e, words-pad n k (drop 8 bytes))

take-take : (m n : ℕ) (c : List ℕ) → m ≤ n → take m (take n c) ≡ take m c
take-take zero n c le = refl
take-take (suc m) zero c le = absurd (omega arith)
take-take (suc m) (suc n) [] le = refl
take-take (suc m) (suc n) (x ∷ c) le = ap (◌∷◌ x) (take-take m n c (omega arith))

drop-take : (m n : ℕ) (c : List ℕ) → drop m (take (m + n) c) ≡ take n (drop m c)
drop-take zero n c = let e : 0 + n ≡ n = omega arith in rw e
drop-take (suc m) n [] = let e : suc m + n ≡ suc (m + n) = omega arith in rw e (sym (take-nil n))
drop-take (suc m) n (x ∷ c) =
    let e : suc m + n ≡ suc (m + n) = omega arith in rw e (drop-take m n c)

words-take : (n m : ℕ) (c : List ℕ) → 8 * n ≤ m → words n (take m c) ≡ words n c
words-take zero m c le = refl
words-take (suc n) m c le =
    let e : 8 + (m - 8) ≡ m = omega arith in
    let d : drop 8 (take m c) ≡ take (m - 8) (drop 8 c) =
      ap (λ k. drop 8 (take k c)) (sym e) ∙ drop-take 8 (m - 8) c in
    rw (take-take 8 m c (omega arith), d, words-take n (m - 8) (drop 8 c) (omega arith))

words-split : (m n : ℕ) (c : List ℕ) → words (m + n) c ≡ words m c ++ words n (drop (8 * m) c)
words-split zero n c = let e : 0 + n ≡ n = omega arith in rw e
words-split (suc m) n c =
    let e : suc m + n ≡ suc (m + n) = omega arith in
    let k : 8 * suc m ≡ 8 + 8 * m = omega arith in
    rw (e, k, words-split m n (drop 8 c), drop-drop 8 (8 * m) c)

pub length-words : (n : ℕ) (bytes : List ℕ) → length (words n bytes) ≡ n
length-words zero bytes = refl
length-words (suc n) bytes = ap suc (length-words n (drop 8 bytes))

length-zeros : (n : ℕ) → length (zeros n) ≡ n
length-zeros zero = refl
length-zeros (suc n) = ap suc (length-zeros n)

pub buffer_words :
    (bytes : List ℕ)
    → words (length (padded bytes) / 8) (padded bytes) ≡ words (word_count (length bytes)) bytes
unfolding padded
buffer_words bytes = elim (Bool-cases (length bytes % 8 == 0)) [
  | inl e ↦
      let whole : length bytes % 8 ≡ 0 = (==_iff _ 0).0 e in
      let n : length bytes / 8 ≡ (length bytes + 7) / 8 = omega arith in rw (padded, e, n)
  | inr e ↦
      let part : ¬ (length bytes % 8 ≡ 0) = λ z. cc (e, (==_iff (length bytes % 8) 0).1 z) in
      let n : length (bytes ++ zeros (8 - length bytes % 8)) / 8 ≡ (length bytes + 7) / 8 = omega (
        arith,
        length-append bytes (zeros (8 - length bytes % 8)),
        length-zeros (8 - length bytes % 8),
      ) in
      rw (padded, e, n) (words-pad ((length bytes + 7) / 8) (8 - length bytes % 8) bytes)
]

-- A buffer in front of the rest of a file, in words.
pub words-buffer :
    (k : ℕ) (c : List ℕ)
    → words (word_count (length c)) c
      ≡ words (word_count (length (take (8 * k) c))) (take (8 * k) c)
        ++ words (word_count (length (drop (8 * k) c))) (drop (8 * k) c)
words-buffer k c = elim (dec_lt (length c) (8 * k)) [
  | yes short ↦
      let n : word_count (length (take (8 * k) c)) ≡ word_count (length c) =
        omega (arith, length-take (8 * k) c) in
      let z : word_count (length (drop (8 * k) c)) ≡ 0 = omega (arith, length-drop (8 * k) c) in
      rw (n, z, words-take (word_count (length c)) (8 * k) c (omega arith)) (sym (append-nil _))
  | no long ↦
      let n : word_count (length (take (8 * k) c)) ≡ k = omega (arith, length-take (8 * k) c) in
      let all : word_count (length c) ≡ k + word_count (length (drop (8 * k) c)) =
        omega (arith, length-drop (8 * k) c) in
      ap (λ m. words m c) all
      ∙ words-split k (word_count (length (drop (8 * k) c))) c
      ∙ sym (rw (n, words-take k (8 * k) c (omega arith)))
]
