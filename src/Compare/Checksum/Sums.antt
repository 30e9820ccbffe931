-- ===== src/Compare/Checksum/Sums.antt =====
-- The checksums of win32/fdf/chkfile.c against one pass over the words of the whole file.

use ltrdata.Prelude.{
  ℕ, zero, suc, ◌+◌, ◌*◌, ◌%◌, ◌≤◌, ◌<◌, ◌≡◌, refl, sym, ap, ◌∙◌, ◌⊎◌, inl, inr, true, false, some,
  List, [], ◌∷◌, ◌++◌, arith, done, length, take, drop, length-take, length-drop, ltb, ltb→lt,
  ltb-zero, Bool-cases,
}
use native.Mathlib.Decide.{dec_lt}
use ltrdata.Compare.{File}
use ltrdata.Compare.Verdict.{OnDisk}
use ltrdata.Compare.Checksum.{
  words, Sums, add_word, sum_words, sum_buffer, after_sum_read, checksum_loop, get_file_checksum,
}
use ltrdata.Compare.Checksum.Words.{word_count, length-words, buffer_words, words-buffer}

-- One pass: the index of a word counts from zero again after each 2048 words.
abbrev pub sum_all : ℕ → List ℕ → Sums → Sums
sum_all i [] s = s
sum_all i (w ∷ ws) s = sum_all (i + 1) ws (add_word (i % 2048) w s)

sum_words-sum_all :
    (idx i : ℕ) (ws : List ℕ) (s : Sums)
    → i % 2048 ≡ idx
    → idx + length ws ≤ 2048
    → sum_words idx ws s ≡ sum_all i ws s
sum_words-sum_all idx i [] s e le = refl
sum_words-sum_all idx i (w ∷ []) s e le = rw e
sum_words-sum_all idx i (w ∷ v ∷ ws) s e le =
    rw e
      (sum_words-sum_all (idx + 1) (i + 1) (v ∷ ws) (add_word idx w s) (omega arith) (omega arith))

sum_all-append :
    (i : ℕ) (ws vs : List ℕ) (s : Sums)
    → sum_all i (ws ++ vs) s ≡ sum_all (i + length ws) vs (sum_all i ws s)
sum_all-append i [] vs s = let e : i + 0 ≡ i = omega arith in rw e
sum_all-append i (w ∷ ws) vs s =
    let e : i + suc (length ws) ≡ i + 1 + length ws = omega arith in
    rw e (sum_all-append (i + 1) ws vs (add_word (i % 2048) w s))

sum_all-mod :
    (i j : ℕ) (ws : List ℕ) (s : Sums) → i % 2048 ≡ j % 2048 → sum_all i ws s ≡ sum_all j ws s
sum_all-mod i j [] s e = refl
sum_all-mod i j (w ∷ ws) s e =
    rw e (sum_all-mod (i + 1) (j + 1) ws (add_word (j % 2048) w s) (omega arith))

rest_lem :
    (n m : ℕ) (c : List ℕ) (s : Sums)
    → (n ≡ 2048) ⊎ (m ≡ 0)
    → sum_all n (words m c) s ≡ sum_all 0 (words m c) s
rest_lem n m c s (inl e) = sum_all-mod n 0 (words m c) s (omega arith)
rest_lem n m c s (inr e) = rw e

module _ {H : Type 0} {file : File H} (k : ℕ) (d : OnDisk file (8 * k)) (all : k ≡ 2048) where
  -- One round at a handle where a buffer can be read, and the end.
  round_lem :
      (fuel : ℕ) (h : H) (s : Sums) (bytes : List ℕ)
      → (file.read h).1 ≡ some bytes
      → ltb 0 (length bytes) ≡ true
      → checksum_loop file (suc fuel) h s
        ≡ checksum_loop file fuel (file.read h).0 (sum_buffer bytes s)
  unfolding checksum_loop after_sum_read
  round_lem fuel h s [] read more = absurd (ground arith)
  round_lem fuel h s (b ∷ bs) read more = rw (checksum_loop, read)

  end_lem :
      (fuel : ℕ) (h : H) (s : Sums) (bytes : List ℕ)
      → (file.read h).1 ≡ some bytes
      → ltb 0 (length bytes) ≡ false
      → checksum_loop file (suc fuel) h s ≡ done (true, s)
  unfolding checksum_loop after_sum_read
  end_lem fuel h s [] read none_left = rw (checksum_loop, read)
  end_lem fuel h s (b ∷ bs) read none_left = absurd (ground arith)

  -- A buffer's sums, and those of the rest of the file, are the sums of both.
  sum_both :
      (c : List ℕ) (s : Sums)
      → sum_all 0
          (words (word_count (length (drop (8 * k) c))) (drop (8 * k) c))
          (sum_buffer (take (8 * k) c) s)
        ≡ sum_all 0 (words (word_count (length c)) c) s
  unfolding sum_buffer
  sum_both c s =
      let first : List ℕ = words (word_count (length (take (8 * k) c))) (take (8 * k) c) in
      let count : ℕ = word_count (length (drop (8 * k) c)) in
      let size : length first ≡ word_count (length (take (8 * k) c)) =
        length-words (word_count (length (take (8 * k) c))) (take (8 * k) c) in
      let sums : sum_buffer (take (8 * k) c) s ≡ sum_all 0 first s =
        rw (sum_buffer, buffer_words (take (8 * k) c))
          (sum_words-sum_all 0 0 first s refl (omega (arith, size, length-take (8 * k) c))) in
      ap (sum_all 0 (words count (drop (8 * k) c))) sums
      ∙ sym (rest_lem (0 + length first) count (drop (8 * k) c) (sum_all 0 first s) (ends size))
      ∙ sym (sum_all-append 0 first (words count (drop (8 * k) c)) s)
      ∙ ap (λ ws. sum_all 0 ws s) (sym (words-buffer k c))
    where
      ends :
          {n : ℕ}
          → n ≡ word_count (length (take (8 * k) c))
          → (0 + n ≡ 2048) ⊎ (word_count (length (drop (8 * k) c)) ≡ 0)
      ends size = elim (dec_lt (length c) (8 * k)) [
        | yes short ↦ inr (omega (arith, length-drop (8 * k) c))
        | no long ↦ inl (omega (arith, length-take (8 * k) c))
      ]

  checksum_loop-sum_all :
      (fuel : ℕ) (h : H) (s : Sums)
      → length (d.contents h) < fuel
      → checksum_loop file fuel h s
        ≡ done (true, sum_all 0 (words (word_count (length (d.contents h))) (d.contents h)) s)
  checksum_loop-sum_all zero h s enough = absurd (omega arith)
  checksum_loop-sum_all (suc fuel) h s enough =
      let c : List ℕ = d.contents h in
      let bytes : List ℕ = take (8 * k) c in
      elim (Bool-cases (ltb 0 (length bytes))) [
        | inl more ↦
            let less : length (d.contents (file.read h).0) < fuel = omega (
              arith,
              ap length (d.advances h),
              length-drop (8 * k) c,
              ltb→lt _ _ more,
              length-take (8 * k) c,
            ) in
            round_lem fuel h s bytes (d.returns h) more
            ∙ checksum_loop-sum_all fuel (file.read h).0 (sum_buffer bytes s) less
            ∙ ap
                (λ l. done (true, sum_all 0 (words (word_count (length l)) l) (sum_buffer bytes s)))
                (d.advances h)
            ∙ ap (λ t. done (true, t)) (sum_both c s)
        | inr nothing ↦
            let empty : word_count (length c) ≡ 0 =
              omega (arith, length-take (8 * k) c, ltb-zero (length bytes) nothing) in
            end_lem fuel h s bytes (d.returns h) nothing
            ∙ ap (λ m. done (true, sum_all 0 (words m c) s)) (sym empty)
      ]

-- Of a file on a disk that is read in buffers of 16384 bytes, `get_file_checksum` computes the sums
-- over the words of its contents, the last filled up with zeros, with the index of a word counted
-- from zero again after each 2048 words; fuel above the length of the file is enough.
pub get_file_checksum-sum_all :
    {H : Type 0} {file : File H}
    → (d : OnDisk file 16384) (fuel : ℕ) (h : H) → length (d.contents h) < fuel
    → get_file_checksum file fuel h
      ≡ done (true, sum_all 0 (words (word_count (length (d.contents h))) (d.contents h)) (0, 0))
unfolding get_file_checksum
get_file_checksum-sum_all d fuel h enough = checksum_loop-sum_all 2048 d refl fuel h (0, 0) enough
