-- ===== src/Replace/Positions.antt =====
-- The loop of `process` in win32/cpp/reptxt32.cpp as a pass over the bytes without positions.
use mathlib.Core.List.{append_assoc}
use ltrdata.Prelude.{
  ℕ, zero, suc, ◌+◌, ◌%◌, ◌^◌, ◌≤◌, ◌<◌, ◌≡◌, refl, sym, ap, ◌∙◌, inl, inr, Bool, false, List, ◌++◌,
  Run, done, length, take, drop, ltb, leb, if◌then◌else◌, if-cases, Bool-cases, arith,
  length-append, length-take, length-drop, take-append, take-append-drop, drop-append,
}
use ltrdata.Replace.{at_position, replace_loop}

module _ (compare : List ℕ → List ℕ → Bool) (cmpstr newstr : List ℕ) where
  abbrev hits : List ℕ → Bool
  hits xs = compare (take (length cmpstr) xs) cmpstr

  -- The bytes from a position on, once the text was looked for there.
  abbrev pub stored : List ℕ → List ℕ
  stored xs = if hits xs then newstr ++ drop (length cmpstr) xs else xs

  abbrev pub counted : List ℕ → ℕ → ℕ
  counted xs n = if hits xs then n + 1 else n

  -- The text is looked for at each of the first `count` positions by turns, also inside of what was
  -- stored before; with the number of replacements.
  unfoldable pub rewritten : (count : ℕ) → List ℕ → List ℕ × ℕ
  rewritten zero xs = (xs, 0)
  rewritten (suc count) xs =
      let (ys, n) = rewritten count (drop 1 (stored xs)) in (take 1 (stored xs) ++ ys, counted xs n)

  rewritten-count : (count : ℕ) (xs : List ℕ) → (rewritten count xs).1 ≤ count
  unfolding rewritten
  rewritten-count zero xs = omega arith
  rewritten-count (suc count) xs =
      let more = rewritten-count count (drop 1 (stored xs)) in
      if-cases (λ n. n ≤ suc count) (hits xs) (λ hit. omega (arith, more))
        (λ other. omega (arith, more))

  length-stored :
      (xs : List ℕ)
      → length newstr ≡ length cmpstr
      → length cmpstr ≤ length xs
      → length (stored xs) ≡ length xs
  length-stored xs same inside =
      if-cases (λ ys. length ys ≡ length xs) (hits xs)
        (λ hit.
          omega
            (arith, length-append newstr (drop (length cmpstr) xs), length-drop (length cmpstr) xs))
        (λ other. refl)

  -- `stored` is what the round of the loop leaves behind the bytes `pre`.
  round_lem :
      (next : ℕ → List ℕ → ℕ → Run (List ℕ × ℕ)) (pre xs : List ℕ) (occur : ℕ)
      → length newstr ≡ length cmpstr
      → length cmpstr ≤ length xs
      → length pre + 1 < 2 ^ 32
      → occur + 1 < 2 ^ 32
      → at_position compare cmpstr newstr next (length pre) (pre ++ xs) occur
        ≡ next (length pre + 1) (pre ++ stored xs) (counted xs occur)
  round_lem next pre xs occur same inside small few =
      let nothing : length pre + 0 ≡ length pre = omega arith in
      let here : drop (length pre) (pre ++ xs) ≡ xs =
        ap (λ k. drop k (pre ++ xs)) (sym nothing) ∙ drop-append pre xs 0 in
      let behind : drop (length pre + length newstr) (pre ++ xs) ≡ drop (length cmpstr) xs =
        drop-append pre xs (length newstr) ∙ ap (λ k. drop k xs) same in
      let within : ltb (length (pre ++ xs)) (length pre + length cmpstr) ≡ false =
        ground (arith, length-append pre xs) in
      let now : (length pre + 1) % 2 ^ 32 ≡ length pre + 1 = omega arith in
      let one_more : (occur + 1) % 2 ^ 32 ≡ occur + 1 = omega arith in
      elim (Bool-cases (hits xs)) [
        | inl hit ↦ rw (within, now, one_more, take-append pre xs refl, behind, here, hit) refl
        | inr other ↦ rw (within, now, here, other) refl
      ]

  -- The first byte behind `pre` joins it.
  one_further :
      (pre ys : List ℕ)
      → 0 < length ys
      → (pre ++ ys ≡ pre ++ take 1 ys ++ drop 1 ys) × (length (pre ++ take 1 ys) ≡ length pre + 1)
  one_further pre ys full = (
    ap (◌++◌ pre) (sym (take-append-drop 1 ys)) ∙ sym (append_assoc pre (take 1 ys) (drop 1 ys)),
    omega (arith, length-append pre (take 1 ys), length-take 1 ys),
  )

  counted-add : (xs : List ℕ) (a k : ℕ) → counted xs a + k ≡ a + counted xs k
  counted-add xs a k = elim (Bool-cases (hits xs)) [
    | inl hit ↦ rw hit (omega arith)
    | inr other ↦ rw other refl
  ]

  joined :
      (pre t r : List ℕ) (a b : ℕ)
      → a ≡ b
      → ◌≡◌ {A = Run (List ℕ × ℕ)} (done (pre ++ t ++ r, a)) (done (pre ++ (t ++ r), b))
  joined pre t r a b same =
      ap (λ z. done (z, a)) (append_assoc pre t r) ∙ ap (λ n. done (pre ++ (t ++ r), n)) same

  pub replace_loop-rewritten :
      (fuel count stoppos : ℕ) (pre xs : List ℕ) (occur : ℕ)
      → length newstr ≡ length cmpstr
      → 0 < length cmpstr
      → length pre + count ≡ stoppos + 1
      → length xs + 1 ≡ length cmpstr + count
      → stoppos + 1 < 2 ^ 32
      → occur + count < 2 ^ 32
      → count < fuel
      → replace_loop compare cmpstr newstr fuel stoppos (length pre) (pre ++ xs) occur
        ≡ done (pre ++ (rewritten count xs).0, occur + (rewritten count xs).1)
  unfolding replace_loop rewritten
  replace_loop-rewritten zero count stoppos pre xs occur same full at size small few enough =
      absurd (omega arith)
  replace_loop-rewritten (suc fuel) zero stoppos pre xs occur same full at size small few enough =
      if-cases (λ r. r ≡ done (pre ++ xs, occur + 0)) (leb (length pre) stoppos)
        (λ more. absurd (ground arith))
        (λ over. let e : occur ≡ occur + 0 = omega arith in ap (λ n. done (pre ++ xs, n)) e)
  replace_loop-rewritten (suc fuel) (suc count) stoppos pre xs occur same full at size small few
        enough =
      let ys = stored xs in
      let len : length ys ≡ length xs = length-stored xs same (omega arith) in
      let (shift, next) = one_further pre ys (omega (arith, len)) in
      let fewer : counted xs occur ≤ occur + 1 =
        if-cases (λ n. n ≤ occur + 1) (hits xs) (λ hit. omega arith) (λ other. omega arith) in
      let rest : replace_loop compare cmpstr newstr fuel stoppos (length pre + 1) (pre ++ ys)
            (counted xs occur)
          ≡ done (
            pre ++ take 1 ys ++ (rewritten count (drop 1 ys)).0,
            counted xs occur + (rewritten count (drop 1 ys)).1,
          ) =
        rw (shift, sym next)
          (replace_loop-rewritten fuel count stoppos (pre ++ take 1 ys) (drop 1 ys)
            (counted xs occur) same full (omega (arith, next))
            (omega (arith, length-drop 1 ys, len)) small (omega (arith, fewer)) (omega arith)) in
      if-cases
        (λ r. r ≡ done (pre ++ (rewritten (suc count) xs).0, occur + (rewritten (suc count) xs).1))
        (leb (length pre) stoppos)
        (λ more.
          round_lem (replace_loop compare cmpstr newstr fuel stoppos) pre xs occur same
            (omega arith) (omega arith) (omega arith)
          ∙ rest
          ∙ joined pre (take 1 ys) (rewritten count (drop 1 ys)).0 _ _
              (counted-add xs occur (rewritten count (drop 1 ys)).1))
        (λ over. absurd (ground arith))
