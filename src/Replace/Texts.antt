-- ===== src/Replace/Texts.antt =====
-- win32/cpp/reptxt32.cpp where no text that is looked for can begin with a byte of the new one.

use ltrdata.Prelude.{
  ℕ, zero, suc, ◌+◌, ◌-◌, ◌≤◌, ◌<◌, ◌≡◌, refl, inl, inr, Bool, true, false, List, [], ◌∷◌, ◌++◌,
  All, length, take, drop, Bool-cases, arith, length-drop,
}
use ltrdata.Replace.Positions.{rewritten}

module _ (compare : List ℕ → List ℕ → Bool) (cmpstr : List ℕ) where
  -- The bytes `xs` with each of the texts that do not overlap, from the left, replaced: `Replaced
  -- newstr xs ys n` makes `ys` of them in `n` replacements.
  pub data Replaced (newstr : List ℕ) : List ℕ → List ℕ → ℕ → Type 0 where
    too_short : {xs : List ℕ} → length xs < length cmpstr → Replaced newstr xs xs 0
    keeps :
        {x : ℕ} {xs ys : List ℕ} {n : ℕ}
        → compare (take (length cmpstr) (x ∷ xs)) cmpstr ≡ false
        → Replaced newstr xs ys n
        → Replaced newstr (x ∷ xs) (x ∷ ys) n
    replaces :
        {xs ys : List ℕ} {n : ℕ}
        → length cmpstr ≤ length xs
        → compare (take (length cmpstr) xs) cmpstr ≡ true
        → Replaced newstr (drop (length cmpstr) xs) ys n
        → Replaced newstr xs (newstr ++ ys) (n + 1)

  -- No text that is looked for begins with the byte.
  abbrev pub Quiet : ℕ → Type 0
  Quiet b = (xs : List ℕ) → compare (take (length cmpstr) (b ∷ xs)) cmpstr ≡ false

  quiet_step :
      (newstr : List ℕ) (count x : ℕ) (xs : List ℕ)
      → compare (take (length cmpstr) (x ∷ xs)) cmpstr ≡ false
      → rewritten compare cmpstr newstr (suc count) (x ∷ xs) ≡ (
        x ∷ (rewritten compare cmpstr newstr count xs).0,
        (rewritten compare cmpstr newstr count xs).1,
      )
  unfolding rewritten
  quiet_step newstr count x xs other = rw other refl

  rewritten_none : (newstr xs : List ℕ) → rewritten compare cmpstr newstr 0 xs ≡ (xs, 0)
  unfolding rewritten
  rewritten_none newstr xs = refl

  rewritten-Quiet :
      (newstr : List ℕ) (count : ℕ) (t rest : List ℕ)
      → All Quiet t
      → rewritten compare cmpstr newstr count (t ++ rest) ≡ (
        t ++ (rewritten compare cmpstr newstr (count - length t) rest).0,
        (rewritten compare cmpstr newstr (count - length t) rest).1,
      )
  rewritten-Quiet newstr count [] rest quiet = let e : count - 0 ≡ count = omega arith in rw e refl
  rewritten-Quiet newstr zero (b ∷ t) rest quiet =
      let e : 0 - suc (length t) ≡ 0 = omega arith in
      rw (e, rewritten_none newstr rest, rewritten_none newstr (b ∷ (t ++ rest))) refl
  rewritten-Quiet newstr (suc count) (b ∷ t) rest quiet =
      let e : suc count - suc (length t) ≡ count - length t = omega arith in
      rw
        (
          quiet_step newstr count b (t ++ rest) (quiet.0 (t ++ rest)),
          rewritten-Quiet newstr count t rest quiet.1,
          e,
        )
        refl

  hit_step :
      (b : ℕ) (t : List ℕ) (count : ℕ) (xs : List ℕ)
      → All Quiet (b ∷ t)
      → compare (take (length cmpstr) xs) cmpstr ≡ true
      → let rest = rewritten compare cmpstr (b ∷ t) (count - length t) (drop (length cmpstr) xs) in
        rewritten compare cmpstr (b ∷ t) (suc count) xs ≡ ((b ∷ t) ++ rest.0, rest.1 + 1)
  unfolding rewritten
  hit_step b t count xs quiet hit =
      rw (hit, rewritten-Quiet (b ∷ t) count t (drop (length cmpstr) xs) quiet.1) refl

  pub rewritten-Replaced :
      (bound : ℕ) (b : ℕ) (t : List ℕ) (count : ℕ) (xs : List ℕ)
      → All Quiet (b ∷ t)
      → length (b ∷ t) ≡ length cmpstr
      → count < bound
      → count ≡ length xs + 1 - length cmpstr
      → Replaced
          (b ∷ t)
          xs
          (rewritten compare cmpstr (b ∷ t) count xs).0
          (rewritten compare cmpstr (b ∷ t) count xs).1
  rewritten-Replaced zero b t count xs quiet same enough size = absurd (omega arith)
  rewritten-Replaced (suc bound) b t zero xs quiet same enough size =
      rw (rewritten_none (b ∷ t) xs) (too_short (omega arith))
  rewritten-Replaced (suc bound) b t (suc count) [] quiet same enough size = absurd (omega arith)
  rewritten-Replaced (suc bound) b t (suc count) (x ∷ xs) quiet same enough size =
      elim (Bool-cases (compare (take (length cmpstr) (x ∷ xs)) cmpstr)) [
        | inl hit ↦
            let rest =
              rewritten-Replaced bound b t (count - length t) (drop (length cmpstr) (x ∷ xs)) quiet
                same (omega arith) (omega (arith, length-drop (length cmpstr) (x ∷ xs))) in
            rw (hit_step b t count (x ∷ xs) quiet hit) (replaces (omega arith) hit rest)
        | inr other ↦ rw (quiet_step (b ∷ t) count x xs other) (
            keeps other
              (rewritten-Replaced bound b t count xs quiet same (omega arith) (omega arith)))
      ]
