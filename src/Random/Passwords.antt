-- ===== src/Random/Passwords.antt =====
-- The passwords of win32/c/genpwds.c can be pronounced.
use ltrdata.Prelude.{
  ◌^◌, ◌<◌, trap, lt→ltb, if◌then◌else◌, ℕ, zero, suc, ◌+◌, ◌<◌, ◌≤◌, ◌≡◌, refl, sym, ap, ◌∙◌, inl,
  inr, Bool, true, false, ◌||◌, List, [], ◌∷◌, ◌++◌, All, length, Run, done, ◌>>=◌, ◌==◌, if-cases,
  Bool-cases, arith,
}
use mathlib.Core.Bool.{true≢false}
use mathlib.Core.Path.{subst}
use ltrdata.Prelude.Int.{ℤ, pos}
use ltrdata.Random.{
  contains, rare, vowels, rare_vowels, positive, decrement, letter, another_letter, after_letter,
  next_letter, letters, passwds, genpwds, passwords,
}
use ltrdata.Random.Draws.{draw_lem}

-- A letter that C, Q, W, X and Z are not.
abbrev pub Common : ℕ → Type 0
Common c = (b'A' ≤ c) × (c ≤ b'Z') × (contains rare c ≡ false)

-- No vowel follows a vowel; `before` is whether one stands in front.
abbrev pub Alternates : Bool → List ℕ → Type 0
Alternates before [] = Unit
Alternates before (c ∷ cs) =
    (before ≡ true → contains vowels c ≡ false) × Alternates (contains vowels c) cs

abbrev pub Pronounceable : List ℕ → Type 0
Pronounceable cs = (length cs ≡ 4) × All Common cs × Alternates false cs

abbrev pub spaced : List (List ℕ) → List ℕ
spaced [] = []
spaced (p ∷ ps) = p ++ b' ' ∷ b' ' ∷ b' ' ∷ b' ' ∷ spaced ps

-- Each `window` numbers in a row have one that gives a common consonant.
abbrev pub Varied : (ℕ → ℕ) → ℕ → Type 0
Varied rand window =
    (n : ℕ) → (i : ℕ) × (i < window) × (contains rare_vowels (letter rand window (n + i)) ≡ false)

contains-append :
    (xs ys : List ℕ) (c : ℕ)
    → contains (xs ++ ys) c ≡ false
    → (contains xs c ≡ false) × (contains ys c ≡ false)
unfolding contains
contains-append [] ys c e = (refl, e)
contains-append (x ∷ xs) ys c e = elim (Bool-cases (x == c)) [
  | inl same ↦ absurd (true≢false (sym (ap (λ b. b || contains (xs ++ ys) c) same) ∙ e))
  | inr other ↦
      let (l, r) = contains-append xs ys c (sym (ap (λ b. b || contains (xs ++ ys) c) other) ∙ e) in
      (ap (λ b. b || contains xs c) other ∙ l, r)
]

module _ (rand : ℕ → ℕ) (window : ℕ) (varied : Varied rand window) where
  letter-Common :
      (m : ℕ) → contains rare (letter rand window m) ≡ false → Common (letter rand window m)
  letter-Common m e = (omega arith, omega arith, e)

  -- What one round of the loop gives, if `vokaldags` is positive after a vowel.
  abbrev Round : Bool → Run (ℕ × ℤ × ℕ) → Type 0
  Round before r =
      (c : ℕ) × (v : ℤ) × (n : ℕ) × (r ≡ done (c, v, n))
      × Common c
      × (before ≡ true → contains vowels c ≡ false)
      × (contains vowels c ≡ true → positive v ≡ true)

  next_letter-Round :
      (before : Bool) (v : ℤ) (n : ℕ)
      → (before ≡ true → positive v ≡ true)
      → Round before (next_letter rand window v n)
  unfolding next_letter
  next_letter-Round before v n marked =
      let (i, less, good) = varied n in
      let (m, e, common) =
        draw_lem (letter rand window) (contains rare) window n i less
          (contains-append rare vowels (letter rand window (n + i)) good).0 in
      subst (Round before) (sym (ap (λ r. r >>= after_letter rand window v) e)) (
        if-cases (Round before) (contains vowels (letter rand window m))
          (λ vowel.
            if-cases (Round before) (positive v) (λ after. again (m + 1))
              (λ first. (
                letter rand window m,
                pos 1,
                m + 1,
                refl,
                letter-Common m common,
                λ b. absurd (true≢false (sym (marked b) ∙ first)),
                λ h. refl,
              )))
          (λ consonant. (
            letter rand window m,
            decrement v,
            m + 1,
            refl,
            letter-Common m common,
            λ b. consonant,
            λ h. absurd (true≢false (sym h ∙ consonant)),
          )))
    where
      again : (k : ℕ) → Round before (another_letter rand window k)
      again k =
          let (j, near, fits) = varied k in
          let (m, e, good) =
            draw_lem (letter rand window) (contains rare_vowels) window k j near fits in
          let (common, consonant) = contains-append rare vowels (letter rand window m) good in
          (
            letter rand window m,
            pos 1,
            m + 1,
            ap (λ r. r >>= λ (c, n1). done (c, pos 1, n1)) e,
            letter-Common m common,
            λ b. consonant,
            λ h. refl,
          )

  letters_lem :
      (count : ℕ) (before : Bool) (v : ℤ) (n : ℕ)
      → (before ≡ true → positive v ≡ true)
      → (cs : List ℕ) × (n' : ℕ) × (letters rand window count v n ≡ done (cs, n'))
        × (length cs ≡ count)
        × All Common cs
        × Alternates before cs
  unfolding letters
  letters_lem zero before v n marked = ([], n, refl, refl, tt, tt)
  letters_lem (suc count) before v n marked =
      let (c, v', n', e, common, alternates, marked') = next_letter-Round before v n marked in
      let (cs, n'', e', many, commons, rest) =
        letters_lem count (contains vowels c) v' n' marked' in
      (
        c ∷ cs,
        n'',
        ap
              (λ r. r >>= λ (c, v, n1).
                letters rand window count v n1 >>= λ (cs, n2). done (c ∷ cs, n2))
              e
            ∙ ap (λ r. r >>= λ (cs, n2). done (c ∷ cs, n2)) e',
        ap suc many,
        (common, commons),
        (alternates, rest),
      )

  passwords-Pronounceable :
      (count n : ℕ)
      → (ps : List (List ℕ)) × (n' : ℕ) × (passwords rand window count n ≡ done (spaced ps, n'))
        × (length ps ≡ count)
        × All Pronounceable ps
  unfolding passwords
  passwords-Pronounceable zero n = ([], n, refl, refl, tt)
  passwords-Pronounceable (suc count) n =
      let (cs, n', e, many, commons, alternates) =
        letters_lem 4 false (pos 0) n (λ b. absurd (true≢false (sym b))) in
      let (ps, n'', e', all, good) = passwords-Pronounceable count n' in
      (
        cs ∷ ps,
        n'',
        ap
              (λ r. r >>= λ (cs, n1). passwords rand window count n1 >>= λ (text, n2).
                done (cs ++ b' ' ∷ b' ' ∷ b' ' ∷ b' ' ∷ text, n2))
              e
            ∙ ap (λ r. r >>= λ (text, n2). done (cs ++ b' ' ∷ b' ' ∷ b' ' ∷ b' ' ∷ text, n2)) e',
        ap suc all,
        ((many, commons, alternates), good),
      )

  -- If each `window` random numbers in a row have one that gives a common consonant, and the count is
  -- below 2^31, the program ends. It prints as many passwords as were asked for, one without an
  -- argument, each with four blanks behind it and of four letters, none of them C, Q, W, X or Z, and
  -- no two vowels next to each other.
  pub genpwds-Pronounceable :
      (args : List (List ℕ))
      → passwds args < 2 ^ 31
      → (ps : List (List ℕ)) × (genpwds rand window args ≡ done (spaced ps))
        × (length ps ≡ passwds args)
        × All Pronounceable ps
  unfolding genpwds
  genpwds-Pronounceable args few =
      let (ps, n, e, all, good) = passwords-Pronounceable (passwds args) 0 in
      (
        ps,
        ap
              (λ b.
                if b
                then passwords rand window (passwds args) 0 >>= (λ (text, n). done text)
                else trap)
              (lt→ltb (passwds args) (2 ^ 31) few)
            ∙ ap (λ r. r >>= λ (text, n). done text) e,
        all,
        good,
      )
