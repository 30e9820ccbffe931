-- ===== src/Text/Trim.antt =====
-- `strltrm`, `strrtrm` and `strtrm` of win32/c/olofstr.c on strings with a non-blank character, and
-- on all others.
use ltrdata.Prelude.{
  ℕ, zero, suc, ◌-◌, ◌≤◌, ◌<◌, ◌≡◌, ◌≢◌, refl, inl, inr, true, some, List, [], ◌∷◌, arith, done,
  trap, ◌>>=◌, length, get_or, take, drop, ◌==◌, ==_iff, Bool-cases,
}
use native.Mathlib.Decide.{ℕ_discrete}
use ltrdata.Text.{leading_blanks, trailing_end, strltrm, strrtrm, strtrm}
use ltrdata.Text.Search.{read_at-done}

-- The index of a non-blank character.
abbrev pub NonBlankAt : List ℕ → ℕ → Type 0
NonBlankAt s i = (i < length s) × (get_or s i 0 ≢ b' ')

leading_blanks-le : (s : List ℕ) (i : ℕ) → NonBlankAt s i → leading_blanks s ≤ i
unfolding leading_blanks
leading_blanks-le [] i h = omega arith
leading_blanks-le (c ∷ cs) zero (lt, nb) = ground arith
leading_blanks-le (c ∷ cs) (suc i) (lt, nb) =
    let rest : leading_blanks cs ≤ i = leading_blanks-le cs i (omega arith, nb) in ground arith

leading_blanks-stops : (s : List ℕ) (i : ℕ) → NonBlankAt s i → get_or s (leading_blanks s) 0 ≢ b' '
unfolding leading_blanks
leading_blanks-stops [] i (lt, nb) = absurd (omega arith)
leading_blanks-stops (c ∷ cs) zero (lt, nb) = ground arith
leading_blanks-stops (c ∷ cs) (suc i) (lt, nb) = elim (Bool-cases (c == b' ')) [
  | inr other ↦ rw (leading_blanks, other) (λ e. cc (other, (==_iff c _).1 e))
  | inl blank ↦ rw (leading_blanks, blank) (leading_blanks-stops cs i (omega arith, nb))
]

trailing_end_lem :
    (s : List ℕ) (end i : ℕ)
    → end ≤ length s
    → i < end
    → get_or s i 0 ≢ b' '
    → (n : ℕ) × (trailing_end s (end) ≡ done n)
      × (i < n)
      × (n ≤ end)
      × (get_or s (n - 1) 0 ≢ b' ')
      × ((j : ℕ) → n ≤ j → j < end → get_or s j 0 ≡ b' ')
unfolding trailing_end
trailing_end_lem s zero i le lt nb = absurd (omega arith)
trailing_end_lem s (suc end) i le lt nb = elim (Bool-cases (get_or s end 0 == b' ')) [
  | inr other ↦
      let one : suc end - 1 ≡ end = omega arith in
      (
        suc end,
        rw (trailing_end, read_at-done s end (omega arith), ◌>>=◌, other),
        lt,
        omega arith,
        rw one (λ e. cc (other, (==_iff _ _).1 e)),
        λ j lj ji. absurd (omega arith),
      )
  | inl blank ↦
      let is_blank : get_or s end 0 ≡ b' ' = (==_iff _ _).0 blank in
      let i≢end : i ≢ end = (λ e. nb (rw e is_blank)) in
      let (n, run, lt', le', last, after) =
        trailing_end_lem s end i (omega arith) (omega arith) nb in
      (
        n,
        rw (trailing_end, read_at-done s end (omega arith), ◌>>=◌, blank) run,
        lt',
        omega arith,
        last,
        λ j lj ji. elim (ℕ_discrete j end) [
          | yes e ↦ rw e is_blank
          | no e ↦ after j lj (omega arith)
        ],
      )
]

-- A string of blanks only sends the loop below its start.
trailing_end-trap :
    (s : List ℕ) (end : ℕ)
    → end ≤ length s
    → ((j : ℕ) → j < end → get_or s j 0 ≡ b' ')
    → trailing_end s end ≡ trap
unfolding trailing_end
trailing_end-trap s zero le all = refl
trailing_end-trap s (suc end) le all =
    let blank : (get_or s end 0 == b' ') ≡ true = (==_iff _ _).1 (all end (omega arith)) in
    rw (trailing_end, read_at-done s end (omega arith), ◌>>=◌, blank)
      (trailing_end-trap s end (omega arith) (λ j lt. all j (omega arith)))

leading_blanks-before : (s : List ℕ) (j : ℕ) → j < leading_blanks s → get_or s j 0 ≡ b' '
unfolding leading_blanks
leading_blanks-before [] j h = absurd (omega arith)
leading_blanks-before (c ∷ cs) zero h = ground arith
leading_blanks-before (c ∷ cs) (suc j) h = ground (arith, leading_blanks-before cs j)

-- `s[a .. n)` is what is left of `s` without the blanks at its two ends.
pub record IsTrimmed (s : List ℕ) (a n : ℕ) : Type 0 where
  pub nonempty : a < n
  pub inside : n ≤ length s
  pub before : (j : ℕ) → j < a → get_or s j 0 ≡ b' '
  pub first : get_or s a 0 ≢ b' '
  pub last : get_or s (n - 1) 0 ≢ b' '
  pub after : (j : ℕ) → n ≤ j → j < length s → get_or s j 0 ≡ b' '

-- On a string with a non-blank character the three functions return the string without its blanks
-- at the left end, at the right end, and at both.
pub trims-IsTrimmed :
    (s : List ℕ) (i : ℕ)
    → NonBlankAt s i
    → (a n : ℕ) × IsTrimmed s a n
      × (strltrm (some s) ≡ some (drop a s))
      × (strrtrm (some s) ≡ done (some (take n s)))
      × (strtrm (some s) ≡ done (some (drop a (take n s))))
unfolding strltrm strrtrm strtrm
trims-IsTrimmed s i h =
    let (n, run, lt, le, last, after) = trailing_end_lem s (length s) i (omega arith) h.0 h.1 in
    (
      leading_blanks s,
      n,
      record {
        nonempty = omega (arith, leading_blanks-le s i h);
        inside = le;
        before = leading_blanks-before s;
        first = leading_blanks-stops s i h;
        last = last;
        after = after;
      },
      refl,
      rw (strrtrm, run),
      rw (strtrm, run),
    )

-- On a string of blanks only, the empty string among them, `strrtrm` and `strtrm` step below the
-- start of the buffer, which is undefined.
pub trims_blank-trap :
    (s : List ℕ)
    → ((j : ℕ) → j < length s → get_or s j 0 ≡ b' ')
    → (strrtrm (some s) ≡ trap) × (strtrm (some s) ≡ trap)
unfolding strrtrm strtrm
trims_blank-trap s all =
    let t : trailing_end s (length s) ≡ trap = trailing_end-trap s (length s) (omega arith) all in
    (rw (strrtrm, t), rw (strtrm, t))
