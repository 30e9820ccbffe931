-- ===== src/Guess/Replies.antt =====
-- The answer to one guess in win32/c/gissatal.c.
use ltrdata.Prelude.{ℕ, ◌+◌, ◌-◌, ◌≤◌, ◌<◌, ◌≡◌, ◌⊎◌, refl, inl, inr, ◌∷◌, arith}
use ltrdata.Prelude.Int.{ℤ, pos, negsuc}
use ltrdata.Guess.{
  Reply, out_of_range, correct, told_high, told_low, too_high, too_low, silent, State, judge,
  answer,
}
use ltrdata.Guess.Remembered.{
  History, Told, Never, Remembers, Leaves, Remembers-other, Remembers-step,
}

-- The number lies within the bounds.
pub record Between (value : ℕ) (s : State) : Type 0 where
  pub one_le : 1 ≤ value
  pub le_99 : value ≤ 99
  pub above : s.lowest ≤ value
  pub below : value ≤ s.highest

-- What a message on the guess `x` says after the history `h`. "I have told you" is true if the same
-- or a better guess had the message; on 99 and 1 it also comes when no guess had it.
abbrev pub Says : Reply → History → ℕ → ℕ → ℕ → Type 0
Says out_of_range h value tries x = (x < 1) ⊎ (99 < x)
Says (correct n) h value tries x = (x ≡ value) × (n ≡ tries)
Says told_high h value tries x =
    (value < x) × (((g : ℕ) × Told too_high g h × (g ≤ x)) ⊎ ((x ≡ 99) × Never too_high h))
Says told_low h value tries x =
    (x < value) × (((g : ℕ) × Told too_low g h × (x ≤ g)) ⊎ ((x ≡ 1) × Never too_low h))
Says too_high h value tries x = value < x
Says too_low h value tries x = x < value
Says silent h value tries x = ⊥

-- A message that tells something new narrows the bounds.
abbrev pub Narrows : Reply → (highest lowest : ℕ) → State → Type 0
Narrows too_high highest lowest s' = s'.highest - s'.lowest < highest - lowest
Narrows too_low highest lowest s' = s'.highest - s'.lowest < highest - lowest
Narrows _ highest lowest s' = (s'.highest ≡ highest) × (s'.lowest ≡ lowest)

-- What the messages say of the guess alone, and of the bounds.
abbrev Compares : Reply → State → ℕ → ℕ → Type 0
Compares out_of_range s value x = (x < 1) ⊎ (99 < x)
Compares (correct n) s value x = (x ≡ value) × (n ≡ s.tries)
Compares told_high s value x = (value < x) × (s.highest ≤ x) × (x ≤ 99)
Compares told_low s value x = (x < value) × (x ≤ s.lowest) × (1 ≤ x)
Compares too_high s value x = value < x
Compares too_low s value x = x < value
Compares silent s value x = ⊥

judge-Compares :
    (value : ℕ) (s : State) (x : ℕ)
    → Between value s
    → Compares (judge value s x).0 s value x
      × Between value (judge value s x).1
      × Narrows (judge value s x).0 s.highest s.lowest (judge value s x).1
      × ((judge value s x).1.tries ≡ s.tries)
      × Leaves (judge value s x).0 s x (judge value s x).1
unfolding judge
judge-Compares value s x b = ground arith

Compares-Says :
    (r : Reply) (h : History) (s : State) (value x : ℕ)
    → Remembers h s
    → Compares r s value x
    → Says r h value s.tries x
Compares-Says out_of_range h s value x m c = c
Compares-Says (correct n) h s value x m c = c
Compares-Says told_high h s value x m (above, bound, inside) = (
  above,
  elim m.high [
    | inl told ↦ inl (s.highest, told, bound)
    | inr first ↦ inr (omega (arith, first.0), first.1)
  ],
)
Compares-Says told_low h s value x m (below, bound, inside) = (
  below,
  elim m.low [
    | inl told ↦ inl (s.lowest, told, bound)
    | inr first ↦ inr (omega (arith, first.0), first.1)
  ],
)
Compares-Says too_high h s value x m c = c
Compares-Says too_low h s value x m c = c
Compares-Says silent h s value x m c = c

-- `s` with one try more.
counted : State → State
counted s = record s { tries = s.tries + 1 }

counted-Between : (value : ℕ) (s : State) → Between value s → Between value (counted s)
unfolding counted
counted-Between value s b = record {
  one_le = b.one_le;
  le_99 = b.le_99;
  above = b.above;
  below = b.below;
}

-- The bounds keep the number between them and only news narrows them, and one more try is counted.
pub answer-Between :
    (value : ℕ) (s : State) (x : ℤ)
    → Between value s
    → Between value (answer value s x).1
      × Narrows (answer value s x).0 s.highest s.lowest (answer value s x).1
      × ((answer value s x).1.tries ≡ s.tries + 1)
unfolding answer counted
answer-Between value s (pos x) b =
    let (says, between, narrows, tries, leaves) =
      judge-Compares value (counted s) x (counted-Between value s b) in
    (between, narrows, tries)
answer-Between value s (negsuc x) b = (counted-Between value s b, (refl, refl), refl)

-- The same of a guess that may be negative.
abbrev pub Answers : Reply → History → ℕ → ℕ → ℤ → Type 0
Answers r h value tries (pos x) = Says r h value tries x
Answers r h value tries (negsuc x) = r ≡ out_of_range

answer-Recalls :
    (value : ℕ) (h : History) (s : State) (x : ℤ)
    → Between value s
    → Remembers h s
    → Answers (answer value s x).0 h value (s.tries + 1) x
      × Remembers ((x, (answer value s x).0) ∷ h) (answer value s x).1
unfolding answer counted
answer-Recalls value h s (pos x) b m =
    let m' : Remembers h (counted s) = record { high = m.high; low = m.low } in
    let (says, between, narrows, tries, leaves) =
      judge-Compares value (counted s) x (counted-Between value s b) in
    (
      Compares-Says (judge value (counted s) x).0 h (counted s) value x m' says,
      Remembers-step (judge value (counted s) x).0 x h (counted s) (judge value (counted s) x).1
          leaves m',
    )
answer-Recalls value h s (negsuc x) b m = (
  refl,
  Remembers-other out_of_range (negsuc x) h s (counted s) (λ e. cc) (λ e. cc) (refl, refl) m,
)

-- If the number lies within the bounds, and each bound is a guess that was told to be too high or
-- too low, or 99 or 1 while no guess was told so, then the message on a guess is true of the number;
-- "I have told you" comes only if a guess at least as good had that message, or on a wrong 99 or 1
-- while no guess had it. After it the number lies within the bounds, which are again such guesses; a
-- message that tells something new narrows the bounds and no other message changes them, and one
-- more try is counted.
pub answer-Answers :
    (value : ℕ) (h : History) (s : State) (x : ℤ)
    → Between value s
    → Remembers h s
    → Answers (answer value s x).0 h value (s.tries + 1) x
      × Between value (answer value s x).1
      × Remembers ((x, (answer value s x).0) ∷ h) (answer value s x).1
      × Narrows (answer value s x).0 s.highest s.lowest (answer value s x).1
      × ((answer value s x).1.tries ≡ s.tries + 1)
answer-Answers value h s x b m =
    let (says, remembers) = answer-Recalls value h s x b m in
    let (between, narrows, tries) = answer-Between value s x b in
    (says, between, remembers, narrows, tries)
