-- ===== src/Guess/Remembered.antt =====
-- What win32/c/gissatal.c has told so far, and what its bounds keep of that.
use mathlib.Core.Path.{subst}
use ltrdata.Prelude.{ℕ, ◌≡◌, ◌≢◌, ◌⊎◌, refl, sym, ap, ◌∙◌, inl, inr, List, [], ◌∷◌}
use ltrdata.Prelude.Int.{ℤ, pos}
use ltrdata.Guess.{
  Reply, out_of_range, correct, told_high, told_low, too_high, too_low, silent, State,
}

-- The guesses so far with the messages on them, the last one first.
abbrev pub History : Type 0
History = List (ℤ × Reply)

-- The message `r` was given on the guess `g`, or on no guess at all.
abbrev pub Told : Reply → ℕ → History → Type 0
Told r g [] = ⊥
Told r g ((x, r') ∷ h) = ((x ≡ pos g) × (r' ≡ r)) ⊎ Told r g h

abbrev pub Never : Reply → History → Type 0
Never r [] = Unit
Never r ((x, r') ∷ h) = (r' ≢ r) × Never r h

-- A bound is a guess that was told to be too high or too low, or the first bound if none was.
pub record Remembers (h : History) (s : State) : Type 0 where
  pub high : Told too_high s.highest h ⊎ ((s.highest ≡ 99) × Never too_high h)
  pub low : Told too_low s.lowest h ⊎ ((s.lowest ≡ 1) × Never too_low h)

-- The bounds that a message leaves.
abbrev pub Leaves : Reply → State → ℕ → State → Type 0
Leaves too_high s x s' = (s'.highest ≡ x) × (s'.lowest ≡ s.lowest)
Leaves too_low s x s' = (s'.highest ≡ s.highest) × (s'.lowest ≡ x)
Leaves _ s x s' = (s'.highest ≡ s.highest) × (s'.lowest ≡ s.lowest)

-- A message of another kind changes nothing of what is remembered of the kind `t`.
Told-other :
    (t r : Reply) (x : ℤ) (h : History) (bound bound' first : ℕ)
    → r ≢ t
    → bound' ≡ bound
    → Told t bound h ⊎ ((bound ≡ first) × Never t h)
    → Told t bound' ((x, r) ∷ h) ⊎ ((bound' ≡ first) × Never t ((x, r) ∷ h))
Told-other t r x h bound bound' first other same (inl told) =
    inl (inr (subst (λ n. Told t n h) (sym same) told))
Told-other t r x h bound bound' first other same (inr (start, never)) =
    inr (same ∙ start, (other, never))

pub Remembers-other :
    (r : Reply) (x : ℤ) (h : History) (s s' : State)
    → r ≢ too_high
    → r ≢ too_low
    → (s'.highest ≡ s.highest) × (s'.lowest ≡ s.lowest)
    → Remembers h s
    → Remembers ((x, r) ∷ h) s'
Remembers-other r x h s s' not_high not_low (highest, lowest) m = record {
  high = Told-other too_high r x h s.highest s'.highest 99 not_high highest m.high;
  low = Told-other too_low r x h s.lowest s'.lowest 1 not_low lowest m.low;
}

pub Remembers-step :
    (r : Reply) (x : ℕ) (h : History) (s s' : State)
    → Leaves r s x s'
    → Remembers h s
    → Remembers ((pos x, r) ∷ h) s'
Remembers-step too_high x h s s' (highest, lowest) m = record {
  high = inl (inl (ap pos (sym highest), refl));
  low = Told-other too_low too_high (pos x) h s.lowest s'.lowest 1 (λ e. cc) lowest m.low;
}
Remembers-step too_low x h s s' (highest, lowest) m = record {
  high = Told-other too_high too_low (pos x) h s.highest s'.highest 99 (λ e. cc) highest m.high;
  low = inl (inl (ap pos (sym lowest), refl));
}
Remembers-step out_of_range x h s s' same m =
    Remembers-other out_of_range (pos x) h s s' (λ e. cc) (λ e. cc) same m
Remembers-step (correct n) x h s s' same m =
    Remembers-other (correct n) (pos x) h s s' (λ e. cc) (λ e. cc) same m
Remembers-step told_high x h s s' same m =
    Remembers-other told_high (pos x) h s s' (λ e. cc) (λ e. cc) same m
Remembers-step told_low x h s s' same m =
    Remembers-other told_low (pos x) h s s' (λ e. cc) (λ e. cc) same m
Remembers-step silent x h s s' same m =
    Remembers-other silent (pos x) h s s' (λ e. cc) (λ e. cc) same m
