-- ===== src/Guess/Game.antt =====
-- The game of win32/c/gissatal.c as a whole.
use ltrdata.Prelude.{
  ℕ, suc, ◌+◌, ◌-◌, ◌≤◌, ◌≡◌, ◌≢◌, ap, refl, sym, ◌∙◌, List, [], ◌∷◌, ◌++◌, arith, length, All,
}
use ltrdata.Prelude.Int.{ℤ, pos, negsuc}
use ltrdata.Guess.{
  Reply, out_of_range, correct, told_high, told_low, too_high, too_low, silent, State, judge,
  answer, unless_correct, play,
}
use ltrdata.Guess.Replies.{Between, Narrows, answer-Between}

-- How many messages tell something new.
abbrev pub news : List Reply → ℕ
news [] = 0
news (too_high ∷ rs) = suc (news rs)
news (too_low ∷ rs) = suc (news rs)
news (_ ∷ rs) = news rs

goes_on :
    (value : ℕ) (s : State) (x : ℤ) (k : State → List Reply)
    → x ≢ pos value
    → unless_correct (answer value s x) k ≡ (answer value s x).0 ∷ k (answer value s x).1
unfolding answer judge
goes_on value s (pos x) k other = let ne : x ≢ value = λ e. other (ap pos e) in ground arith
goes_on value s (negsuc x) k other = refl

ends :
    (value : ℕ) (s : State) (k : State → List Reply)
    → 1 ≤ value
    → value ≤ 99
    → unless_correct (answer value s (pos value)) k ≡ correct (s.tries + 1) ∷ []
unfolding answer judge
ends value s k low high = ground arith

news-step :
    (r : Reply) (s s' : State) (rs : List Reply)
    → Narrows r s.highest s.lowest s'
    → news rs ≤ s'.highest - s'.lowest
    → news (r ∷ rs) ≤ s.highest - s.lowest
news-step out_of_range s s' rs n h = omega arith
news-step (correct k) s s' rs n h = omega arith
news-step told_high s s' rs n h = omega arith
news-step told_low s s' rs n h = omega arith
news-step too_high s s' rs n h = omega arith
news-step too_low s s' rs n h = omega arith
news-step silent s s' rs n h = omega arith

-- From bounds that the number lies within, no more messages tell something new than the bounds are
-- apart, whatever is guessed.
pub play-news :
    (value : ℕ) (s : State) (guesses : List ℤ)
    → Between value s
    → news (play value s guesses) ≤ s.highest - s.lowest
unfolding play
play-news value s [] b = omega arith
play-news value s (x ∷ xs) b =
    let (between, narrows, _) = answer-Between value s x b in
    step (answer value s x) narrows (play-news value (answer value s x).1 xs between)
  where
    step :
        (r : Reply × State)
        → Narrows r.0 s.highest s.lowest r.1
        → news (play value r.1 xs) ≤ r.1.highest - r.1.lowest
        → news (unless_correct r (λ s'. play value s' xs)) ≤ s.highest - s.lowest
    step (correct n, s') narrows rest = omega arith
    step (out_of_range, s') narrows rest =
        news-step out_of_range s s' (play value s' xs) narrows rest
    step (told_high, s') narrows rest = news-step told_high s s' (play value s' xs) narrows rest
    step (told_low, s') narrows rest = news-step told_low s s' (play value s' xs) narrows rest
    step (too_high, s') narrows rest = news-step too_high s s' (play value s' xs) narrows rest
    step (too_low, s') narrows rest = news-step too_low s s' (play value s' xs) narrows rest
    step (silent, s') narrows rest = news-step silent s s' (play value s' xs) narrows rest

-- If the number lies within the bounds, the game goes on, with one message for each guess, until
-- the number is guessed, and ends there with the count of all guesses, whatever follows.
pub play-ends :
    (value : ℕ) (s : State) (guesses rest : List ℤ)
    → Between value s
    → All (λ x. x ≢ pos value) guesses
    → (play value s (guesses ++ pos value ∷ rest)
        ≡ play value s guesses ++ correct (s.tries + length guesses + 1) ∷ [])
      × (length (play value s guesses) ≡ length guesses)
unfolding play
play-ends value s [] rest b others = (
  ends value s (λ s'. play value s' rest) b.one_le b.le_99 ∙ ap (λ n. correct n ∷ []) (omega arith),
  refl,
)
play-ends value s (x ∷ xs) rest b (other, others) =
    let (between, _, tries) = answer-Between value s x b in
    let (end, len) = play-ends value (answer value s x).1 xs rest between others in
    let count : (answer value s x).1.tries + length xs + 1 ≡ s.tries + suc (length xs) + 1 =
      omega (arith, tries) in
    (
      goes_on value s x (λ s'. play value s' (xs ++ pos value ∷ rest)) other
          ∙ ap (◌∷◌ (answer value s x).0)
              (end ∙ ap (λ n. play value (answer value s x).1 xs ++ correct n ∷ []) count)
          ∙ ap (λ l. l ++ correct (s.tries + suc (length xs) + 1) ∷ [])
              (sym (goes_on value s x (λ s'. play value s' xs) other)),
      ap length (goes_on value s x (λ s'. play value s' xs) other) ∙ ap suc len,
    )
