-- ===== src/Examples/Games.antt =====
-- win32/c/gissatal.c with the number 40.
use ltrdata.Prelude.{ℕ, ◌≡◌, ◌≢◌, ap, refl, inl, inr, List, [], ◌∷◌, ◌++◌, arith, length}
use ltrdata.Prelude.Int.{ℤ, mag, pos, negsuc}
use ltrdata.Guess.{
  out_of_range, correct, told_high, told_low, too_high, too_low, State, initial, judge, answer,
  play,
}
use ltrdata.Guess.Remembered.{Remembers}
use ltrdata.Guess.Replies.{Between, Narrows, Answers, answer-Answers}
use ltrdata.Guess.Game.{play-ends}

initial-Between : Between 40 initial
initial-Between = record {
  one_le = omega arith;
  le_99 = omega arith;
  above = omega arith;
  below = omega arith;
}

-- The first guess was 70, which is too high.
abbrev after_70 : State
after_70 = record { highest = 70; lowest = 1; tries = 1 }

after_70-Between : Between 40 after_70
after_70-Between = record {
  one_le = omega arith;
  le_99 = omega arith;
  above = omega arith;
  below = omega arith;
}

after_70-Remembers : Remembers ((pos 70, too_high) ∷ []) after_70
after_70-Remembers = record { high = inl (inl (refl, refl)); low = inr (refl, ((λ e. cc), tt)) }

-- 80 after 70 is answered with "I have told you".
answer-Answers_example :
    Answers (answer 40 after_70 (pos 80)).0 ((pos 70, too_high) ∷ []) 40 2 (pos 80)
    × Between 40 (answer 40 after_70 (pos 80)).1
    × Remembers
        ((pos 80, (answer 40 after_70 (pos 80)).0) ∷ (pos 70, too_high) ∷ [])
        (answer 40 after_70 (pos 80)).1
    × Narrows (answer 40 after_70 (pos 80)).0 70 1 (answer 40 after_70 (pos 80)).1
    × ((answer 40 after_70 (pos 80)).1.tries ≡ 2)
answer-Answers_example =
    answer-Answers 40 ((pos 70, too_high) ∷ []) after_70 (pos 80) after_70-Between
      after_70-Remembers

answer_run : (answer 40 after_70 (pos 80)).0 ≡ told_high
unfolding answer judge
answer_run = refl

-- The first guess, 1, is answered with "I have told you".
abbrev guesses : List ℤ
guesses = pos 1 ∷ pos 50 ∷ pos 60 ∷ negsuc 2 ∷ pos 30 ∷ []

play_run :
    play 40 initial (guesses ++ pos 40 ∷ [])
    ≡ told_low ∷ too_high ∷ told_high ∷ out_of_range ∷ too_low ∷ correct 6 ∷ []
unfolding play answer judge
play_run = refl

pos_other : (x : ℕ) → x ≢ 40 → pos x ≢ pos 40
pos_other x other e = other (ap mag e)

play-ends_example :
    (play 40 initial (guesses ++ pos 40 ∷ pos 7 ∷ []) ≡ play 40 initial guesses ++ correct 6 ∷ [])
    × (length (play 40 initial guesses) ≡ 5)
play-ends_example = play-ends 40 initial guesses (pos 7 ∷ []) initial-Between (
  pos_other 1 (omega arith),
  (
    pos_other 50 (omega arith),
    (pos_other 60 (omega arith), ((λ e. cc), (pos_other 30 (omega arith), tt))),
  ),
)
