-- ===== src/Examples/Philosophers.antt =====
-- The philosophers of posix/filosof.cpp and posix/nyfilosof.cpp in some orders of steps.
use ltrdata.Prelude.{ℕ, ◌≡◌, ◌≢◌, refl, Bool, false, none, some, [], ◌∷◌, arith}
use ltrdata.Philosophers.{
  filosof, order, holding, eating, Table, set_table, update, philosopher, Reach, start, later, run,
}
use ltrdata.Philosophers.Invariant.{Reach-neighbours}
use ltrdata.Philosophers.Progress.{GoesOn, Reach-GoesOn}

-- Philosopher 0 has its right chopstick, and then philosopher 4 its left one.
abbrev one_held : Table
one_held = record {
  chopstick = update set_table.chopstick 1 0;
  stage = update set_table.stage 0 holding;
}

abbrev two_held : Table
two_held = record {
  chopstick = update one_held.chopstick 4 0;
  stage = update one_held.stage 4 holding;
}

two_held-Reach : Reach (order filosof) two_held
unfolding philosopher
two_held-Reach = later 4 (omega arith) (later 0 (omega arith) start refl) refl

Reach-GoesOn_example : GoesOn (order filosof) two_held
Reach-GoesOn_example = Reach-GoesOn filosof two_held-Reach

-- Philosopher 0 eats.
abbrev one_eats : Table
one_eats = record {
  chopstick = update one_held.chopstick 0 0;
  stage = update one_held.stage 0 eating;
}

one_eats-Reach : Reach (order filosof) one_eats
unfolding philosopher
one_eats-Reach = later 0 (omega arith) (later 0 (omega arith) start refl) refl

Reach-neighbours_example : one_eats.stage 1 ≢ eating
Reach-neighbours_example = Reach-neighbours (order filosof) one_eats-Reach 0 (omega arith) refl

-- If all of them picked up the left chopstick first, each could wait for the next one for ever.
abbrev all_left : ℕ → Bool
all_left me = false

all_left-run :
    (t : Table) × (run all_left (0 ∷ 1 ∷ 2 ∷ 3 ∷ 4 ∷ []) set_table ≡ some t)
    × (philosopher all_left t 0 ≡ none)
    × (philosopher all_left t 1 ≡ none)
    × (philosopher all_left t 2 ≡ none)
    × (philosopher all_left t 3 ≡ none)
    × (philosopher all_left t 4 ≡ none)
unfolding philosopher
all_left-run = (_, refl, refl, refl, refl, refl, refl)
