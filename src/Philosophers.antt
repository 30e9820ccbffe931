-- ===== src/Philosophers.antt =====
-- posix/filosof.cpp and posix/nyfilosof.cpp: five philosophers who share five chopsticks.
-- The two programs differ in who picks up the right chopstick first, which is the parameter
-- `right_first`. A chopstick is a semaphore: a pipe with a byte in it, or one of System V. Each call
-- on a semaphore is one step of a philosopher, and the steps are interleaved in any order.
pub mod Invariant
pub mod Progress
use ltrdata.Prelude.{
  ℕ, ◌+◌, ◌-◌, ◌%◌, ◌<◌, ◌≡◌, Bool, true, false, Option, none, some, List, [], ◌∷◌, ◌==◌,
  if◌then◌else◌,
}

-- N
abbrev pub philosophers : ℕ
philosophers = 5

abbrev pub left : ℕ → ℕ
left me = me

abbrev pub right : ℕ → ℕ
right me = (me + 1) % 5

pub data Program : Type 0 where
  filosof nyfilosof : Program

-- Who picks up the right chopstick first: `if (!me)`, and `if (me & 1)`.
abbrev pub order : Program → ℕ → Bool
order filosof me = me == 0
order nyfilosof me = me % 2 == 1

-- Where a philosopher stands: before `pick_up`, between its two waits, behind it, and between the
-- two signals of `put_down`.
pub data Stage : Type 0 where
  thinking holding eating putting : Stage

pub record Table : Type 0 where
  pub chopstick : ℕ → ℕ
  pub stage : ℕ → Stage

abbrev pub update {ℓ} : {A : Type ℓ} → (ℕ → A) → ℕ → A → ℕ → A
update f i a j = if i == j then a else f j

-- `main`: each semaphore is made and signalled once.
abbrev pub set_table : Table
set_table = record { chopstick = λ c. 1; stage = λ i. thinking }

-- `none` is a wait that blocks.
abbrev pub waitsema : (ℕ → ℕ) → ℕ → Option (ℕ → ℕ)
waitsema chopstick s =
    if chopstick s == 0 then none else some (update chopstick s (chopstick s - 1))

abbrev pub signal : (ℕ → ℕ) → ℕ → ℕ → ℕ
signal chopstick s = update chopstick s (chopstick s + 1)

-- A philosopher whose wait succeeds goes on to `next`.
abbrev pub go_on : Table → ℕ → Stage → Option (ℕ → ℕ) → Option Table
go_on t me next none = none
go_on t me next (some chopstick) =
    some (record { chopstick = chopstick; stage = update t.stage me next })

module _ (right_first : ℕ → Bool) where
  -- The chopsticks in the order of `pick_up`.
  abbrev pub first : ℕ → ℕ
  first me = if right_first me then right me else left me

  abbrev pub second : ℕ → ℕ
  second me = if right_first me then left me else right me

  -- The step of `me` from its stage.
  abbrev pub step_from : Table → ℕ → Stage → Option Table
  step_from t me thinking = go_on t me holding (waitsema t.chopstick (first me))
  step_from t me holding = go_on t me eating (waitsema t.chopstick (second me))
  step_from t me eating = go_on t me putting (some (signal t.chopstick (left me)))
  step_from t me putting = go_on t me thinking (some (signal t.chopstick (right me)))

  unfoldable pub philosopher : Table → ℕ → Option Table
  philosopher t me = step_from t me (t.stage me)

  -- The tables that some order of steps leads to.
  pub data Reach : Table → Type 0 where
    start : Reach set_table
    later :
        {t u : Table} (me : ℕ) → me < philosophers → Reach t → philosopher t me ≡ some u → Reach u

  -- The table after the steps of the philosophers in a list, unless one of them blocks.
  abbrev pub run : List ℕ → Table → Option Table
  run [] t = some t
  run (me ∷ rest) t = elim (philosopher t me) [ none ↦ none | some u ↦ run rest u ]
