-- ===== src/Philosophers/Progress.antt =====
-- The philosophers of posix/filosof.cpp and posix/nyfilosof.cpp never block one another for good.
use ltrdata.Prelude.{ℕ, ◌-◌, ◌<◌, ◌≡◌, refl, Bool, true, false, some, arith}
use ltrdata.Philosophers.{
  philosophers, right, left, Program, filosof, nyfilosof, order, Stage, thinking, holding, eating,
  putting, Table, update, signal, first, second, philosopher, Reach,
}
use ltrdata.Philosophers.Invariant.{before, in_left, in_right, Inv, Reach-Inv}

module _ (right_first : ℕ → Bool) (t : Table) where
  -- Some philosopher can take a step.
  abbrev pub GoesOn : Type 0
  GoesOn = (me : ℕ) × (me < philosophers) × (u : Table) × (philosopher right_first t me ≡ some u)

  puts_down : (me : ℕ) → me < philosophers → t.stage me ≡ eating → GoesOn
  unfolding philosopher
  puts_down me lt e = (
    me,
    lt,
    record { chopstick = signal t.chopstick (left me); stage = update t.stage me putting },
    rw (philosopher, e),
  )

  puts_other : (me : ℕ) → me < philosophers → t.stage me ≡ putting → GoesOn
  unfolding philosopher
  puts_other me lt e = (
    me,
    lt,
    record { chopstick = signal t.chopstick (right me); stage = update t.stage me thinking },
    rw (philosopher, e),
  )

  picks_up :
      (me : ℕ)
      → me < philosophers
      → t.stage me ≡ thinking
      → t.chopstick (first right_first me) ≡ 1
      → GoesOn
  unfolding philosopher
  picks_up me lt e free =
      let s : ℕ = first right_first me in
      (
        me,
        lt,
        record {
          chopstick = update t.chopstick s (t.chopstick s - 1);
          stage = update t.stage me holding;
        },
        rw (philosopher, e, free),
      )

  picks_other :
      (me : ℕ)
      → me < philosophers
      → t.stage me ≡ holding
      → t.chopstick (second right_first me) ≡ 1
      → GoesOn
  unfolding philosopher
  picks_other me lt e free =
      let s : ℕ = second right_first me in
      (
        me,
        lt,
        record {
          chopstick = update t.chopstick s (t.chopstick s - 1);
          stage = update t.stage me eating;
        },
        rw (philosopher, e, free),
      )

  -- `a` goes for its left chopstick first, as its left neighbour does, and its right one does not.
  module _ (inv : Inv right_first t) (a : ℕ) (lt : a < philosophers)
      (left_neighbour : right_first (before a) ≡ false) (here : right_first a ≡ false)
      (right_neighbour : right_first (right a) ≡ true) where
    first_free :
        (other : Stage)
        → t.stage a ≡ thinking
        → t.stage (before a) ≡ other
        → in_right right_first other (before a) ≡ 0
        → t.chopstick (first right_first a) ≡ 1
    first_free other at_a at_other none_held =
        let one = inv a lt in rw here (omega (arith, rw (at_a, at_other, none_held) at one))

    second_free :
        (other : Stage)
        → t.stage a ≡ holding
        → t.stage (right a) ≡ other
        → in_left right_first other (right a) ≡ 0
        → t.chopstick (second right_first a) ≡ 1
    second_free other at_a at_other none_held =
        let one = inv (right a) (omega arith) in
        let back : before (right a) ≡ a = omega arith in
        rw here (omega (arith, rw (back, at_a, at_other, none_held, here) at one))

    a_goes_on :
        (at_a at_left at_right : Stage)
        → t.stage a ≡ at_a
        → t.stage (before a) ≡ at_left
        → t.stage (right a) ≡ at_right
        → GoesOn
    a_goes_on eating l r ea el er = puts_down a lt ea
    a_goes_on putting l r ea el er = puts_other a lt ea
    a_goes_on thinking eating r ea el er = puts_down (before a) (omega arith) el
    a_goes_on thinking putting r ea el er = puts_other (before a) (omega arith) el
    a_goes_on thinking thinking r ea el er = picks_up a lt ea (first_free thinking ea el refl)
    a_goes_on thinking holding r ea el er =
        picks_up a lt ea (first_free holding ea el (rw left_neighbour))
    a_goes_on holding l eating ea el er = puts_down (right a) (omega arith) er
    a_goes_on holding l putting ea el er = puts_other (right a) (omega arith) er
    a_goes_on holding l thinking ea el er = picks_other a lt ea (second_free thinking ea er refl)
    a_goes_on holding l holding ea el er =
        picks_other a lt ea (second_free holding ea er (rw right_neighbour))

-- No deadlock: in every table that either program can reach, some philosopher can take a step.
pub Reach-GoesOn :
    (program : Program) {t : Table} → Reach (order program) t → GoesOn (order program) t
Reach-GoesOn filosof {t} r =
    a_goes_on (order filosof) t (Reach-Inv (order filosof) r) 4 (omega arith) refl refl refl _ _ _
      refl refl refl
Reach-GoesOn nyfilosof {t} r =
    a_goes_on (order nyfilosof) t (Reach-Inv (order nyfilosof) r) 0 (omega arith) refl refl refl _ _
      _ refl refl refl
