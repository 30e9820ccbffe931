-- ===== src/Philosophers/Invariant.antt =====
-- Each chopstick of posix/filosof.cpp and posix/nyfilosof.cpp is on the table or in one hand.
use mathlib.Core.Path.{subst}
use ltrdata.Prelude.{
  ℕ, ◌+◌, ◌-◌, ◌%◌, ◌<◌, ◌≡◌, ◌≢◌, refl, Bool, Option, none, some, arith, ◌==◌, if◌then◌else◌,
  Bool-cases, ==_iff, inl, inr,
}
use ltrdata.Philosophers.{
  philosophers, right, left, Stage, thinking, holding, eating, putting, Table, set_table, update,
  waitsema, signal, go_on, first, second, step_from, philosopher, Reach, start, later,
}

-- The philosopher on the other side of a chopstick.
abbrev pub before : ℕ → ℕ
before c = (c + 4) % 5

module _ (right_first : ℕ → Bool) where
  -- How many chopsticks a philosopher holds in each hand.
  abbrev pub in_left : Stage → ℕ → ℕ
  in_left thinking me = 0
  in_left holding me = if right_first me then 0 else 1
  in_left eating me = 1
  in_left putting me = 0

  abbrev pub in_right : Stage → ℕ → ℕ
  in_right thinking me = 0
  in_right holding me = if right_first me then 1 else 0
  in_right eating me = 1
  in_right putting me = 1

  abbrev pub count : Table → ℕ → ℕ
  count t c = t.chopstick c + in_left (t.stage c) c + in_right (t.stage (before c)) (before c)

  abbrev pub Inv : Table → Type 0
  Inv t = (c : ℕ) → c < philosophers → count t c ≡ 1

  -- What `me` holds of the chopstick `c` at a stage.
  abbrev held : Stage → ℕ → ℕ → ℕ
  held stage me c =
      (if me == c then in_left stage me else 0) + (if me == before c then in_right stage me else 0)

  -- A step keeps the invariant if the semaphores make up for what changes hands.
  keeps :
      (t : Table) (me : ℕ) (old next : Stage) (chopstick : ℕ → ℕ)
      → t.stage me ≡ old
      → ((c : ℕ) → c < philosophers → chopstick c + held next me c ≡ t.chopstick c + held old me c)
      → Inv t
      → Inv (record { chopstick = chopstick; stage = update t.stage me next })
  keeps t me old next chopstick at_stage change inv c lt = ground (arith, change c lt, inv c lt)

  waitsema-first :
      (chopstick : ℕ → ℕ) (me c : ℕ)
      → me < philosophers
      → c < philosophers
      → chopstick (first right_first me) ≢ 0
      → update chopstick (first right_first me) (chopstick (first right_first me) - 1) c
          + held holding me c
        ≡ chopstick c + held thinking me c
  waitsema-first chopstick me c lt c_lt free = ground arith

  waitsema-second :
      (chopstick : ℕ → ℕ) (me c : ℕ)
      → me < philosophers
      → c < philosophers
      → chopstick (second right_first me) ≢ 0
      → update chopstick (second right_first me) (chopstick (second right_first me) - 1) c
          + held eating me c
        ≡ chopstick c + held holding me c
  waitsema-second chopstick me c lt c_lt free = ground arith

  signal-left :
      (chopstick : ℕ → ℕ) (me c : ℕ)
      → me < philosophers
      → c < philosophers
      → signal chopstick (left me) c + held putting me c ≡ chopstick c + held eating me c
  signal-left chopstick me c lt c_lt = ground arith

  signal-right :
      (chopstick : ℕ → ℕ) (me c : ℕ)
      → me < philosophers
      → c < philosophers
      → signal chopstick (right me) c + held thinking me c ≡ chopstick c + held putting me c
  signal-right chopstick me c lt c_lt = ground arith

  some-injective : {A : Type 0} {a b : A} → some a ≡ some b → a ≡ b
  some-injective e = cc

  -- A wait that succeeds found the chopstick on the table.
  go_on-waitsema :
      (t u : Table) (me s : ℕ) (next : Stage)
      → go_on t me next (waitsema t.chopstick s) ≡ some u
      → (t.chopstick s ≢ 0)
        × (record {
          chopstick = update t.chopstick s (t.chopstick s - 1);
          stage = update t.stage me next;
        }
            ≡ u)
  go_on-waitsema t u me s next run = elim (Bool-cases (t.chopstick s == 0)) [
    | inl taken ↦ absurd (none-some (rw taken at run))
    | inr free ↦ (λ z. cc (free, (==_iff (t.chopstick s) 0).1 z), some-injective (rw free at run))
  ]
    where
      none-some : {A : Type 0} {a : A} → ◌≡◌ {A = Option A} none (some a) → ⊥
      none-some e = cc

  step_from-Inv :
      (t u : Table) (me : ℕ) (stage : Stage)
      → me < philosophers
      → t.stage me ≡ stage
      → step_from right_first t me stage ≡ some u
      → Inv t
      → Inv u
  step_from-Inv t u me thinking lt at_stage run inv =
      let (free, e) = go_on-waitsema t u me (first right_first me) holding run in
      subst Inv e (
        keeps t me thinking holding _ at_stage
          (λ c c_lt. waitsema-first t.chopstick me c lt c_lt free) inv)
  step_from-Inv t u me holding lt at_stage run inv =
      let (free, e) = go_on-waitsema t u me (second right_first me) eating run in
      subst Inv e (
        keeps t me holding eating _ at_stage
          (λ c c_lt. waitsema-second t.chopstick me c lt c_lt free) inv)
  step_from-Inv t u me eating lt at_stage run inv =
      subst Inv (some-injective run)
        (keeps t me eating putting _ at_stage (λ c c_lt. signal-left t.chopstick me c lt c_lt) inv)
  step_from-Inv t u me putting lt at_stage run inv =
      subst Inv (some-injective run) (
        keeps t me putting thinking _ at_stage (λ c c_lt. signal-right t.chopstick me c lt c_lt)
          inv)

  set_table-Inv : Inv set_table
  set_table-Inv c lt = refl

  -- In every table that can be reached, each chopstick is once on the table or once in the hand of
  -- one of the two philosophers beside it.
  pub Reach-Inv : {t : Table} → Reach right_first t → Inv t
  unfolding philosopher
  Reach-Inv start = set_table-Inv
  Reach-Inv (later {t} {u} me lt r run) =
      step_from-Inv t u me (t.stage me) lt refl run (Reach-Inv r)

  -- Two philosophers beside each other never eat at the same time.
  pub Reach-neighbours :
      {t : Table}
      → Reach right_first t
      → (me : ℕ) → me < philosophers
      → t.stage me ≡ eating
      → t.stage (right me) ≢ eating
  Reach-neighbours {t} r me lt eats both =
      let one = Reach-Inv r (right me) (omega arith) in
      let back : before (right me) ≡ me = omega arith in ground (arith, rw back at one)
