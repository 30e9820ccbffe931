-- ===== src/Priority/Setting.antt =====
-- A priority class that was set is shown.
use ltrdata.Prelude.{
  ℕ, ◌-◌, ◌^◌, ◌≡◌, ◌≢◌, ◌⊎◌, inl, inr, refl, sym, ap, ◌∙◌, true, false, Option, none, some, List,
  [], ◌∷◌, get_or, ◌==◌, ==_iff, if◌then◌else◌, if-cases, arith,
}
use mathlib.Core.Path.{subst}
use ltrdata.Stdlib.{strtoul_auto}
use ltrdata.Priority.{
  Class, high, idle, below_normal, normal, above_normal, realtime, class_of, lower_bit, name_of,
  class, Access, set_information, query_information, reply_lines, Processes, Line, priority,
  after_open, set_class, show_class, setprio,
}

-- The letter of a class, from a letter of either case: that of the name.
abbrev pub initial_of : Class → ℕ
initial_of new = lower_bit (get_or (name_of new) 0 0)

-- What the program takes a letter for: the class whose name begins with it, if there is one.
abbrev Letter : ℕ → Option Class → Type 0
Letter c none = (new : Class) → lower_bit c ≢ initial_of new
Letter c (some new) = lower_bit c ≡ initial_of new

no_initial :
    (l : ℕ)
    → (l == b'h') ≡ false
    → (l == b'i') ≡ false
    → (l == b'b') ≡ false
    → (l == b'n') ≡ false
    → (l == b'a') ≡ false
    → (l == b'r') ≡ false
    → (new : Class) → l ≢ initial_of new
unfolding name_of
no_initial l h i b n a r high e = ground arith
no_initial l h i b n a r idle e = ground arith
no_initial l h i b n a r below_normal e = ground arith
no_initial l h i b n a r normal e = ground arith
no_initial l h i b n a r above_normal e = ground arith
no_initial l h i b n a r realtime e = ground arith

class_of-Letter : (c : ℕ) → Letter c (class_of c)
unfolding name_of
class_of-Letter c =
    let l = lower_bit c in
    if-cases (Letter c) (l == b'h') (λ e. (==_iff l b'h').0 e)
      (λ h.
        if-cases (Letter c) (l == b'i') (λ e. (==_iff l b'i').0 e)
          (λ i.
            if-cases (Letter c) (l == b'b') (λ e. (==_iff l b'b').0 e)
              (λ b.
                if-cases (Letter c) (l == b'n') (λ e. (==_iff l b'n').0 e)
                  (λ n.
                    if-cases (Letter c) (l == b'a') (λ e. (==_iff l b'a').0 e)
                      (λ a.
                        if-cases (Letter c) (l == b'r') (λ e. (==_iff l b'r').0 e)
                          (λ r. no_initial l h i b n a r))))))

module _ {W : Type 0} (processes : Processes W) where
  -- The process `pid` can be opened, and its class can be set: `class_at` is the class of a process,
  -- and `pid_of` the process of a handle.
  pub record Permitted (pid : ℕ) : Type 0 where
    pub class_at : W → ℕ → Class
    pub pid_of : W → ℕ → ℕ
    pub opens :
        (w : W) (access : Access)
        → (w' : W) × (handle : ℕ) × (processes.open_process w access pid ≡ (w', some handle))
          × (pid_of w' handle ≡ pid)
          × (class_at w' pid ≡ class_at w pid)
    pub sets :
        (w : W) (handle : ℕ) (new : Class)
        → (w' : W) × (processes.set_priority_class w handle new ≡ (w', true))
          × (class_at w' (pid_of w handle) ≡ new)
    pub gets :
        (w : W) (handle : ℕ)
        → processes.get_priority_class w handle ≡ class (class_at w (pid_of w handle))

  -- The first line that the program prints names a class that begins with the letter.
  abbrev pub Shows : ℕ → W × List Line × ℕ → Type 0
  Shows c (w, [], code) = ⊥
  Shows c (w, line ∷ lines, code) =
      (name : List ℕ) × (line ≡ priority name) × (lower_bit c ≡ lower_bit (get_or name 0 0))

  Shows-class :
      (c : ℕ) (new : Class) (r : W × Option ℕ) (w : W) (handle : ℕ)
      → lower_bit c ≡ initial_of new
      → r ≡ (w, some handle)
      → processes.get_priority_class w handle ≡ class new
      → Shows c (show_class processes r)
  unfolding show_class
  Shows-class c new r w handle letter opened is =
      subst (λ s. Shows c (show_class processes s)) (sym opened)
        (subst
          (λ reply.
            let (lines, code) = reply_lines reply (processes.get_process_times w handle) in
            Shows c (w, lines, code))
          (sym is) (name_of new, refl, letter))

  set_class_lem :
      (pid : ℕ) (permitted : Permitted pid) (w : W) (new : Class)
      → (w' : W) × (set_class processes w pid (some new) ≡ (w', [], 0))
        × (permitted.class_at w' pid ≡ new)
  unfolding set_class after_open
  set_class_lem pid permitted w new =
      let (w1, handle, opened, is, kept) = permitted.opens w set_information in
      let (w2, set, at) = permitted.sets w1 handle new in
      (
        w2,
        ap (after_open processes new) opened
            ∙ ap (λ s. if s.1 then (s.0, [], 0) else (s.0, [], 2)) set,
        ap (permitted.class_at w2) (sym is) ∙ at,
      )

  abbrev pub Answers : List ℕ → W → ℕ → W × List Line × ℕ → Type 0
  Answers pid w c r =
      ((w' : W) × (r ≡ (w', [], 0)) × Shows c (setprio processes w' (pid ∷ [])))
      ⊎ ((r ≡ (w, [], 2 ^ 32 - 1)) × ((new : Class) → lower_bit c ≢ initial_of new))

  Letter-Answers :
      (pid : List ℕ) (permitted : Permitted (strtoul_auto pid)) (w : W) (c : ℕ) (o : Option Class)
      → Letter c o
      → Answers pid w c (set_class processes w (strtoul_auto pid) o)
  unfolding setprio set_class
  Letter-Answers pid permitted w c none letter = inr (refl, letter)
  Letter-Answers pid permitted w c (some new) letter =
      let (w1, set, at) = set_class_lem (strtoul_auto pid) permitted w new in
      let (w2, handle, opened, is, kept) = permitted.opens w1 query_information in
      inl (
        w1,
        set,
        Shows-class c new (processes.open_process w1 query_information (strtoul_auto pid)) w2 handle
            letter opened
            (permitted.gets w2 handle ∙ ap class (ap (permitted.class_at w2) is ∙ kept ∙ at)),
      )

  -- For a process that can be opened and changed, and an argument that begins with the character
  -- `c`: if the name of a class begins with that letter, in either case, the program returns 0, and
  -- without a letter it then prints the name of a class that begins with it; else it returns -1 and
  -- changes nothing.
  pub setprio-Shows :
      (pid : List ℕ) (permitted : Permitted (strtoul_auto pid)) (w : W) (c : ℕ) (more : List ℕ)
      → Answers pid w c (setprio processes w (pid ∷ (c ∷ more) ∷ []))
  unfolding setprio
  setprio-Shows pid permitted w c more =
      Letter-Answers pid permitted w c (class_of c) (class_of-Letter c)
