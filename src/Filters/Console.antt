-- ===== src/Filters/Console.antt =====
-- `ReadFile` and `WriteFile` on the standard handles, as parameters.
use ltrdata.Prelude.{
  ℕ, ◌≤◌, ◌<◌, ◌≡◌, refl, sym, ap, ◌∙◌, ◌⊎◌, inl, inr, map, Option, none, some, Run, done, List, [],
  ◌∷◌, ◌++◌, arith, length, take, drop, take-append-drop, length-take, length-append,
}
use mathlib.Core.List.{append_assoc, map-append}

-- `read w n` asks for `n` bytes: the new world, and the bytes that came, or `none` on failure.
-- `write w bytes` gives the new world, and the count of bytes written, or `none` on failure.
pub record Console (W : Type 0) : Type 0 where
  pub read : W → ℕ → W × Option (List ℕ)
  pub write : W → List ℕ → W × Option ℕ

-- What follows `WriteFile`, and what follows `ReadFile`: the loop ends with the exit status
-- `failed` if the call fails, and with 0 at the end of the input.
unfoldable pub after_write : {W : Type 0} → ℕ → W × Option ℕ → (W → ℕ → Run (W × ℕ)) → Run (W × ℕ)
after_write failed (w, none) k = done (w, failed)
after_write failed (w, some n) k = k w n

unfoldable pub after_read :
    {W : Type 0} → ℕ → W × Option (List ℕ) → (W → List ℕ → Run (W × ℕ)) → Run (W × ℕ)
after_read failed (w, none) k = done (w, failed)
after_read failed (w, some []) k = done (w, 0)
after_read failed (w, some (c ∷ cs)) k = k w (c ∷ cs)

pub after_write-some :
    {W : Type 0} (failed : ℕ) (w : W) (n : ℕ) (k : W → ℕ → Run (W × ℕ))
    → after_write failed (w, some n) k ≡ k w n
unfolding after_write
after_write-some failed w n k = refl

pub after_read-cons :
    {W : Type 0} (failed : ℕ) (w : W) (c : ℕ) (cs : List ℕ) (k : W → List ℕ → Run (W × ℕ))
    → after_read failed (w, some (c ∷ cs)) k ≡ k w (c ∷ cs)
unfolding after_read
after_read-cons failed w c cs k = refl

pub after_read-nil :
    {W : Type 0} (failed : ℕ) (w : W) (k : W → List ℕ → Run (W × ℕ))
    → after_read failed (w, some []) k ≡ done (w, 0)
unfolding after_read
after_read-nil failed w k = refl

-- A console that never fails and writes all that it is given: `input` is still to be read, and
-- `output` was written. A request of a positive size gets part of the input, and nothing only at
-- its end.
pub record Reliable {W : Type 0} (c : Console W) : Type 0 where
  pub input : W → List ℕ
  pub output : W → List ℕ
  pub reads :
      (w : W) (n : ℕ)
      → 0 < n
      → (w' : W) × (bytes : List ℕ) × (c.read w n ≡ (w', some bytes))
        × (length bytes ≤ n)
        × (input w ≡ bytes ++ input w')
        × (output w' ≡ output w)
        × (length bytes ≡ 0 → input w ≡ [])
  pub writes :
      (w : W) (bytes : List ℕ)
      → (w' : W) × (c.write w bytes ≡ (w', some (length bytes)))
        × (input w' ≡ input w)
        × (output w' ≡ output w ++ bytes)

-- A console in memory: the input and the output. It reads as much as is asked for.
abbrev pub memory_console : Console (List ℕ × List ℕ)
memory_console = record {
  read = λ w n. ((drop n w.0, w.1), some (take n w.0));
  write = λ w bytes. ((w.0, w.1 ++ bytes), some (length bytes));
}

pub take_none : (n : ℕ) (xs : List ℕ) → 0 < n → length (take n xs) ≡ 0 → xs ≡ []
take_none n [] h e = refl
take_none n (x ∷ xs) h e = absurd (omega (arith, length-take n (x ∷ xs)))

unfoldable pub memory_reliable : Reliable memory_console
memory_reliable = record {
  input = λ w. w.0;
  output = λ w. w.1;
  reads = λ w n h. (
    (drop n w.0, w.1),
    take n w.0,
    refl,
    omega (arith, length-take n w.0),
    sym (take-append-drop n w.0),
    refl,
    take_none n w.0 h,
  );
  writes = λ w bytes. ((w.0, w.1 ++ bytes), refl, refl, refl);
}

-- A console that never fails, where each read gets as much as there is.
pub record Whole {W : Type 0} (console : Console W) : Type 0 where
  pub input : W → List ℕ
  pub output : W → List ℕ
  pub reads :
      (w : W) (n : ℕ)
      → (w' : W) × (console.read w n ≡ (w', some (take n (input w))))
        × (input w' ≡ drop n (input w))
        × (output w' ≡ output w)
  pub writes :
      (w : W) (bytes : List ℕ)
      → (w' : W) × (console.write w bytes ≡ (w', some (length bytes)))
        × (input w' ≡ input w)
        × (output w' ≡ output w ++ bytes)

abbrev pub memory_whole : Whole memory_console
memory_whole = record {
  input = λ w. w.0;
  output = λ w. w.1;
  reads = λ w n. (_, refl, refl, refl);
  writes = λ w bytes. (_, refl, refl, refl);
}

-- One round of a filter: at the end of the input nothing comes, and else a piece of it comes, and
-- what is written of it goes to the output.
module _ {W : Type 0} {c : Console W} (r : Reliable c) (f : List ℕ → List ℕ) (w : W) (n : ℕ) where
  pub record AtEnd : Type 0 where
    pub w₁ : W
    pub read : c.read w n ≡ (w₁, some [])
    pub all_read : r.input w ≡ []
    pub still : r.input w₁ ≡ []
    pub same : r.output w₁ ≡ r.output w

  pub record Passes : Type 0 where
    pub w₁ : W
    pub w₂ : W
    pub head : ℕ
    pub tail : List ℕ
    pub read : c.read w n ≡ (w₁, some (head ∷ tail))
    pub write : c.write w₁ (f (head ∷ tail)) ≡ (w₂, some (length (f (head ∷ tail))))
    pub fits : length (head ∷ tail) ≤ n
    pub split : r.input w ≡ (head ∷ tail) ++ r.input w₂
    pub grown : r.output w₂ ≡ r.output w ++ f (head ∷ tail)

  round :
      (w₁ : W) (bytes : List ℕ)
      → c.read w n ≡ (w₁, some bytes)
      → length bytes ≤ n
      → r.input w ≡ bytes ++ r.input w₁
      → r.output w₁ ≡ r.output w
      → (length bytes ≡ 0 → r.input w ≡ [])
      → AtEnd ⊎ Passes
  round w₁ [] read fits split same at_end = inl (record {
    w₁ = w₁;
    read = read;
    all_read = at_end refl;
    still = sym split ∙ at_end refl;
    same = same;
  })
  round w₁ (x ∷ xs) read fits split same at_end =
      let (w₂, write, kept, grown) = r.writes w₁ (f (x ∷ xs)) in
      inr (record {
        w₁ = w₁;
        w₂ = w₂;
        head = x;
        tail = xs;
        read = read;
        write = write;
        fits = fits;
        split = split ∙ ap (◌++◌ (x ∷ xs)) (sym kept);
        grown = grown ∙ ap (λ l. l ++ f (x ∷ xs)) same;
      })

  pub round_lem : 0 < n → AtEnd ⊎ Passes
  round_lem pos =
      let (w₁, bytes, read, fits, split, same, at_end) = r.reads w n pos in
      round w₁ bytes read fits split same at_end

-- Along a round that passes a piece on, a filter that works on each byte has written more of the
-- same output.
pub Passes-output :
    {W : Type 0} {c : Console W} (r : Reliable c) (g : ℕ → ℕ) (w : W) (n : ℕ)
    (p : Passes r (map g) w n) (w' : W)
    → r.output w' ≡ r.output p.w₂ ++ map g (r.input p.w₂)
    → r.output w' ≡ r.output w ++ map g (r.input w)
Passes-output r g w n p w' e =
    e
    ∙ rw (p.grown, p.split, map-append g (p.head ∷ p.tail) (r.input p.w₂))
        (append_assoc (r.output w) (map g (p.head ∷ p.tail)) (map g (r.input p.w₂)))

pub Passes-shorter :
    {W : Type 0} {c : Console W} (r : Reliable c) (f : List ℕ → List ℕ) (w : W) (n : ℕ)
    (p : Passes r f w n)
    → length (r.input p.w₂) < length (r.input w)
Passes-shorter r f w n p =
    omega (arith, ap length p.split, length-append (p.head ∷ p.tail) (r.input p.w₂))
