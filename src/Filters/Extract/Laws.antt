-- ===== src/Filters/Extract/Laws.antt =====
-- win32/c/extrtext32.c against a function on the whole text.
use mathlib.Core.List.{append-nil, append_assoc}
use ltrdata.Prelude.{
  ℕ, zero, suc, ◌≤◌, ◌<◌, ◌≡◌, refl, sym, ap, ◌∙◌, ◌⊎◌, inl, inr, true, false, some, List, [], ◌∷◌,
  ◌++◌, arith, Run, done, length, ltb, if◌then◌else◌, Bool-cases,
}
use ltrdata.Filters.Console.{Console, Reliable}
use ltrdata.Filters.Extract.{Phase, skipping, copying, after_byte, after_put, extract_text}

-- The runs of bytes from 0x20 on, with CR LF behind each run that a lower byte ends.
abbrev pub lines : Phase → List ℕ → List ℕ
lines phase [] = []
lines skipping (c ∷ cs) = if ltb c 0x20 then lines skipping cs else c ∷ lines copying cs
lines copying (c ∷ cs) =
    if ltb c 0x20 then b'\r' ∷ b'\n' ∷ lines skipping cs else c ∷ lines copying cs

abbrev pub printable : List ℕ → List ℕ
printable [] = []
printable (c ∷ cs) = if ltb c 0x20 then printable cs else c ∷ printable cs

-- The extracted text has the printable bytes of the input, in order, and no other printable byte.
pub printable-lines : (phase : Phase) (cs : List ℕ) → printable (lines phase cs) ≡ printable cs
printable-lines skipping [] = refl
printable-lines copying [] = refl
printable-lines skipping (c ∷ cs) =
    ground (arith, printable-lines skipping cs, printable-lines copying cs)
printable-lines copying (c ∷ cs) =
    ground (arith, printable-lines skipping cs, printable-lines copying cs)

after_byte-nil :
    {W : Type 0} (console : Console W) (w : W) (k : W → ℕ → Run (W × ℕ))
    → after_byte console (w, some []) k ≡ done (w, 0)
unfolding after_byte
after_byte-nil console w k = refl

after_byte-cons :
    {W : Type 0} (console : Console W) (w : W) (c : ℕ) (cs : List ℕ) (k : W → ℕ → Run (W × ℕ))
    → after_byte console (w, some (c ∷ cs)) k ≡ k w c
unfolding after_byte
after_byte-cons console w c cs k = refl

after_put-one :
    {W : Type 0} (console : Console W) (w : W) (k : W → Run (W × ℕ))
    → after_put console (w, some 1) k ≡ k w
unfolding after_put
after_put-one console w k = refl

module _ {W : Type 0} {console : Console W} (r : Reliable console) where
  -- The run from `w` ends with status 0 and writes `text`.
  abbrev pub Extracts : ℕ → Phase → W → List ℕ → Type 0
  Extracts fuel phase w text =
      (w' : W) × (extract_text console fuel phase w ≡ done (w', 0))
      × (r.input w' ≡ [])
      × (r.output w' ≡ r.output w ++ text)

  abbrev ReadOne : W → Type 0
  ReadOne w =
      ((w₁ : W) × (console.read w 1 ≡ (w₁, some []))
        × (r.input w ≡ [])
        × (r.input w₁ ≡ [])
        × (r.output w₁ ≡ r.output w))
      ⊎ ((w₁ : W) × (c : ℕ) × (console.read w 1 ≡ (w₁, some (c ∷ [])))
          × (r.input w ≡ c ∷ r.input w₁)
          × (r.output w₁ ≡ r.output w))

  read_one : (w : W) → ReadOne w
  read_one w =
      let (w₁, bytes, read, fits, split, same, at_end) = r.reads w 1 (omega arith) in
      sort_out w₁ bytes read fits split same at_end
    where
      sort_out :
          (w₁ : W) (bytes : List ℕ)
          → console.read w 1 ≡ (w₁, some bytes)
          → length bytes ≤ 1
          → r.input w ≡ bytes ++ r.input w₁
          → r.output w₁ ≡ r.output w
          → (length bytes ≡ 0 → r.input w ≡ [])
          → ReadOne w
      sort_out w₁ [] read fits split same at_end =
          inl (w₁, read, at_end refl, sym split ∙ at_end refl, same)
      sort_out w₁ (c ∷ []) read fits split same at_end = inr (w₁, c, read, split, same)
      sort_out w₁ (c ∷ d ∷ cs) read fits split same at_end = absurd (omega arith)

  -- A byte goes to the output, and the rest of the run follows.
  extends :
      (w₁ w₂ w' w : W) (added text : List ℕ)
      → r.output w₂ ≡ r.output w₁ ++ added
      → r.output w₁ ≡ r.output w
      → r.output w' ≡ r.output w₂ ++ text
      → r.output w' ≡ r.output w ++ (added ++ text)
  extends w₁ w₂ w' w added text e₂ e₁ e = e ∙ rw (e₂, e₁) (append_assoc (r.output w) added text)

  at_end :
      (fuel : ℕ) (phase : Phase) (w w₁ : W)
      → console.read w 1 ≡ (w₁, some [])
      → r.input w ≡ []
      → r.input w₁ ≡ []
      → r.output w₁ ≡ r.output w
      → Extracts (suc fuel) phase w (lines phase (r.input w))
  unfolding extract_text
  at_end fuel skipping w w₁ read empty still same = (
    w₁,
    rw (extract_text, read, after_byte-nil),
    still,
    same ∙ rw empty (sym (append-nil (r.output w))),
  )
  at_end fuel copying w w₁ read empty still same = (
    w₁,
    rw (extract_text, read, after_byte-nil),
    still,
    same ∙ rw empty (sym (append-nil (r.output w))),
  )

  shorter :
      (w w₁ : W) (c : ℕ) → r.input w ≡ c ∷ r.input w₁ → length (r.input w₁) < length (r.input w)
  shorter w w₁ c split = omega (arith, ap length split)

  -- One byte was read: it is passed over, or ends a run, or is copied.
  module _ (fuel : ℕ) (w w₁ : W) (c : ℕ) (read : console.read w 1 ≡ (w₁, some (c ∷ [])))
      (split : r.input w ≡ c ∷ r.input w₁) (same : r.output w₁ ≡ r.output w) where
    skip_byte :
        ltb c 0x20 ≡ true
        → Extracts fuel skipping w₁ (lines skipping (r.input w₁))
        → Extracts (suc fuel) skipping w (lines skipping (r.input w))
    unfolding extract_text
    skip_byte low (w', run, all_read, out) = (
      w',
      rw (extract_text, read, after_byte-cons, low) run,
      all_read,
      rw (split, low) (rw same at out),
    )

    end_run :
        ltb c 0x20 ≡ true
        → (w₂ : W) → (console.write w₁ (b'\r' ∷ b'\n' ∷ [])).0 ≡ w₂
        → r.input w₂ ≡ r.input w₁
        → r.output w₂ ≡ r.output w₁ ++ b'\r' ∷ b'\n' ∷ []
        → Extracts fuel skipping w₂ (lines skipping (r.input w₂))
        → Extracts (suc fuel) copying w (lines copying (r.input w))
    unfolding extract_text
    end_run low w₂ write kept grown (w', run, all_read, out) = (
      w',
      rw (extract_text, read, after_byte-cons, low, write) run,
      all_read,
      rw (split, low)
          (extends w₁ w₂ w' w (b'\r' ∷ b'\n' ∷ []) (lines skipping (r.input w₁)) grown same
            (rw kept at out)),
    )

    copy_byte :
        (phase : Phase)
        → ltb c 0x20 ≡ false
        → (w₂ : W) → console.write w₁ (c ∷ []) ≡ (w₂, some 1)
        → r.input w₂ ≡ r.input w₁
        → r.output w₂ ≡ r.output w₁ ++ c ∷ []
        → Extracts fuel copying w₂ (lines copying (r.input w₂))
        → Extracts (suc fuel) phase w (lines phase (r.input w))
    unfolding extract_text
    copy_byte skipping high w₂ write kept grown (w', run, all_read, out) = (
      w',
      rw (extract_text, read, after_byte-cons, high, write, after_put-one) run,
      all_read,
      rw (split, high)
          (extends w₁ w₂ w' w (c ∷ []) (lines copying (r.input w₁)) grown same (rw kept at out)),
    )
    copy_byte copying high w₂ write kept grown (w', run, all_read, out) = (
      w',
      rw (extract_text, read, after_byte-cons, high, write, after_put-one) run,
      all_read,
      rw (split, high)
          (extends w₁ w₂ w' w (c ∷ []) (lines copying (r.input w₁)) grown same (rw kept at out)),
    )

  -- On a reliable console, with fuel for one round more than there are bytes, `extract_text` ends
  -- with status 0 when the whole input is read, and has written its printable runs, each that a
  -- lower byte ends with CR LF behind it.
  pub extract_text-lines :
      (fuel : ℕ) (phase : Phase) (w : W)
      → length (r.input w) < fuel
      → Extracts fuel phase w (lines phase (r.input w))
  unfolding extract_text
  extract_text-lines zero phase w h = absurd (omega arith)
  extract_text-lines (suc fuel) phase w h = elim (read_one w) [
    | inl (w₁, read, empty, still, same) ↦ at_end fuel phase w w₁ read empty still same
    | inr (w₁, c, read, split, same) ↦
        let less = shorter w w₁ c split in
        let (w₂, write, kept, grown) = r.writes w₁ (c ∷ []) in
        let (w₃, write', kept', grown') = r.writes w₁ (b'\r' ∷ b'\n' ∷ []) in
        let copied = extract_text-lines fuel copying w₂ (omega (arith, ap length kept)) in
        let skipped = extract_text-lines fuel skipping w₁ (omega arith) in
        let ended = extract_text-lines fuel skipping w₃ (omega (arith, ap length kept')) in
        elim (Bool-cases (ltb c 0x20)) [
          | inr high ↦ copy_byte fuel w w₁ c read split same phase high w₂ write kept grown copied
          | inl low ↦
              (elim phase as (λ phase. Extracts (suc fuel) phase w (lines phase (r.input w))) [
                | skipping ↦ skip_byte fuel w w₁ c read split same low skipped
                | copying ↦
                    end_run fuel w w₁ c read split same low w₃ (ap (λ p. p.0) write') kept' grown'
                      ended
              ])
        ]
  ]
