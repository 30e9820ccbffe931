-- ===== src/Rawcopy/Reliable.antt =====
-- One block of win32/cpp/rawcopy.cpp on devices without errors.
use mathlib.Core.Path.{subst}
use mathlib.Core.Bool.{true≢false}
use ltrdata.Prelude.{
  ℕ, ◌+◌, ◌-◌, ◌≤◌, ◌<◌, ◌≡◌, refl, sym, ap, ◌∙◌, ◌⊎◌, inl, inr, Bool, true, false, ◌&&◌, ◌||◌,
  Option, none, some, List, [], ◌∷◌, ◌++◌, All, length, take, drop, zeros, ◌==◌, leb, ==_iff,
  if◌then◌else◌, if-cases, Bool-cases, arith, length-take, length-drop, take-append_more,
}
use ltrdata.Truncate.{nonzero, filled, whole_words}
use ltrdata.Truncate.Scan.{Zero, Zero-nonzero}
use ltrdata.Rawcopy.{
  Read, wrote, Device, Options, Progress, same_bytes, skips_zeros, after_rewind, after_back,
  skips_block,
}
use ltrdata.Prelude.Splice.{splice, resized}

-- `input` is still to be read, and `file` is the output file with its position.
pub record Reliable {W : Type 0} (device : Device W) : Type 0 where
  pub input : W → List ℕ
  pub file : W → List ℕ
  pub pos : W → ℕ
  pub reads :
      (w : W) (n : ℕ)
      → 0 < n
      → (w' : W) × (bs : List ℕ) × (device.read w n ≡ (w', Read.bytes bs))
        × (length bs ≤ n)
        × (input w ≡ bs ++ input w')
        × (length bs ≡ 0 → input w ≡ [])
        × (file w' ≡ file w)
        × (pos w' ≡ pos w)
  pub writes :
      (w : W) (bs : List ℕ)
      → pos w ≤ length (file w)
      → (w' : W) × (device.write w bs ≡ (w', wrote (length bs)))
        × (file w' ≡ splice (file w) (pos w) bs)
        × (pos w' ≡ pos w + length bs)
        × (input w' ≡ input w)
  pub reads_back :
      (w : W) (n : ℕ)
      → pos w + n ≤ length (file w)
      → (w' : W) × (device.read_back w n ≡ (w', some (take n (drop (pos w) (file w)))))
        × (file w' ≡ file w)
        × (pos w' ≡ pos w + n)
        × (input w' ≡ input w)
  pub skips :
      (w : W) (n : ℕ)
      → (w' : W) × (device.seek_out w n ≡ (w', true))
        × (file w' ≡ file w)
        × (pos w' ≡ pos w + n)
        × (input w' ≡ input w)
  pub rewinds :
      (w : W) (n : ℕ)
      → n ≤ pos w
      → (w' : W) × (device.rewind_out w n ≡ (w', true))
        × (file w' ≡ file w)
        × (pos w' ≡ pos w - n)
        × (input w' ≡ input w)
  pub ends :
      (w : W)
      → (file (device.set_end w) ≡ resized (file w) (pos w))
        × (pos (device.set_end w) ≡ pos w)
        × (input (device.set_end w) ≡ input w)

same_bytes_sound : (xs ys : List ℕ) → same_bytes xs ys ≡ true → xs ≡ ys
unfolding same_bytes
same_bytes_sound [] [] e = refl
same_bytes_sound (x ∷ xs) [] e = absurd (true≢false (sym e))
same_bytes_sound [] (y ∷ ys) e = absurd (true≢false (sym e))
same_bytes_sound (x ∷ xs) (y ∷ ys) e = elim (Bool-cases (x == y)) [
  | inl same ↦
      let tails =
        same_bytes_sound xs ys (sym (ap (λ b. if b then same_bytes xs ys else false) same) ∙ e) in
      ap (λ z. z ∷ xs) ((==_iff x y).0 same) ∙ ap (◌∷◌ y) tails
  | inr other ↦ absurd (true≢false (sym e ∙ ap (λ b. if b then same_bytes xs ys else false) other))
]

All-append_left {κ} : {A : Type 0} (P : A → Type κ) (xs ys : List A) → All P (xs ++ ys) → All P xs
All-append_left P [] ys all = tt
All-append_left P (x ∷ xs) ys all = (all.0, All-append_left P xs ys all.1)

zeros-Zero : (bs : List ℕ) → Zero bs → bs ≡ zeros (length bs)
zeros-Zero [] z = refl
zeros-Zero (b ∷ bs) z = rw (z.0, sym (zeros-Zero bs z.1)) refl

-- The words of the buffer that has the block tell whether the block is zeros.
zero_block :
    (bs buffer : List ℕ)
    → nonzero (take (whole_words (length bs)) (filled bs buffer)) ≡ false
    → bs ≡ zeros (length bs)
zero_block bs buffer e =
    let all : Zero (take (whole_words (length bs)) (filled bs buffer)) =
      Zero-nonzero (take (whole_words (length bs)) (filled bs buffer)) e in
    zeros-Zero bs (
      All-append_left _ bs _ (
        subst Zero
          (take-append_more bs (drop (length bs) buffer) (whole_words (length bs)) (omega arith))
          all))

module _ {W : Type 0} (device : Device W) (r : Reliable device) (o : Options) where
  -- The file and the position after `bs` was written, or as if it had been.
  abbrev pub Written : W → W → List ℕ → Type 0
  Written w w' bs =
      (r.file w' ≡ splice (r.file w) (r.pos w) bs)
      × (r.pos w' ≡ r.pos w + length bs)
      × (r.input w' ≡ r.input w)

  -- What is left of the old output file lies in front of the position.
  abbrev pub Ahead : Progress → W → Type 0
  Ahead p w = length (r.file w) ≡ r.pos w + (o.existing - p.readbytes)

  -- Why a block may be skipped.
  abbrev pub Skippable : Progress → List ℕ → W → Type 0
  Skippable p bs w =
      ((p.readbytes + length bs ≤ o.existing) × (bs ≡ take (length bs) (drop (r.pos w) (r.file w))))
      ⊎ ((o.existing ≤ p.readbytes) × (bs ≡ zeros (length bs)))

  abbrev pub Decided : Progress → List ℕ → W → W × Option Bool → Type 0
  Decided p bs w (w', none) = ⊥
  Decided p bs w (w', some skip) =
      (r.file w' ≡ r.file w)
      × (r.pos w' ≡ r.pos w)
      × (r.input w' ≡ r.input w)
      × (skip ≡ true → Skippable p bs w)

  zeros_decided :
      (p : Progress) (bs : List ℕ) (w : W)
      → skips_zeros device o p bs (filled bs p.buffer) ≡ true
      → Skippable p bs w
  zeros_decided p bs w e = inr (ground arith, zero_block bs p.buffer (ground arith))

  after_back_lem :
      (w : W) (bs : List ℕ) (skip : Bool)
      → r.pos w + length bs ≤ length (r.file w)
      → (w' : W) × (after_back device o bs skip (device.read_back w (length bs))
          ≡ (w', some (skip || same_bytes bs (take (length bs) (drop (r.pos w) (r.file w))))))
        × (r.file w' ≡ r.file w)
        × (r.pos w' ≡ r.pos w)
        × (r.input w' ≡ r.input w)
  after_back_lem w bs skip inside =
      let old = take (length bs) (drop (r.pos w) (r.file w)) in
      let same : length old ≡ length bs = omega (
        arith,
        length-take (length bs) (drop (r.pos w) (r.file w)),
        length-drop (r.pos w) (r.file w),
      ) in
      let back = r.reads_back w (length bs) inside in
      let rewound = r.rewinds back.0 (length old) (omega (arith, back.3)) in
      (
        rewound.0,
        ap (after_back device o bs skip) back.1
            ∙ ap
                (λ b.
                  if b
                  then after_rewind device o bs old skip (device.rewind_out back.0 (length old))
                  else (back.0, none))
                ((==_iff (length old) (length bs)).1 same)
            ∙ ap (after_rewind device o bs old skip) rewound.1,
        rewound.2 ∙ back.2,
        omega (arith, rewound.3, back.3),
        rewound.4 ∙ back.4,
      )

  pub skips_block-Decided :
      (p : Progress) (bs : List ℕ) (w : W)
      → Ahead p w
      → Decided p bs w (skips_block device o p bs (filled bs p.buffer) w)
  unfolding skips_block
  skips_block-Decided p bs w ahead =
      if-cases (Decided p bs w) (o.differential && leb (p.readbytes + length bs) o.existing)
        (λ compares.
          let fits : p.readbytes + length bs ≤ o.existing = ground arith in
          let skip = skips_zeros device o p bs (filled bs p.buffer) in
          let old = take (length bs) (drop (r.pos w) (r.file w)) in
          let back = after_back_lem w bs skip (omega (arith, ahead)) in
          subst (Decided p bs w) (sym back.1) (
            back.2,
            back.3,
            back.4,
            λ skipped. elim (Bool-cases (same_bytes bs old)) [
              | inl same ↦ inl (fits, same_bytes_sound bs old same)
              | inr other ↦ zeros_decided p bs w (ground arith)
            ],
          ))
        (λ plain. (refl, refl, refl, zeros_decided p bs w))
