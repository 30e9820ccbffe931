-- ===== src/Rawcopy/Adjust.antt =====
-- win32/cpp/rawcopy.cpp behind the loop: the option -a, which cuts the output to the size of the
-- volume that was read.
use ltrdata.Prelude.{
  ℕ, ◌-◌, ◌≤◌, ◌≡◌, refl, sym, ap, ◌∙◌, ◌⊎◌, inl, inr, Bool, true, false, Option, none, some, List,
  length, take, ltb, if◌then◌else◌, if-cases, arith,
}

-- GetFileSize, SetFilePointer from the start and SetEndOfFile on the output.
pub record Output (W : Type 0) : Type 0 where
  pub get_file_size : W → Option ℕ
  pub seek_begin : W → ℕ → W × Bool
  pub set_end_of_file : W → W × Bool

-- The size of the disk without the bytes that were skipped, if it is larger.
abbrev pub image_size : (disk_size skipforward : ℕ) → ℕ
image_size disk_size skipforward =
    if ltb skipforward disk_size then disk_size - skipforward else disk_size

module _ {W : Type 0} (out : Output W) where
  abbrev pub after_end : W × Bool → W × ℕ
  after_end (w, false) = (w, 1)
  after_end (w, true) = (w, 0)

  abbrev pub after_begin : W × Bool → W × ℕ
  after_begin (w, false) = (w, 1)
  after_begin (w, true) = after_end (out.set_end_of_file w)

  abbrev pub after_size : ℕ → W → Option ℕ → W × ℕ
  after_size size w none = (w, 1)
  after_size size w (some existing_size) =
      if ltb existing_size size then (w, 1) else after_begin (out.seek_begin w size)

  -- The exit status 1, or 0 where the program goes on.
  unfoldable pub adjust_size : (disk_size skipforward : ℕ) → W → W × ℕ
  adjust_size disk_size skipforward w =
      after_size (image_size disk_size skipforward) w (out.get_file_size w)

  -- What the calls do on a file that is not full: `file` and `pos` are its bytes and its position.
  pub record MayFail : Type 0 where
    pub file : W → List ℕ
    pub pos : W → ℕ
    pub sizes : (w : W) (n : ℕ) → out.get_file_size w ≡ some n → n ≡ length (file w)
    pub seeks :
        (w : W) (n : ℕ)
        → (file (out.seek_begin w n).0 ≡ file w)
          × ((out.seek_begin w n).1 ≡ true → pos (out.seek_begin w n).0 ≡ n)
    pub ends :
        (w : W)
        → pos w ≤ length (file w)
        → ((out.set_end_of_file w).1 ≡ true
            → file (out.set_end_of_file w).0 ≡ take (pos w) (file w))
          × ((out.set_end_of_file w).1 ≡ false → file (out.set_end_of_file w).0 ≡ file w)

module _ {W : Type 0} {out : Output W} (m : MayFail out) where
  abbrev pub Adjusted : ℕ → W → W × ℕ → Type 0
  Adjusted size w (w', status) =
      (m.file w' ≡ take size (m.file w)) × (status ≡ 0) × (size ≤ length (m.file w))
      ⊎ ((m.file w' ≡ m.file w) × (status ≡ 1))

  begun_Adjusted :
      (size : ℕ) (w w' : W) (x : W × Bool)
      → out.set_end_of_file w' ≡ x
      → size ≤ length (m.file w)
      → m.file w' ≡ m.file w
      → m.pos w' ≡ size
      → Adjusted size w (after_end out x)
  begun_Adjusted size w w' (w2, true) e inside f at =
      let within : m.pos w' ≤ length (m.file w') = omega (arith, at, ap length f) in
      inl (
        ap (λ x. m.file x.0) (sym e)
            ∙ (m.ends w' within).0 (ap (λ x. x.1) e)
            ∙ ap (λ n. take n (m.file w')) at
            ∙ ap (take size) f,
        refl,
        inside,
      )
  begun_Adjusted size w w' (w2, false) e inside f at =
      let within : m.pos w' ≤ length (m.file w') = omega (arith, at, ap length f) in
      inr (ap (λ x. m.file x.0) (sym e) ∙ (m.ends w' within).1 (ap (λ x. x.1) e) ∙ f, refl)

  sought_Adjusted :
      (size : ℕ) (w : W) (x : W × Bool)
      → out.seek_begin w size ≡ x
      → size ≤ length (m.file w)
      → Adjusted size w (after_begin out x)
  sought_Adjusted size w (w', false) e inside =
      inr (ap (λ x. m.file x.0) (sym e) ∙ (m.seeks w size).0, refl)
  sought_Adjusted size w (w', true) e inside =
      begun_Adjusted size w w' _ refl inside (ap (λ x. m.file x.0) (sym e) ∙ (m.seeks w size).0)
        (ap (λ x. m.pos x.0) (sym e) ∙ (m.seeks w size).1 (ap (λ x. x.1) e))

  sized_Adjusted :
      (size : ℕ) (w : W) (x : Option ℕ)
      → out.get_file_size w ≡ x
      → Adjusted size w (after_size out size w x)
  sized_Adjusted size w none e = inr (refl, refl)
  sized_Adjusted size w (some n) e =
      let all : n ≡ length (m.file w) = m.sizes w n e in
      if-cases (Adjusted size w) (ltb n size) (λ short. inr (refl, refl))
        (λ long. sought_Adjusted size w (out.seek_begin w size) refl (ground (arith, all)))

  -- Whatever calls fail, the option -a leaves the output either with its first `image_size` bytes,
  -- where it has so many, and then the program goes on, or as it was, and then the exit status is 1.
  pub adjust_size-Adjusted :
      (disk_size skipforward : ℕ) (w : W)
      → Adjusted (image_size disk_size skipforward) w (adjust_size out disk_size skipforward w)
  unfolding adjust_size
  adjust_size-Adjusted disk_size skipforward w =
      sized_Adjusted (image_size disk_size skipforward) w (out.get_file_size w) refl
