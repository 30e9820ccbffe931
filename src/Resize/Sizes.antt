-- ===== src/Resize/Sizes.antt =====
-- The size that a file gets.
use ltrdata.Prelude.{
  ℕ, ◌*◌, ◌%◌, ◌^◌, ◌<◌, ◌≡◌, ◌≢◌, refl, sym, ap, ◌∙◌, inl, inr, Bool, true, false, Option, some,
  List, [], ◌∷◌, ◌==◌, Bool-cases, arith,
}
use mathlib.Core.Path.{subst}
use ltrdata.Resize.{
  Scan, number_suffix, with_suffix, file_size, Volume, after_pointer, after_create, resize, chsize,
}

-- The units that the suffixes stand for, in capital and in small letters.
pub data IsUnit : ℕ → ℕ → Type 0 where
  kilo : IsUnit b'K' 1024
  mega : IsUnit b'M' (1024 ^ 2)
  giga : IsUnit b'G' (1024 ^ 3)
  tera : IsUnit b'T' (1024 ^ 4)
  small_kilo : IsUnit b'k' 1024
  small_mega : IsUnit b'm' (1024 ^ 2)
  small_giga : IsUnit b'g' (1024 ^ 3)
  small_tera : IsUnit b't' (1024 ^ 4)

with_suffix-IsUnit :
    (n : ℕ) {c unit : ℕ} → IsUnit c unit → n * unit < 2 ^ 64 → with_suffix n c ≡ some (n * unit)
unfolding with_suffix
with_suffix-IsUnit n kilo fits = ap some (omega arith)
with_suffix-IsUnit n mega fits = ap some (omega arith)
with_suffix-IsUnit n giga fits = ap some (omega arith)
with_suffix-IsUnit n tera fits = ap some (omega arith)
with_suffix-IsUnit n small_kilo fits = ap some (omega arith)
with_suffix-IsUnit n small_mega fits = ap some (omega arith)
with_suffix-IsUnit n small_giga fits = ap some (omega arith)
with_suffix-IsUnit n small_tera fits = ap some (omega arith)

-- What the calls do on a volume without errors, where no size has its highest bit set: the files'
-- sizes, and for each handle its file and its position.
pub record Working {W : Type 0} (volume : Volume W) : Type 0 where
  pub size : W → List ℕ → Option ℕ
  pub file : W → ℕ → List ℕ
  pub position : W → ℕ → ℕ
  pub creates :
      (w : W) (name : List ℕ)
      → (w' : W) × (handle : ℕ) × (volume.create_file w name ≡ (w', some handle))
        × (file w' handle ≡ name)
        × ((other : List ℕ) → other ≢ name → size w' other ≡ size w other)
  pub makes_sparse :
      (w : W) (handle : ℕ)
      → let w' = (volume.set_sparse w handle).0 in
        (file w' handle ≡ file w handle) × ((other : List ℕ) → size w' other ≡ size w other)
  pub moves :
      (w : W) (handle n : ℕ)
      → n < 2 ^ 63
      → (w' : W) × (volume.set_file_pointer w handle n ≡ (w', (n % 2 ^ 32, 0)))
        × (position w' handle ≡ n)
        × (file w' handle ≡ file w handle)
        × ((other : List ℕ) → size w' other ≡ size w other)
  pub ends :
      (w : W) (handle : ℕ)
      → (w' : W) × (volume.set_end_of_file w handle ≡ (w', true))
        × (size w' (file w handle) ≡ some (position w handle))
        × ((other : List ℕ) → other ≢ file w handle → size w' other ≡ size w other)

module _ {W : Type 0} (volume : Volume W) (working : Working volume) where
  -- The program returns 0, the file has the size `n`, and the other files have the sizes of `w`.
  abbrev pub Resized : W → List ℕ → ℕ → W × ℕ → Type 0
  Resized w name n (w', code) =
      (code ≡ 0)
      × (working.size w' name ≡ some n)
      × ((other : List ℕ) → other ≢ name → working.size w' other ≡ working.size w other)

  after_pointer-succeeds :
      (w w' : W) (handle low : ℕ)
      → volume.set_end_of_file w handle ≡ (w', true)
      → after_pointer volume handle (w, (low, 0)) ≡ (w', 0)
  unfolding after_pointer
  after_pointer-succeeds w w' handle low e = elim (Bool-cases (low == 0xffff_ffff)) [
    | inl all_ones ↦ rw (all_ones, e) refl
    | inr other ↦ rw (other, e) refl
  ]

  after_pointer-Resized :
      (w : W) (handle n : ℕ)
      → n < 2 ^ 63
      → Resized w
          (working.file w handle)
          n
          (after_pointer volume handle (volume.set_file_pointer w handle n))
  after_pointer-Resized w handle n fits =
      let (w1, e1, at, same, sizes) = working.moves w handle n fits in
      let (w2, e2, is, others) = working.ends w1 handle in
      let e : after_pointer volume handle (volume.set_file_pointer w handle n) ≡ (w2, 0) =
        ap (after_pointer volume handle) e1 ∙ after_pointer-succeeds w1 w2 handle (n % 2 ^ 32) e2 in
      subst (Resized w (working.file w handle) n) (sym e) (
        refl,
        ap (working.size w2) (sym same) ∙ is ∙ ap some at,
        λ other differs. others other (λ same'. differs (same' ∙ same)) ∙ sizes other,
      )

  Resized-through :
      (w w1 : W) (name file : List ℕ) (n : ℕ) (r : W × ℕ)
      → file ≡ name
      → ((other : List ℕ) → other ≢ name → working.size w1 other ≡ working.size w other)
      → Resized w1 file n r
      → Resized w name n r
  Resized-through w w1 name file n (w2, code) is kept (done, size, others) = (
    done,
    ap (working.size w2) (sym is) ∙ size,
    λ other differs. others other (λ same. differs (same ∙ is)) ∙ kept other differs,
  )

  after_create-Resized :
      (w : W) (sparse : Bool) (name : List ℕ) (n : ℕ)
      → n < 2 ^ 63
      → Resized w name n (after_create volume sparse n (volume.create_file w name))
  unfolding after_create
  after_create-Resized w true name n fits =
      let (w1, handle, e, is, others) = working.creates w name in
      let (same, sizes) = working.makes_sparse w1 handle in
      subst (λ r. Resized w name n (after_create volume true n r)) (sym e)
        (Resized-through w ((volume.set_sparse w1 handle).0) name _ n _ (same ∙ is)
          (λ other differs. sizes other ∙ others other differs)
          (after_pointer-Resized ((volume.set_sparse w1 handle).0) handle n fits))
  after_create-Resized w false name n fits =
      let (w1, handle, e, is, others) = working.creates w name in
      subst (λ r. Resized w name n (after_create volume false n r)) (sym e)
        (Resized-through w w1 name _ n _ is others (after_pointer-Resized w1 handle n fits))

  resize-Resized :
      (w : W) (sparse : Bool) (name : List ℕ) (n : ℕ) (size : Option ℕ)
      → size ≡ some n
      → n < 2 ^ 63
      → Resized w name n (resize volume w sparse name size)
  unfolding resize
  resize-Resized w sparse name n size e fits =
      subst (λ s. Resized w name n (resize volume w sparse name s)) (sym e)
        (after_create-Resized w sparse name n fits)

  -- On a volume without errors, for a text that `sscanf` reads as a number with the suffix of a
  -- unit, the program returns 0 with or without `-s`, and the file, which it creates if need be, has
  -- that number of units, if this is below 2^63; the sizes of the other files do not change.
  pub chsize-Resized :
      (sscanf : List ℕ → Scan) (w : W) (name text : List ℕ) {n c unit : ℕ}
      → sscanf text ≡ number_suffix n c
      → IsUnit c unit
      → n * unit < 2 ^ 63
      → Resized w name (n * unit) (chsize volume sscanf w (name ∷ text ∷ []))
        × Resized w name (n * unit) (chsize volume sscanf w ((b'-' ∷ b's' ∷ []) ∷ name ∷ text ∷ []))
  unfolding chsize
  chsize-Resized sscanf w name text {n = n} {c = c} {unit = unit} reads is fits =
      let e : file_size (sscanf text) ≡ some (n * unit) =
        ap file_size reads ∙ with_suffix-IsUnit n is (omega arith) in
      (
        resize-Resized w false name (n * unit) (file_size (sscanf text)) e fits,
        resize-Resized w true name (n * unit) (file_size (sscanf text)) e fits,
      )
