-- ===== src/Split/Pieces.antt =====
-- The pieces that win32/c/fsplit32.c writes, put together again.
use Prim.Native.Nat.{min}
use ltrdata.Prelude.{
  ltb-zero, joined, ℕ, zero, suc, ◌+◌, ◌-◌, ◌%◌, ◌^◌, ◌≤◌, ◌<◌, ◌≡◌, ◌≢◌, refl, sym, ap, ◌∙◌, inl,
  inr, Bool, true, false, some, List, [], ◌∷◌, ◌++◌, arith, Run, done, length, get_or, take, drop,
  length-take, length-drop, take-append-drop, ◌==◌, ltb, ==_iff, lt→ltb, ltb→lt, Bool-cases,
}
use ltrdata.Prelude.Cut.{Cut, Cut-cons, no_elements}
use ltrdata.Split.Held.{Hold, Others, Hold-cons}
use ltrdata.Split.{
  is_option, outfile, fragment_size, split_file, fsplit, Ending, finished, Files, max_path,
  piece_name, after_read, after_create, after_write, split_loop,
}

-- A disk without errors, with the input file open under the name `infile`. A read returns as much of
-- what is left of the input as was asked for. `content` is what the file of a name holds, nothing if
-- there is none. A file of another name is opened as it is, without being cut, and a write puts all
-- of its bytes over the first ones.
pub record Disk {W : Type 0} (files : Files W) (infile : List ℕ) : Type 0 where
  pub input : W → List ℕ
  pub content : W → List ℕ → List ℕ
  pub reads :
      (w : W) (n : ℕ)
      → (w' : W) × (files.read w n ≡ (w', some (take n (input w))))
        × (input w' ≡ drop n (input w))
        × ((name : List ℕ) → content w' name ≡ content w name)
  pub creates :
      (w : W) (name bytes : List ℕ)
      → name ≢ infile
      → (w₁ w₂ : W) × (files.create w name ≡ (w₁, true))
        × (files.write w₁ name bytes ≡ (w₂, some (length bytes)))
        × (input w₂ ≡ input w)
        × (content w₂ name ≡ bytes ++ drop (length bytes) (content w name))
        × ((other : List ℕ) → other ≢ name → content w₂ other ≡ content w other)

module _ {W : Type 0} where
  after_read-nothing :
      (w : W) (bytes : List ℕ) (at_end : W → Run (W × Ending)) (k : W → List ℕ → Run (W × Ending))
      → ltb 0 (length bytes) ≡ false
      → after_read (w, some bytes) at_end k ≡ at_end w
  unfolding after_read
  after_read-nothing w [] at_end k none_left = refl
  after_read-nothing w (c ∷ cs) at_end k none_left = absurd (ground arith)

  after_read-some :
      (w : W) (bytes : List ℕ) (at_end : W → Run (W × Ending)) (k : W → List ℕ → Run (W × Ending))
      → ltb 0 (length bytes) ≡ true
      → after_read (w, some bytes) at_end k ≡ k w bytes
  unfolding after_read
  after_read-some w [] at_end k more = absurd (ground arith)
  after_read-some w (c ∷ cs) at_end k more = refl

  after_create-true : (w : W) (k : W → Run (W × Ending)) → after_create (w, true) k ≡ k w
  unfolding after_create
  after_create-true w k = refl

  after_write-all :
      (n : ℕ) (w : W) (unlink : W → W) (k : W → Run (W × Ending))
      → after_write n (w, some n) unlink k ≡ k w
  unfolding after_write
  after_write-all n w unlink k = let same : (n == n) ≡ true = (==_iff n n).1 refl in rw same

module _ {W : Type 0} {files : Files W} {infile : List ℕ} (d : Disk files infile)
    (template : List ℕ) (size filelength : ℕ) (positive : 0 < size)
    (short : filelength < 2 ^ 32) where
  -- One round of the loop, with no counter wrapping around.
  round_lem :
      (fuel n written : ℕ) (w w₀ w₁ w₂ : W) (bytes : List ℕ)
      → files.read w size ≡ (w₀, some bytes)
      → 0 < length bytes
      → (n + 1 < 2 ^ 32) × (written + length bytes < 2 ^ 32)
      → length (piece_name template (n + 1)) < max_path
      → files.create w₀ (piece_name template (n + 1)) ≡ (w₁, true)
      → files.write w₁ (piece_name template (n + 1)) bytes ≡ (w₂, some (length bytes))
      → split_loop files template size filelength (suc fuel) n written w
        ≡ split_loop files template size filelength fuel (n + 1) (written + length bytes) w₂
  unfolding split_loop
  round_lem fuel n written w w₀ w₁ w₂ bytes read some_bytes few short_name create write =
      let next : (n + 1) % 2 ^ 32 ≡ n + 1 = omega arith in
      let sum : (written + length bytes) % 2 ^ 32 ≡ written + length bytes = omega arith in
      let more : ltb 0 (length bytes) ≡ true = lt→ltb _ _ some_bytes in
      let fits : ltb (length (piece_name template (n + 1))) max_path ≡ true =
        lt→ltb _ _ short_name in
      rw (
        split_loop,
        read,
        after_read-some w₀ bytes _ _ more,
        next,
        fits,
        create,
        after_create-true,
        write,
        after_write-all,
        sum,
      )

  -- The rest of a run that is at piece number `n`: it ends without a warning.
  abbrev pub Splits : Run (W × Ending) → ℕ → W → Type 0
  Splits r n w =
      (w' : W) × (ps : List (List ℕ)) × (r ≡ done (w', finished (n + length ps) false))
      × (joined ps ≡ d.input w)
      × Cut size ps
      × Hold template n ps (d.content w) (d.content w')
      × Others template n ps (d.content w) (d.content w')

  pub split_loop-Splits :
      (fuel n written : ℕ) (w : W)
      → length (d.input w) < fuel
      → ((i : ℕ)
          → i ≤ n + length (d.input w)
          → (length (piece_name template i) < max_path) × (piece_name template i ≢ infile))
      → n + length (d.input w) < 2 ^ 32
      → written + length (d.input w) ≡ filelength
      → Splits (split_loop files template size filelength fuel n written w) n w
  unfolding split_loop
  split_loop-Splits zero n written w enough names few all = absurd (omega arith)
  split_loop-Splits (suc fuel) n written w enough names few all =
      let (w₀, read, input₀, content₀) = d.reads w size in
      let bytes : List ℕ = take size (d.input w) in
      let name : List ℕ = piece_name template (n + 1) in
      elim (Bool-cases (ltb 0 (length bytes))) [
        | inl more ↦
            let some_bytes : 0 < length bytes = ltb→lt _ _ more in
            let size₀ : length bytes ≡ min size (length (d.input w)) =
              length-take size (d.input w) in
            let (fits, apart) = names (n + 1) (omega arith) in
            let (w₁, w₂, create, write, input₂, content₂, same) = d.creates w₀ name bytes apart in
            let sizes : (length bytes ≡ min size (length (d.input w)))
                × (length (d.input w₂) ≡ length (d.input w) - size) =
              (
                length-take size (d.input w),
                ap length (input₂ ∙ input₀) ∙ length-drop size (d.input w),
              ) in
            let round =
              round_lem fuel n written w w₀ w₁ w₂ bytes read some_bytes
                (omega (arith, sizes), omega (arith, sizes)) fits create write in
            let (w', ps, run, join, cut, hold, others) =
              split_loop-Splits fuel (n + 1) (written + length bytes) w₂ (omega (arith, sizes))
                (λ i le. names i (omega (arith, sizes))) (omega (arith, sizes))
                (omega (arith, sizes)) in
            let count : n + suc (length ps) ≡ n + 1 + length ps = omega arith in
            let (held, untouched) =
              Hold-cons template n bytes ps (d.content w) (d.content w₂) (d.content w')
                (content₂ ∙ ap (λ l. bytes ++ drop (length bytes) l) (content₀ name))
                (λ other apart. same other apart ∙ content₀ other) (hold, others) in
            (
              w',
              bytes ∷ ps,
              round ∙ run ∙ ap (λ m. done (w', finished m false)) (sym count),
              ap (λ l. bytes ++ l) (join ∙ input₂ ∙ input₀) ∙ take-append-drop size (d.input w),
              Cut-cons size (d.input w) ps some_bytes (join ∙ input₂ ∙ input₀) cut,
              held,
              untouched,
            )
        | inr nothing ↦
            let empty : length (d.input w) ≡ 0 =
              omega (arith, length-take size (d.input w), ltb-zero (length bytes) nothing) in
            let all_written : (written == filelength % 2 ^ 32) ≡ true =
              (==_iff _ _).1 (omega arith) in
            let zero_more : n + 0 ≡ n = omega arith in
            (
              w₀,
              [],
              rw (
                split_loop,
                read,
                after_read-nothing w₀ bytes _ _ nothing,
                all_written,
                zero_more,
              ),
              sym (no_elements (d.input w) empty),
              tt,
              tt,
              λ name free. content₀ name,
            )
      ]

-- For a name that is neither empty nor an option, a template that is not empty, a fragment size
-- above zero, an input file that opens and is shorter than 2^32 bytes, enough memory, and names of
-- pieces that fit the buffer and are not the input file's, `fsplit` counts pieces that are the input
-- when they are joined in order, all but the last of the fragment size, without a warning. The file
-- with a piece's number holds that piece, and behind it what a longer file of that name held there
-- before; the files of all other names are as they were. Fuel above the length of the input is
-- enough.
pub fsplit-Splits :
    {W : Type 0} {files : Files W}
    → (infile : List ℕ) (d : Disk files infile) (malloc : ℕ → Bool) (rest : List (List ℕ))
      (fuel : ℕ) (w : W)
    → (is_option infile ≡ false) × ((get_or infile 0 0 == 0) ≡ false)
    → (get_or (outfile infile rest) 0 0 == 0) ≡ false
    → (positive : 0 < fragment_size rest) → malloc (fragment_size rest) ≡ true
    → (short : length (d.input w) < 2 ^ 32)
    → ((i : ℕ)
        → i ≤ length (d.input w)
        → (length (piece_name (outfile infile rest) i) < max_path)
          × (piece_name (outfile infile rest) i ≢ infile))
    → length (d.input w) < fuel
    → Splits d
        (outfile infile rest)
        (fragment_size rest)
        (length (d.input w))
        positive
        short
        (fsplit files true malloc (length (d.input w)) fuel (infile ∷ rest) w)
        0
        w
unfolding fsplit split_file
fsplit-Splits infile d malloc rest fuel w given template_given positive memory short names enough =
    let some_size : (fragment_size rest == 0) ≡ false = ground arith in
    rw (fsplit, split_file, given.0, given.1, template_given, some_size, memory)
      (split_loop-Splits d (outfile infile rest) (fragment_size rest) (length (d.input w)) positive
        short fuel 0 0 w enough (λ i le. names i (omega arith)) (omega arith) (omega arith))
