-- ===== src/Txtcnv/Swapping.antt =====
-- win32/cpp/txtcnv32.cpp with the option -s from Unicode to Unicode.
use mathlib.Core.Path.{subst}
use mathlib.Core.List.{append_assoc, append-nil}
use ltrdata.Prelude.{
  ℕ, zero, suc, ◌+◌, ◌*◌, ◌/◌, ◌%◌, ◌<◌, ◌≡◌, refl, sym, ap, ◌∙◌, Bool, true, some, List, [], ◌∷◌,
  ◌++◌, Run, done, All, map, length, take, drop, arith, length-take, length-drop, take-append-drop,
  All-take, All-drop,
}
use ltrdata.Filters.Console.{Console, Whole, take_none}
use ltrdata.Txtcnv.{
  CodePages, Settings, codec, wide_chars, wide_bytes, swab, after_converted_write, after_text_read,
  convert_stream,
}

-- The bytes of each pair in the other order.
unfoldable pub swaps : List ℕ → List ℕ
swaps [] = []
swaps (a ∷ []) = []
swaps (a ∷ b ∷ bs) = b ∷ a ∷ swaps bs

-- Texts of bytes, of an even count.
abbrev pub Bytes : List ℕ → Type 0
Bytes bs = All (λ b. b < 256) bs × (length bs % 2 ≡ 0)

abbrev pub swapping : Settings
swapping = record { conv = codec; decode_page = 0; encode_page = 0; byteswap = true }

wide-swaps :
    (bs : List ℕ) → All (λ b. b < 256) bs → wide_bytes (map swab (wide_chars bs)) ≡ swaps bs
unfolding wide_bytes wide_chars swaps
wide-swaps [] all = refl
wide-swaps (a ∷ []) all = refl
wide-swaps (a ∷ b ∷ bs) (a_byte, (b_byte, all)) =
    let low : swab (a + 256 * b) % 256 ≡ b = omega arith in
    let high : swab (a + 256 * b) / 256 ≡ a = omega arith in rw (low, high, wide-swaps bs all) refl

swaps-append : (xs ys : List ℕ) → length xs % 2 ≡ 0 → swaps (xs ++ ys) ≡ swaps xs ++ swaps ys
unfolding swaps
swaps-append [] ys even = refl
swaps-append (a ∷ []) ys even = absurd (omega arith)
swaps-append (a ∷ b ∷ xs) ys even = ap (λ l. b ∷ a ∷ l) (swaps-append xs ys (omega arith))

swaps-swaps : (bs : List ℕ) → length bs % 2 ≡ 0 → swaps (swaps bs) ≡ bs
unfolding swaps
swaps-swaps [] even = refl
swaps-swaps (a ∷ []) even = absurd (omega arith)
swaps-swaps (a ∷ b ∷ bs) even = ap (λ l. a ∷ b ∷ l) (swaps-swaps bs (omega arith))

length-swaps : (bs : List ℕ) → length bs % 2 ≡ 0 → length (swaps bs) ≡ length bs
unfolding swaps
length-swaps [] even = refl
length-swaps (a ∷ []) even = absurd (omega arith)
length-swaps (a ∷ b ∷ bs) even = ap (λ n. suc (suc n)) (length-swaps bs (omega arith))

swaps-All : (bs : List ℕ) → All (λ b. b < 256) bs → All (λ b. b < 256) (swaps bs)
unfolding swaps
swaps-All [] all = tt
swaps-All (a ∷ []) all = tt
swaps-All (a ∷ b ∷ bs) (a_byte, (b_byte, all)) = (b_byte, (a_byte, swaps-All bs all))

swaps-Bytes : (bs : List ℕ) → Bytes bs → Bytes (swaps bs)
swaps-Bytes bs (all, even) = (swaps-All bs all, omega (arith, length-swaps bs even, even))

module _ {W : Type 0} {console : Console W} (r : Whole console) (pages : CodePages)
    (broken_pipe : W → Bool) where
  abbrev Swaps : W → Run (W × Bool) → Type 0
  Swaps w run = (w' : W) × (run ≡ done (w', true)) × (r.output w' ≡ r.output w ++ swaps (r.input w))

  read_Swaps :
      (next : W → Run (W × Bool)) (w w1 : W) (bs : List ℕ)
      → Bytes (r.input w)
      → bs ≡ take 2048 (r.input w)
      → r.input w1 ≡ drop 2048 (r.input w)
      → r.output w1 ≡ r.output w
      → ((w' : W)
          → Bytes (r.input w')
          → length (r.input w') < length (r.input w)
          → Swaps w' (next w'))
      → Swaps w (after_text_read pages swapping console broken_pipe next (w1, some bs))
  unfolding swaps
  read_Swaps next w w1 [] bytes e i o go =
      let nothing = take_none 2048 (r.input w) (omega arith) (sym (ap length e)) in
      (w1, refl, o ∙ sym (ap (λ xs. r.output w ++ swaps xs) nothing ∙ append-nil (r.output w)))
  read_Swaps next w w1 (b ∷ bs) bytes e i o go =
      let xs = r.input w in
      let block = b ∷ bs in
      let out = wide_bytes (map swab (wide_chars block)) in
      let all : All (λ c. c < 256) block =
        subst (All (λ c. c < 256)) (sym e) (All-take (λ c. c < 256) 2048 xs bytes.0) in
      let even : length block % 2 ≡ 0 = omega (arith, ap length e, length-take 2048 xs, bytes.1) in
      let (w2, e2, i2, o2) = r.writes w1 out in
      let left : Bytes (r.input w2) =
        subst Bytes (sym (i2 ∙ i))
          (All-drop (λ c. c < 256) 2048 xs bytes.0, omega (arith, length-drop 2048 xs, bytes.1)) in
      let (w', run, written) = go w2 left (
        omega (
          arith,
          ap length i2,
          ap length i,
          length-drop 2048 xs,
          ap length e,
          length-take 2048 xs,
        )) in
      (
        w',
        ap (after_converted_write pages swapping console broken_pipe next) e2 ∙ run,
        written
            ∙ ap (λ z. z ++ swaps (r.input w2))
                (o2 ∙ ap (λ z. z ++ out) o ∙ ap (◌++◌ (r.output w)) (wide-swaps block all))
            ∙ append_assoc (r.output w) (swaps block) (swaps (r.input w2))
            ∙ ap (◌++◌ (r.output w)) (
                ap (λ z. swaps block ++ swaps z) (i2 ∙ i)
                ∙ sym (swaps-append block (drop 2048 xs) even)
                ∙ ap swaps (ap (λ z. z ++ drop 2048 xs) e ∙ take-append-drop 2048 xs)),
      )

  pub convert_stream-Swaps :
      (fuel : ℕ) (w : W)
      → Bytes (r.input w)
      → length (r.input w) < fuel
      → Swaps w (convert_stream pages swapping console broken_pipe fuel w)
  unfolding convert_stream
  convert_stream-Swaps zero w bytes enough = absurd (omega arith)
  convert_stream-Swaps (suc fuel) w bytes enough =
      let (w1, e, i, o) = r.reads w 2048 in
      subst (Swaps w)
        (sym (
          ap
            (after_text_read pages swapping console broken_pipe
              (convert_stream pages swapping console broken_pipe fuel))
            e))
        (read_Swaps (convert_stream pages swapping console broken_pipe fuel) w w1
          (take 2048 (r.input w)) bytes refl i o
          (λ w' left less. convert_stream-Swaps fuel w' left (omega arith)))

  -- With -s, -d:0 and -e:0, on handles where each read gets as much as there is and each write
  -- writes all, the program ends with status 0 on an even count of bytes and writes them with the
  -- bytes of each pair in the other order; so it does when it gets its own output, which gives the
  -- first input again. `restarted` are the handles with a given input and no output yet, and the
  -- fuel is more than the bytes of the input.
  pub convert_stream-twice :
      (restarted : List ℕ → W) (fuel : ℕ) (text : List ℕ)
      → ((bs : List ℕ) → (r.input (restarted bs) ≡ bs) × (r.output (restarted bs) ≡ []))
      → Bytes text
      → length text < fuel
      → (w : W) × (convert_stream pages swapping console broken_pipe fuel (restarted text)
          ≡ done (w, true))
        × (r.output w ≡ swaps text)
        × (v : W) × (convert_stream pages swapping console broken_pipe fuel (restarted (r.output w))
            ≡ done (v, true))
        × (r.output v ≡ text)
  convert_stream-twice restarted fuel text fresh bytes enough =
      let (w, run, out) =
        convert_stream-Swaps fuel (restarted text) (subst Bytes (sym (fresh text).0) bytes)
          (omega (arith, ap length (fresh text).0)) in
      let first : r.output w ≡ swaps text =
        out
        ∙ ap (λ z. z ++ swaps (r.input (restarted text))) (fresh text).1
        ∙ ap swaps (fresh text).0 in
      let again = fresh (r.output w) in
      let (v, run', out') =
        convert_stream-Swaps fuel (restarted (r.output w))
          (subst Bytes (sym (again.0 ∙ first)) (swaps-Bytes text bytes))
          (omega (arith, ap length again.0, ap length first, length-swaps text bytes.1)) in
      (
        w,
        run,
        first,
        v,
        run',
        out'
            ∙ ap (λ z. z ++ swaps (r.input (restarted (r.output w)))) again.1
            ∙ ap swaps (again.0 ∙ first)
            ∙ swaps-swaps text bytes.1,
      )
