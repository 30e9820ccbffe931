-- ===== src/Truncate/Size.antt =====
-- How much win32/cpp/trunczerotail.cpp cuts off if every call succeeds.
use native.Mathlib.Nat
use native.Mathlib.Decide.{dec_lt}
use mathlib.Core.Path.{subst}
use ltrdata.Prelude.{
  zeros, ℕ, zero, suc, ◌+◌, ◌-◌, ◌*◌, ◌/◌, ◌%◌, ◌≤◌, ◌<◌, ◌≡◌, ◌≢◌, ◌⊎◌, refl, sym, ap, ◌∙◌, inl,
  inr, Bool, true, false, ◌||◌, not, List, [], ◌∷◌, arith, length, take, drop, length-take,
  length-drop, take-all, drop-all, drop-drop, ◌==◌, ltb, leb, ==_iff, Bool-cases, if-cases, leb→le,
}
use Prim.Native.Nat.{min}
use ltrdata.Truncate.{
  Calls, nonzero, Scanned, failed, unending, stopped, filled, scan_loop, start, set_end,
  truncate_tail,
}
use ltrdata.Truncate.Scan.{
  truncate_tail-Zero, Zero, Zero-nonzero, nonzero-filled, Zero-filled, Zero-zeros,
}

abbrev pub faultless : Calls
faultless = record { seeks_to = λ p. true; reads_at = λ p. true; sets_end = true }

le_mul : (k b : ℕ) → 0 < b → k ≤ k * b
le_mul zero b positive = omega arith
le_mul (suc k) b positive = omega (arith, le_mul k b positive, Nat.suc-mul k b)

or_right : (a : Bool) {b c : Bool} → (b ≡ true → c ≡ true) → a || b ≡ true → a || c ≡ true
or_right true f h = refl
or_right false f h = f h

nonzero-drop : (n : ℕ) (bytes : List ℕ) → nonzero (drop n bytes) ≡ true → nonzero bytes ≡ true
nonzero-drop zero bytes h = h
nonzero-drop (suc n) [] h = h
nonzero-drop (suc n) (b ∷ bs) h = ground (arith, nonzero-drop n bs h)

nonzero-take : (n : ℕ) (bytes : List ℕ) → nonzero (take n bytes) ≡ true → nonzero bytes ≡ true
nonzero-take zero bytes h = absurd (ground arith)
nonzero-take (suc n) [] h = h
nonzero-take (suc n) (b ∷ bs) h = or_right (not (b == 0)) (nonzero-take n bs) h

module _ (bufsiz : ℕ) (positive : 0 < bufsiz) (file : List ℕ) where
  -- Where the loop stops that starts `k` buffers into the file.
  abbrev Stops : ℕ → Scanned → Type 0
  Stops k failed = ⊥
  Stops k unending = ⊥
  Stops k (stopped current pointer) =
      ((current ≡ 0) × (pointer ≡ 0))
      ⊎ ((j : ℕ) × (current ≡ j * bufsiz)
          × (pointer ≡ current + length (take bufsiz (drop current file)))
          × (nonzero (take bufsiz (drop current file)) ≡ true))

  scan_loop-Stops :
      (fuel k current : ℕ) (buffer : List ℕ)
      → k < fuel
      → current ≡ k * bufsiz
      → (k ≡ 0) ⊎ (current < length file + bufsiz)
      → Zero buffer
      → Stops k (scan_loop faultless bufsiz file fuel current buffer)
  unfolding scan_loop
  scan_loop-Stops zero k current buffer enough at inside clean = absurd (omega arith)
  scan_loop-Stops (suc fuel) zero current buffer enough at inside clean =
      let e : current ≡ 0 = omega (arith, at, Nat.zero-mul bufsiz) in
      let below : ltb 0 bufsiz ≡ true = ground arith in rw (e, below) (inl (refl, refl))
  scan_loop-Stops (suc fuel) (suc k) current buffer enough at inside clean =
      let at' : current ≡ k * bufsiz + bufsiz = omega (arith, at, Nat.suc-mul k bufsiz) in
      let above : ltb current bufsiz ≡ false = ground arith in
      let pos : current - bufsiz ≡ k * bufsiz = omega arith in
      let bytes : List ℕ = take bufsiz (drop (current - bufsiz) file) in
      let bounded : k * bufsiz < length file = omega (arith, inside_bound inside) in
      let size : length bytes ≡ min bufsiz (length file - (current - bufsiz)) =
        length-take bufsiz (drop (current - bufsiz) file)
        ∙ ap (min bufsiz) (length-drop (current - bufsiz) file) in
      let some_bytes : (length bytes == 0) ≡ false = ground arith in
      elim (Bool-cases (nonzero bytes)) [
        | inl found ↦
            rw (scan_loop, above, some_bytes, nonzero-filled bytes buffer clean, found)
              (inr (k, pos, refl, found))
        | inr none_found ↦
            rw (scan_loop, above, some_bytes, nonzero-filled bytes buffer clean, none_found)
              (scan_loop-Stops fuel k (current - bufsiz) (filled bytes buffer) (omega arith) pos
                (inr (omega arith))
                (Zero-filled bytes buffer (Zero-nonzero bytes none_found) clean))
      ]
    where
      inside_bound :
          {k : ℕ} → (suc k ≡ 0) ⊎ (current < length file + bufsiz) → current < length file + bufsiz
      inside_bound (inl e) = absurd (omega arith)
      inside_bound (inr h) = h

  start_lem :
      (k : ℕ) × (start faultless bufsiz file ≡ k * bufsiz)
      × (k ≤ length file + 1)
      × (start faultless bufsiz file < length file + bufsiz)
  start_lem =
      let q : ℕ = length file / bufsiz in
      let parts : q * bufsiz + length file % bufsiz ≡ length file =
        omega (arith, Nat.div-add-mod (length file) bufsiz, Nat.mul_comm q bufsiz) in
      let rest : length file % bufsiz < bufsiz = Nat.mod-lt (length file) positive in
      elim (Bool-cases (length file % bufsiz == 0)) [
        | inl e ↦
            let z : length file % bufsiz ≡ 0 = (==_iff _ 0).0 e in
            (q, rw e (omega arith), omega (arith, le_mul q bufsiz positive), rw e (omega arith))
        | inr e ↦
            let nz : length file % bufsiz ≢ 0 =
              λ z. cc (e, (==_iff (length file % bufsiz) 0).1 z) in
            (
              suc q,
              rw e (omega (arith, Nat.suc-mul q bufsiz)),
              omega (arith, le_mul q bufsiz positive),
              rw e (omega arith),
            )
      ]

  -- The file is kept, since it fits one buffer or one of its last `bufsiz` bytes is not zero, or it
  -- is cut to whole buffers, of which the last has a byte that is not zero.
  abbrev pub Cuts : ℕ → Type 0
  Cuts n =
      ((n ≡ length file)
        × ((length file ≤ bufsiz) ⊎ (nonzero (drop (length file - bufsiz) file) ≡ true)))
      ⊎ ((k : ℕ) × (n ≡ k * bufsiz)
          × (n < length file)
          × ((k ≡ 0) ⊎ (nonzero (take bufsiz (drop (n - bufsiz) file)) ≡ true)))

  abbrev Ends : List ℕ × Bool → Type 0
  Ends r = (n : ℕ) × (r ≡ (take n file, true)) × Cuts n

  keeps :
      (length file ≤ bufsiz) ⊎ (nonzero (drop (length file - bufsiz) file) ≡ true)
      → Ends (file, true)
  keeps why = (
    length file,
    ap (λ l. (l, true)) (sym (take-all (length file) file (omega arith))),
    inl (refl, why),
  )

  set_end-Ends : (k : ℕ) (s : Scanned) → Stops k s → Ends (set_end faultless bufsiz file s)
  set_end-Ends k failed stops = absurd stops
  set_end-Ends k unending stops = absurd stops
  set_end-Ends k (stopped current pointer) (inl (c, p)) =
      if-cases Ends (leb (length file) (current + bufsiz))
        (λ e. keeps (inl (omega (arith, leb→le _ _ e))))
        (λ e. (pointer, refl, inr (0, p ∙ sym (Nat.zero-mul bufsiz), ground arith, inl refl)))
  set_end-Ends k (stopped current pointer) (inr (j, c, p, found)) =
      if-cases Ends (leb (length file) (current + bufsiz))
        (λ e. keeps (inr (last_nonzero (leb→le _ _ e))))
        (λ e.
          let more : current + bufsiz < length file = ground arith in
          let at : pointer ≡ current + bufsiz =
            omega (arith, length-take bufsiz (drop current file), length-drop current file) in
          let back : pointer - bufsiz ≡ current = omega arith in
          (
            pointer,
            refl,
            inr (suc j, omega (arith, Nat.suc-mul j bufsiz), omega arith, inr (rw back found)),
          ))
    where
      last_nonzero :
          length file ≤ current + bufsiz → nonzero (drop (length file - bufsiz) file) ≡ true
      last_nonzero le =
          let m : ℕ = length file - bufsiz in
          let e : m + (current - m) ≡ current = omega arith in
          nonzero-drop (current - m) (drop m file)
            (rw (drop-drop m (current - m) file, e) (nonzero-take bufsiz (drop current file) found))

  truncate_tail-Ends : Ends (truncate_tail faultless bufsiz file)
  unfolding truncate_tail
  truncate_tail-Ends =
      let (k, at, few, near) = start_lem in
      set_end-Ends k _ (
        scan_loop-Stops (length file + 2) k (start faultless bufsiz file) (zeros bufsiz)
          (omega arith) at (inr near) (Zero-zeros bufsiz))

  Zero-cut : (n m : ℕ) → take n file ≡ take m file → Zero (drop m file) → Zero (drop n file)
  Zero-cut n m same z =
      let sizes : min n (length file) ≡ min m (length file) =
        sym (length-take n file) ∙ ap length same ∙ length-take m file in
      elim (dec_lt n (length file)) [
        | yes inside ↦ let e : m ≡ n = omega (arith, sizes) in subst (λ k. Zero (drop k file)) e z
        | no past ↦ subst Zero (sym (drop-all n file (omega arith))) tt
      ]

  -- If every call succeeds, the program returns 0, and what it cuts off the file is zeros only. It
  -- cuts the file to whole buffers, of which the last has a byte that is not zero, or to nothing, if
  -- it is zeros only, or it keeps the file, if that fits one buffer or one of its last `bufsiz`
  -- bytes is not zero.
  pub truncate_tail-Cuts :
      (n : ℕ) × (truncate_tail faultless bufsiz file ≡ (take n file, true))
      × Cuts n
      × Zero (drop n file)
  truncate_tail-Cuts =
      let (n, run, cuts) = truncate_tail-Ends in
      let (m, cut, z) = truncate_tail-Zero faultless bufsiz file in
      (n, run, cuts, Zero-cut n m (sym (ap (λ r. r.0) run) ∙ cut) z)
