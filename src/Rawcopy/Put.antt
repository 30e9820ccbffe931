-- ===== src/Rawcopy/Put.antt =====
-- What win32/cpp/rawcopy.cpp does with a block that was read, on devices without errors: lines
-- 818 to 901.
use mathlib.Core.Path.{subst}
use ltrdata.Prelude.{
  ℕ, suc, ◌+◌, ◌≤◌, ◌<◌, ◌≡◌, refl, sym, ap, ◌∙◌, inl, inr, Bool, true, false, Option, none, some,
  List, Run, done, ◌>>=◌, length, ltb, if◌then◌else◌, if-cases, arith,
}
use ltrdata.Truncate.{filled}
use ltrdata.Rawcopy.{
  Device, Options, Progress, write_block, after_write, skips_block, after_skip, put_block,
}
use ltrdata.Prelude.Splice.{splice, resized, splice-same, splice-zeros}
use ltrdata.Rawcopy.Reliable.{Reliable, Written, Ahead, Skippable, Decided, skips_block-Decided}

module _ {W : Type 0} (device : Device W) (r : Reliable device) (o : Options) where
  -- The block is in the output, and the whole of it is counted.
  abbrev pub IsPut : W → List ℕ → Run (W × Option ℕ × Bool) → Type 0
  IsPut w bs run =
      (w' : W) × (skip : Bool) × (run ≡ done (w', some (length bs), skip))
      × Written device r o w w' bs

  write-IsPut :
      (t rb : ℕ) (bs : List ℕ) (w : W)
      → r.pos w ≤ length (r.file w)
      → IsPut w bs (put_block device o (suc t) rb bs (w, some false))
  unfolding write_block
  write-IsPut t rb bs w inside =
      let written = r.writes w bs inside in
      (
        written.0,
        false,
        ap
            (λ x. after_write device o (length bs) 0 (write_block device o t bs) x >>= λ (v, n).
              done (v, n, false))
            written.1,
        (written.2, written.3, written.4),
      )

  -- A skipped block at the old end of the file, or in front of it.
  skipped_Written :
      (p : Progress) (bs : List ℕ) (w w' : W)
      → 0 < length bs
      → Ahead device r o p w
      → Skippable device r o p bs w
      → (r.file w' ≡ r.file w) × (r.pos w' ≡ r.pos w + length bs) × (r.input w' ≡ r.input w)
      → Written device r o w
          (if ltb o.existing (p.readbytes + length bs) then device.set_end w' else w')
          bs
  skipped_Written p bs w w' full ahead (inl (fits, same)) (f, at, i) =
      if-cases (λ x. Written device r o w x bs) (ltb o.existing (p.readbytes + length bs))
        (λ over. absurd (ground arith))
        (λ inside. (
          f
              ∙ sym (
                  ap (splice (r.file w) (r.pos w)) same
                  ∙ splice-same (r.file w) (r.pos w) (length bs) (omega (arith, ahead))),
          at,
          i,
        ))
  skipped_Written p bs w w' full ahead (inr (over, same)) (f, at, i) =
      let (f1, at1, i1) = r.ends w' in
      if-cases (λ x. Written device r o w x bs) (ltb o.existing (p.readbytes + length bs))
        (λ longer. (
          f1
              ∙ ap (λ x. resized x (r.pos w')) f
              ∙ ap (resized (r.file w)) at
              ∙ sym (splice-zeros (r.file w) (r.pos w) (length bs) (omega (arith, ahead)))
              ∙ ap (splice (r.file w) (r.pos w)) (sym same),
          at1 ∙ at,
          i1 ∙ i,
        ))
        (λ within. absurd (ground arith))

  moved :
      (from to : W) (w' : W) (bs : List ℕ)
      → r.file to ≡ r.file from
      → r.pos to ≡ r.pos from
      → r.input to ≡ r.input from
      → Written device r o to w' bs
      → Written device r o from w' bs
  moved from to w' bs f at i (wf, wat, wi) = (
    wf ∙ ap (λ x. splice x (r.pos to) bs) f ∙ ap (λ n. splice (r.file from) n bs) at,
    wat ∙ ap (λ n. n + length bs) at,
    wi ∙ i,
  )

  put_block_settled :
      (t : ℕ) (p : Progress) (bs : List ℕ) (w : W) (d : W × Option Bool)
      → 0 < length bs
      → Ahead device r o p w
      → Decided device r o p bs w d
      → IsPut w bs (put_block device o (suc t) (p.readbytes + length bs) bs d)
  put_block_settled t p bs w (w1, none) full ahead e = absurd e
  put_block_settled t p bs w (w1, some true) full ahead (f, at, i, why) =
      let (w2, e2, f2, at2, i2) = r.skips w1 (length bs) in
      (
        _,
        true,
        ap
            (λ x. after_skip device o (p.readbytes + length bs) (length bs) x >>= λ (v, n).
              done (v, n, true))
            e2,
        skipped_Written p bs w w2 full ahead (why refl) (f2 ∙ f, omega (arith, at2, at), i2 ∙ i),
      )
  put_block_settled t p bs w (w1, some false) full ahead (f, at, i, why) =
      let inside : r.pos w1 ≤ length (r.file w1) =
        subst (λ x. r.pos w1 ≤ length x) (sym f) (omega (arith, at, ahead)) in
      let (w2, skip, e2, put) = write-IsPut t (p.readbytes + length bs) bs w1 inside in
      (w2, skip, e2, moved w w1 w2 bs f at i put)

  pub put_block-IsPut :
      (t : ℕ) (p : Progress) (bs : List ℕ) (w : W)
      → 0 < length bs
      → Ahead device r o p w
      → IsPut w bs (
          put_block device o
            (suc t)
            (p.readbytes + length bs)
            bs
            (skips_block device o p bs (filled bs p.buffer) w))
  put_block-IsPut t p bs w full ahead =
      put_block_settled t p bs w _ full ahead (skips_block-Decided device r o p bs w ahead)
