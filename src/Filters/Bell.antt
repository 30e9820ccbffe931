-- ===== src/Filters/Bell.antt =====
-- win32/c/chr7filter.c: replaces each bell character by a NUL. Each request has the buffer's size.
use mathlib.Core.List.{append-nil}
use ltrdata.Prelude.{
  ℕ, zero, suc, ◌<◌, ◌≡◌, sym, ◌∙◌, inl, inr, [], ◌++◌, arith, map, Run, done, spin, length, ◌==◌,
  if◌then◌else◌,
}
use ltrdata.Filters.Console.{
  Console, after_read, after_write, Reliable, round_lem, Passes-output, Passes-shorter,
  after_write-some, after_read-cons, after_read-nil,
}

abbrev pub io_buffer_size : ℕ
io_buffer_size = 8192

-- `if (buffer[i] == 0x07) buffer[i] = 0x00;`
unfoldable pub silence : ℕ → ℕ
silence c = if c == 0x07 then 0x00 else c

module _ {W : Type 0} (console : Console W) where
  -- `main`: every way out of the loop leads to exit status 0.
  unfoldable pub silence_bells : ℕ → W → Run (W × ℕ)
  silence_bells zero w = spin
  silence_bells (suc fuel) w = after_read 0 (console.read w io_buffer_size) (λ w' bytes.
      after_write 0 (console.write w' (map silence bytes)) (λ w'' n. silence_bells fuel w''))

module _ {W : Type 0} {console : Console W} (r : Reliable console) where
  -- On a reliable console, with fuel for one round more than there are bytes, the filter ends with
  -- status 0 when the whole input is read, and has written the input with its bells silenced.
  pub silence_bells-output :
      (fuel : ℕ) (w : W)
      → length (r.input w) < fuel
      → (w' : W) × (silence_bells console fuel w ≡ done (w', 0))
        × (r.input w' ≡ [])
        × (r.output w' ≡ r.output w ++ map silence (r.input w))
  unfolding silence_bells
  silence_bells-output zero w h = absurd (omega arith)
  silence_bells-output (suc fuel) w h =
      elim (round_lem r (map silence) w io_buffer_size (omega arith)) [
        | inl e ↦ (
          e.w₁,
          rw (silence_bells, e.read, after_read-nil),
          e.still,
          e.same ∙ rw e.all_read (sym (append-nil (r.output w))),
        )
        | inr p ↦
            let shorter = Passes-shorter r (map silence) w io_buffer_size p in
            let (w', run, all_read, out) = silence_bells-output fuel p.w₂ (omega arith) in
            (
              w',
              rw (silence_bells, p.read, after_read-cons, p.write, after_write-some) run,
              all_read,
              Passes-output r silence w io_buffer_size p w' out,
            )
      ]
