-- ===== src/Filters/Rot13/Laws.antt =====
-- The laws of win32/c/rot13.c.
use mathlib.Core.List.{append-nil}
use ltrdata.Prelude.{
  ℕ, zero, suc, ◌+◌, ◌-◌, ◌%◌, ◌&&◌, leb, if◌then◌else◌, ap, ◌<◌, ◌≡◌, refl, sym, inl, inr, ◌∙◌,
  List, [], ◌∷◌, ◌++◌, arith, map, done, length,
}
use ltrdata.Filters.Console.{
  Console, Reliable, round_lem, Passes-output, Passes-shorter, after_write-some, after_read-cons,
  after_read-nil,
}
use ltrdata.Filters.Rot13.{rot13_byte, rot13}

rot13_byte_twice : (c : ℕ) → rot13_byte (rot13_byte c) ≡ c
unfolding rot13_byte
rot13_byte_twice c = ground arith

-- Rotating every byte of a text twice gives the text back.
pub map-rot13_byte_twice : (bytes : List ℕ) → map rot13_byte (map rot13_byte bytes) ≡ bytes
map-rot13_byte_twice [] = refl
map-rot13_byte_twice (c ∷ cs) = rw (rot13_byte_twice c, map-rot13_byte_twice cs)

-- The letter 13 places further in the alphabet, around its end; other bytes stay.
abbrev pub rotated : ℕ → ℕ
rotated c =
    if leb b'a' c && leb c b'z'
    then b'a' + (c - b'a' + 13) % 26
    else if leb b'A' c && leb c b'Z'
    then b'A' + (c - b'A' + 13) % 26
    else c

rot13_byte-rotated : (c : ℕ) → rot13_byte c ≡ rotated c
unfolding rot13_byte
rot13_byte-rotated c = ground arith

map-rotated : (bytes : List ℕ) → map rot13_byte bytes ≡ map rotated bytes
map-rotated [] = refl
map-rotated (c ∷ cs) = rw (rot13_byte-rotated c, map-rotated cs)

module _ {W : Type 0} {console : Console W} (r : Reliable console) where
  -- On a reliable console, with a first request of a positive size and fuel for one round more than
  -- there are bytes, `rot13` ends with status 0 when the whole input is read.
  rot13-map :
      (fuel n : ℕ) (w : W)
      → length (r.input w) < fuel
      → 0 < n
      → (w' : W) × (rot13 console fuel n w ≡ done (w', 0))
        × (r.input w' ≡ [])
        × (r.output w' ≡ r.output w ++ map rot13_byte (r.input w))
  unfolding rot13
  rot13-map zero n w h pos = absurd (omega arith)
  rot13-map (suc fuel) n w h pos = elim (round_lem r (map rot13_byte) w n pos) [
    | inl e ↦ (
      e.w₁,
      rw (rot13, e.read, after_read-nil),
      e.still,
      e.same ∙ rw e.all_read (sym (append-nil (r.output w))),
    )
    | inr p ↦
        let shorter = Passes-shorter r (map rot13_byte) w n p in
        let (w', run, all_read, out) =
          rot13-map fuel (length (map rot13_byte (p.head ∷ p.tail))) p.w₂ (omega arith)
            (omega arith) in
        (
          w',
          rw (rot13, p.read, after_read-cons, p.write, after_write-some) run,
          all_read,
          Passes-output r rot13_byte w n p w' out,
        )
  ]

  -- On a reliable console, with a first request of a positive size and fuel for one round more than
  -- there are bytes, `rot13` ends with status 0 when the whole input is read, and has written the
  -- input with each letter moved 13 places in the alphabet, around its end, and all else as it was;
  -- a second run over what was written would write the input.
  pub rot13-output :
      (fuel n : ℕ) (w : W)
      → length (r.input w) < fuel
      → 0 < n
      → (w' : W) × (rot13 console fuel n w ≡ done (w', 0))
        × (r.input w' ≡ [])
        × (r.output w' ≡ r.output w ++ map rotated (r.input w))
        × (map rotated (map rotated (r.input w)) ≡ r.input w)
  rot13-output fuel n w enough some_size =
      let (w', run, all_read, out) = rot13-map fuel n w enough some_size in
      (
        w',
        run,
        all_read,
        out ∙ ap (◌++◌ (r.output w)) (map-rotated (r.input w)),
        sym (ap (map rotated) (map-rotated (r.input w)))
            ∙ sym (map-rotated (map rot13_byte (r.input w)))
            ∙ map-rot13_byte_twice (r.input w),
      )
