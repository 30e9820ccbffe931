-- ===== src/Truncate/Scan.antt =====
-- What win32/cpp/trunczerotail.cpp cuts off is zeros, whichever calls succeed.
use mathlib.Core.Path.{subst}
use ltrdata.Prelude.{
  zeros, ℕ, zero, suc, ◌+◌, ◌-◌, ◌≤◌, ◌≡◌, refl, sym, ap, ◌∙◌, Bool, false, ◌||◌, not, List, [],
  ◌∷◌, ◌++◌, arith, All, All-append, All-drop, All-take, length, take, drop, length-take,
  length-drop, take-append-drop, take-append_more, drop-drop, drop-all, take-all, ◌==◌, ltb, leb,
  if-cases,
}
use Prim.Native.Nat.{min}
use native.Mathlib.Decide.{dec_lt}
use ltrdata.Truncate.{
  Calls, nonzero, Scanned, failed, unending, stopped, filled, whole_words, scan_loop, start,
  set_end, truncate_tail,
}

abbrev pub Zero : List ℕ → Type 0
Zero = All (λ b. b ≡ 0)

pub Zero-nonzero : (bs : List ℕ) → nonzero bs ≡ false → Zero bs
Zero-nonzero [] h = tt
Zero-nonzero (b ∷ bs) h = (ground arith, Zero-nonzero bs (ground arith))

pub nonzero-Zero : (bs : List ℕ) → Zero bs → nonzero bs ≡ false
nonzero-Zero [] z = refl
nonzero-Zero (b ∷ bs) z = rw (z.0, nonzero-Zero bs z.1)

nonzero-append : (xs ys : List ℕ) → nonzero (xs ++ ys) ≡ nonzero xs || nonzero ys
nonzero-append [] ys = refl
nonzero-append (x ∷ xs) ys = ground (arith, nonzero-append xs ys)

pub Zero-zeros : (n : ℕ) → Zero (zeros n)
Zero-zeros zero = tt
Zero-zeros (suc n) = (refl, Zero-zeros n)

-- What the words of a buffer tell of the bytes that were read, if it held zeros before.
pub nonzero-filled :
    (bytes buffer : List ℕ)
    → Zero buffer
    → nonzero (take (whole_words (length bytes)) (filled bytes buffer)) ≡ nonzero bytes
nonzero-filled bytes buffer z =
    let n : ℕ = whole_words (length bytes) in
    let rest : List ℕ = take (n - length bytes) (drop (length bytes) buffer) in
    let clean : nonzero rest ≡ false =
      nonzero-Zero rest (All-take _ (n - length bytes) _ (All-drop _ (length bytes) buffer z)) in
    rw
      (
        take-append_more bytes (drop (length bytes) buffer) n (omega arith),
        nonzero-append bytes rest,
        clean,
      )
      (ground arith)

pub Zero-filled : (bytes buffer : List ℕ) → Zero bytes → Zero buffer → Zero (filled bytes buffer)
Zero-filled bytes buffer zb z = All-append _ bytes _ zb (All-drop _ (length bytes) buffer z)

module _ (calls : Calls) (bufsiz : ℕ) (file : List ℕ) where
  -- The part behind the file pointer is zero.
  abbrev Safe : Scanned → Type 0
  Safe failed = Unit
  Safe unending = Unit
  Safe (stopped current pointer) = Zero (drop pointer file)

  -- The rest of the file from a buffer on, where all behind the buffer is zero.
  pub Zero-behind :
      (current : ℕ)
      → bufsiz ≤ current
      → Zero (drop current file)
      → Zero (drop (current - bufsiz + length (take bufsiz (drop (current - bufsiz) file))) file)
  Zero-behind current le z =
      let pos : ℕ = current - bufsiz in
      let size : length (take bufsiz (drop pos file)) ≡ min bufsiz (length file - pos) =
        length-take bufsiz (drop pos file) ∙ ap (min bufsiz) (length-drop pos file) in
      elim (dec_lt (length file) current) [
        | yes short ↦
            let end =
              drop-all (pos + length (take bufsiz (drop pos file))) file (omega (arith, size)) in
            subst Zero (sym end) tt
        | no long ↦
            let e : pos + length (take bufsiz (drop pos file)) ≡ current = omega (arith, size) in
            rw e z
      ]

  pub Zero-before :
      (current : ℕ)
      → bufsiz ≤ current
      → Zero (drop current file)
      → Zero (take bufsiz (drop (current - bufsiz) file))
      → Zero (drop (current - bufsiz) file)
  Zero-before current le z bytes =
      let pos : ℕ = current - bufsiz in
      let e : pos + bufsiz ≡ current = omega arith in
      subst Zero (take-append-drop bufsiz (drop pos file))
        (All-append _ (take bufsiz (drop pos file)) _ bytes (rw (drop-drop pos bufsiz file, e) z))

  scan_loop-Safe :
      (fuel current : ℕ) (buffer : List ℕ)
      → Zero buffer
      → Zero (drop current file)
      → Safe (scan_loop calls bufsiz file fuel current buffer)
  unfolding scan_loop
  scan_loop-Safe zero current buffer clean z = tt
  scan_loop-Safe (suc fuel) current buffer clean z =
      let bytes : List ℕ = take bufsiz (drop (current - bufsiz) file) in
      if-cases Safe (ltb current bufsiz) (λ below. z)
        (λ above.
          let le : bufsiz ≤ current = ground arith in
          if-cases Safe (not (calls.seeks_to (current - bufsiz))) (λ e. tt)
            (λ e.
              if-cases Safe (not (calls.reads_at (current - bufsiz))) (λ e. tt)
                (λ e.
                  if-cases Safe (length bytes == 0) (λ e. tt)
                    (λ e.
                      if-cases Safe
                        (nonzero (take (whole_words (length bytes)) (filled bytes buffer)))
                        (λ found. Zero-behind current le z)
                        (λ none_found.
                          let bytes_zero =
                            Zero-nonzero bytes
                              (sym (nonzero-filled bytes buffer clean) ∙ none_found) in
                          let next =
                            scan_loop-Safe fuel (current - bufsiz) (filled bytes buffer)
                              (Zero-filled bytes buffer bytes_zero clean)
                              (Zero-before current le z bytes_zero) in
                          if-cases Safe (not (calls.seeks_to (current - bufsiz))) (λ e. tt)
                            (λ e. next))))))

  -- Whatever calls succeed, the program leaves the file as it is or cuts its end off, and what it
  -- cuts off is zeros only.
  pub truncate_tail-Zero :
      (n : ℕ) × ((truncate_tail calls bufsiz file).0 ≡ take n file) × Zero (drop n file)
  unfolding truncate_tail
  truncate_tail-Zero =
      if-cases Result (calls.seeks_to (start calls bufsiz file))
        (λ e.
          ended
            (scan_loop calls bufsiz file (length file + 2) (start calls bufsiz file) (zeros bufsiz))
            (scan_loop-Safe (length file + 2) (start calls bufsiz file) (zeros bufsiz)
              (Zero-zeros bufsiz) (subst Zero (sym behind) tt)))
        (λ e. kept)
    where
      Result : List ℕ × Bool → Type 0
      Result r = (n : ℕ) × (r.0 ≡ take n file) × Zero (drop n file)

      behind : drop (start calls bufsiz file) file ≡ []
      behind = drop-all (start calls bufsiz file) file (omega arith)

      kept : (n : ℕ) × (file ≡ take n file) × Zero (drop n file)
      kept = (
        length file,
        sym (take-all (length file) file (omega arith)),
        subst Zero (sym (drop-all (length file) file (omega arith))) tt,
      )

      ended : (s : Scanned) → Safe s → Result (set_end calls bufsiz file s)
      ended failed safe = kept
      ended unending safe = kept
      ended (stopped current pointer) safe =
          if-cases Result (leb (length file) (current + bufsiz)) (λ e. kept)
            (λ e. if-cases Result calls.sets_end (λ e. (pointer, refl, safe)) (λ e. kept))
