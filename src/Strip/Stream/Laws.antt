-- ===== src/Strip/Stream/Laws.antt =====
-- The filter of win32/c/stripcr.c passes on its input without the carriage returns.
use mathlib.Core.List.{append-nil, append_assoc}
use ltrdata.Prelude.{
  ℕ, ◌≡◌, refl, ap, ◌∙◌, true, Option, none, some, List, [], ◌∷◌, ◌++◌, arith, length, get_or, take,
  drop, ◌==◌, ==_iff, sym,
}
use ltrdata.Prelude.Int.{ℤ, pos}
use ltrdata.Strip.{strip}
use ltrdata.Strip.Convert.{Sender, convert-Writes}
use ltrdata.Strip.Slices.{slice, take-drop-slice, slice_whole}
use ltrdata.Strip.Stream.{convert_buffer, wrstdout, filter_input, received, exit_status}

-- Standard output as the filter relies on it: it takes all bytes of each write.
pub record Output {W : Type 0} (write : W → List ℕ → W × ℤ) : Type 0 where
  pub written : W → List ℕ
  pub takes_all :
      (w : W) (bytes : List ℕ)
      → (w' : W) × (write w bytes ≡ (w', pos (length bytes))) × (written w' ≡ written w ++ bytes)

strip-append : (xs ys : List ℕ) → strip (xs ++ ys) ≡ strip xs ++ strip ys
strip-append [] ys = refl
strip-append (x ∷ xs) ys = ground (arith, strip-append xs ys)

module _ {W : Type 0} {write : W → List ℕ → W × ℤ} (out : Output write) where
  send_chunk :
      (w : W) (bytes chunk : List ℕ)
      → bytes ≡ chunk
      → (w' : W) × (wrstdout write w bytes ≡ (w', true))
        × Unit {0}
        × Unit {0}
        × (out.written w' ≡ out.written w ++ chunk)
  unfolding wrstdout
  send_chunk w bytes chunk e =
      let (w', run, grown) = out.takes_all w bytes in
      let full : (length bytes == length bytes) ≡ true = (==_iff _ _).1 refl in
      (w', rw (run, full), tt, tt, grown ∙ ap (◌++◌ (out.written w)) e)

  sender :
      (buffer : List ℕ)
      → Sender
          (λ w i. get_or buffer i 0)
          (λ w e n. wrstdout write w (take n (drop e buffer)))
          (λ i. get_or buffer i 0)
          (length buffer)
  unfolding wrstdout
  sender buffer = record {
    out = out.written;
    Holds = λ w e. Unit {0};
    Sent = λ w. Unit {0};
    weaken = λ w e e' le h. tt;
    reads = λ w e j h le lt. refl;
    sends = λ w e n h fits.
        send_chunk w (take n (drop e buffer)) (slice (λ i. get_or buffer i 0) e n)
          (take-drop-slice buffer e n fits);
  }

  convert_buffer-written :
      (buffer : List ℕ) (w : W)
      → (w' : W) × (convert_buffer write buffer w ≡ (w', true))
        × (out.written w' ≡ out.written w ++ strip buffer)
  unfolding convert_buffer sender
  convert_buffer-written buffer w =
      let (w', run, _, _, grown) = convert-Writes (sender buffer) w tt in
      (w', run, grown ∙ ap (λ l. out.written w ++ strip l) (slice_whole buffer))

  join :
      (w w' : W) (chunk rest : List ℕ)
      → out.written w' ≡ out.written w ++ strip chunk
      → out.written w' ++ strip rest ≡ out.written w ++ strip (chunk ++ rest)
  join w w' chunk rest e =
      rw (e, strip-append chunk rest) (append_assoc (out.written w) (strip chunk) (strip rest))

  -- With an output that takes all bytes of each write, the filter writes the bytes that it received
  -- without the carriage returns, wherever the calls of `read` cut the input, and exits with 1 if
  -- `read` fails before the end of the input, and with 0 otherwise.
  pub filter_input-strip :
      (reads : List (Option (List ℕ))) (w : W)
      → (w' : W) × (filter_input write reads w ≡ (w', exit_status reads))
        × (out.written w' ≡ out.written w ++ strip (received reads))
  unfolding filter_input
  filter_input-strip [] w = (w, refl, sym (append-nil _))
  filter_input-strip (none ∷ rs) w = (w, refl, sym (append-nil _))
  filter_input-strip (some [] ∷ rs) w = (w, refl, sym (append-nil _))
  filter_input-strip (some (c ∷ cs) ∷ rs) w =
      let (w₁, first, grown₁) = convert_buffer-written (c ∷ cs) w in
      let (w₂, rest, grown₂) = filter_input-strip rs w₁ in
      (w₂, rw (filter_input, first) rest, grown₂ ∙ join w w₁ (c ∷ cs) (received rs) grown₁)
