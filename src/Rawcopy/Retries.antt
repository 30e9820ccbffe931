-- ===== src/Rawcopy/Retries.antt =====
-- The loop on one read of win32/cpp/rawcopy.cpp on any device, with the option -i: lines 700 to
-- 752.

use ltrdata.Prelude.{
  ℕ, zero, suc, ◌+◌, ◌<◌, ◌≡◌, refl, ap, ◌∙◌, Bool, true, false, Option, some, none, List, [], Run,
  done, zeros, ltb, if◌then◌else◌, if-cases, arith,
}
use ltrdata.Rawcopy.{
  Read, bytes, read_error, ignore, Device, Options, choose, read_choice, after_read, read_block,
}

module _ {W : Type 0} (device : Device W) (o : Options) (n : ℕ) where
  -- How one block may be read with `left` more tries: the bytes of the first read that does not
  -- fail, none at the end of a pipe or device, and zeros after the last try, when the input is
  -- moved by the size of the buffer.
  pub data Tries : ℕ → W → W × Option (List ℕ) → Type 0 where
    answers :
        {left : ℕ} {w w' : W} {bs : List ℕ}
        → device.read w n ≡ (w', bytes bs)
        → Tries left w (w', some bs)
    ends :
        {left : ℕ} {w w' : W} → device.read w n ≡ (w', read_error true) → Tries left w (w', some [])
    fails :
        {left : ℕ} {w w' : W} {answer : W × Option (List ℕ)}
        → device.read w n ≡ (w', read_error false)
        → Tries left w' answer
        → Tries (suc left) w answer
    gives_up :
        {w w1 w2 : W}
        → device.read w n ≡ (w1, read_error false)
        → device.seek_in w1 o.bufsiz ≡ (w2, true)
        → Tries 0 w (w2, some (zeros n))
    stops :
        {w w1 w2 : W}
        → device.read w n ≡ (w1, read_error false)
        → device.seek_in w1 o.bufsiz ≡ (w2, false)
        → Tries 0 w (w2, none)

  abbrev Tried : ℕ → W → Run (W × Option (List ℕ)) → Type 0
  Tried left w run = (r : W × Option (List ℕ)) × (run ≡ done r) × Tries left w r

  -- What the first answer of -i, to ignore, makes of it.
  abbrev moved_on : W × Bool → Run (W × Option (List ℕ))
  moved_on x = let (w', moved) = x in if moved then done (w', some (zeros n)) else done (w', none)

  ignored_choice :
      (again : W → Run (W × Option (List ℕ))) (w : W)
      → o.ignore_errors ≡ true
      → read_choice device o n again (choose device o w) ≡ moved_on (device.seek_in w o.bufsiz)
  ignored_choice again w ignored =
      ap (λ b. read_choice device o n again (if b then (w, ignore) else device.message_box w))
        ignored

  last_Tried :
      (again : W → Run (W × Option (List ℕ))) (w w1 : W)
      → o.ignore_errors ≡ true
      → device.read w n ≡ (w1, read_error false)
      → (x : W × Bool) → device.seek_in w1 o.bufsiz ≡ x
      → Tried 0 w (read_choice device o n again (choose device o w1))
  last_Tried again w w1 ignored e (w2, true) moved =
      (_, ignored_choice again w1 ignored ∙ ap moved_on moved, gives_up e moved)
  last_Tried again w w1 ignored e (w2, false) moved =
      (_, ignored_choice again w1 ignored ∙ ap moved_on moved, stops e moved)

  after_Tried :
      (fuel left retries : ℕ) (w : W) (x : W × Read)
      → o.ignore_errors ≡ true
      → retries + left ≡ o.retrycount
      → device.read w n ≡ x
      → ((w' : W) (left' : ℕ)
          → left ≡ suc left'
          → Tried left' w' (read_block device o fuel n (retries + 1) w'))
      → Tried left w (after_read device o n retries (read_block device o fuel n) x)
  after_Tried fuel left retries w (w', bytes bs) ignored tries e go = (_, refl, answers e)
  after_Tried fuel left retries w (w', read_error true) ignored tries e go = (_, refl, ends e)
  after_Tried fuel zero retries w (w', read_error false) ignored tries e go =
      if-cases (Tried zero w) (ltb retries o.retrycount) (λ more. absurd (ground arith))
        (λ last. last_Tried (read_block device o fuel n 0) w w' ignored e _ refl)
  after_Tried fuel (suc left) retries w (w', read_error false) ignored tries e go =
      if-cases (Tried (suc left) w) (ltb retries o.retrycount)
        (λ more. let (r, run, rest) = go w' left refl in (r, run, fails e rest))
        (λ last. absurd (ground arith))

  -- With the option -i, one block is read whatever the device answers, in as many rounds as there
  -- are tries left and one more: with the first answer that is no failure, or with zeros when every
  -- try failed, and then the input is moved by the size of the buffer; the program stops only when
  -- it cannot be moved.
  pub read_block-Tries :
      (fuel left retries : ℕ) (w : W)
      → o.ignore_errors ≡ true
      → retries + left ≡ o.retrycount
      → left < fuel
      → (r : W × Option (List ℕ)) × (read_block device o fuel n retries w ≡ done r) × Tries left w r
  unfolding read_block
  read_block-Tries zero left retries w ignored tries enough = absurd (omega arith)
  read_block-Tries (suc fuel) left retries w ignored tries enough =
      after_Tried fuel left retries w _ ignored tries refl (λ w' left' e.
        read_block-Tries fuel left' (retries + 1) w' ignored (omega arith) (omega arith))
