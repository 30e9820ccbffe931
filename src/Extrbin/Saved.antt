-- ===== src/Extrbin/Saved.antt =====
-- What win32/cpp/extrbin.cpp saves of a device that it can read to the end.
use mathlib.Core.Path.{subst}
use mathlib.Core.List.{append_assoc, append-nil}
use ltrdata.Prelude.{
  ℕ, zero, suc, ◌+◌, ◌-◌, ◌<◌, ◌≤◌, ◌≡◌, refl, sym, ap, ◌∙◌, Bool, true, false, not, some, List, [],
  ◌∷◌, ◌++◌, Run, done, length, take, drop, ◌==◌, ltb, if◌then◌else◌, if-cases, arith,
  length-append, length-take, length-drop, take-append, take-all, drop-drop,
}
use ltrdata.Truncate.{filled}
use ltrdata.Rawcopy.{same_bytes}
use ltrdata.Filters.Console.{Console, Whole}
use ltrdata.Extrbin.{Search, compared, after_save, after_rest, save_block, after_sector, extract}

window_lem :
    (o k n : ℕ) (xs c : List ℕ)
    → o + k ≤ n
    → n ≤ length xs
    → take k (drop o (take n xs ++ c)) ≡ take k (drop o xs)
window_lem zero zero n xs c fits inside = refl
window_lem zero (suc k) zero xs c fits inside = absurd (omega arith)
window_lem zero (suc k) (suc n) [] c fits inside = absurd (omega arith)
window_lem zero (suc k) (suc n) (x ∷ xs) c fits inside =
    ap (◌∷◌ x) (window_lem zero k n xs c (omega arith) (omega arith))
window_lem (suc o) k zero xs c fits inside = absurd (omega arith)
window_lem (suc o) k (suc n) [] c fits inside = absurd (omega arith)
window_lem (suc o) k (suc n) (x ∷ xs) c fits inside =
    window_lem o k n xs c (omega arith) (omega arith)

take_twice : (m n : ℕ) (xs : List ℕ) → take m xs ++ take n (drop m xs) ≡ take (m + n) xs
take_twice zero n xs = let e : 0 + n ≡ n = omega arith in ap (λ k. take k xs) (sym e)
take_twice (suc m) n [] = take-all n [] (omega arith) ∙ sym (take-all (suc m + n) [] (omega arith))
take_twice (suc m) n (x ∷ xs) =
    let e : suc m + n ≡ suc (m + n) = omega arith in rw (e, sym (take_twice m n xs)) refl

module _ (s : Search) where
  abbrev pub matches : List ℕ → Bool
  matches xs = same_bytes (take 4 s.search_data) (take 4 (drop s.offset xs))

  -- The blocks of the bytes `xs` that begin with the data: `Saves xs ys`. A block is saved as far as
  -- the device goes, and the search goes on behind it; elsewhere it goes on with the next sector.
  pub data Saves : List ℕ → List ℕ → Type 0 where
    rest_short : {xs : List ℕ} → length xs < s.sector_size → Saves xs []
    block_found :
        {xs ys : List ℕ}
        → s.sector_size ≤ length xs
        → matches xs ≡ true
        → Saves (drop s.block_size xs) ys
        → Saves xs (take s.block_size xs ++ ys)
    sector_passed :
        {xs ys : List ℕ}
        → s.sector_size ≤ length xs
        → matches xs ≡ false
        → Saves (drop s.sector_size xs) ys
        → Saves xs ys

module _ {W : Type 0} {console : Console W} (r : Whole console) (ctrlbreak : W → Bool)
    (s : Search) where
  abbrev Extracts : W → ℕ → Run (W × ℕ) → Type 0
  Extracts w saved run =
      (w' : W) × (ys : List ℕ) × (run ≡ done (w', saved + length ys))
      × (r.output w' ≡ r.output w ++ ys)
      × Saves s (r.input w) ys

  abbrev Sizes : Type 0
  Sizes = (0 < s.sector_size) × (s.sector_size ≤ s.block_size) × (s.offset + 4 ≤ s.sector_size)

  -- A block that was found and written, and the blocks behind it.
  found_Extracts :
      (next : List ℕ → ℕ → W → Run (W × ℕ)) (old : List ℕ) (saved : ℕ) (w w2 : W) (cs : List ℕ)
      → s.sector_size ≤ s.block_size
      → s.sector_size ≤ length (r.input w)
      → matches s (r.input w) ≡ true
      → cs ≡ take (s.block_size - s.sector_size) (drop s.sector_size (r.input w))
      → r.input w2 ≡ drop s.block_size (r.input w)
      → r.output w2 ≡ r.output w
      → ((block : List ℕ) (saved' : ℕ) (w' : W)
          → r.input w' ≡ r.input w2
          → Extracts w' saved' (next block saved' w'))
      → Extracts w saved (
          after_rest console ctrlbreak s next
            (filled (take s.sector_size (r.input w)) old)
            saved
            (w2, some cs))
  found_Extracts next old saved w w2 cs le inside hit rest i o go =
      let xs = r.input w in
      let block = filled (take s.sector_size xs) old in
      let behind = drop (s.sector_size + length cs) block in
      let whole = take s.sector_size block ++ (cs ++ behind) in
      let rep = length cs + s.sector_size in
      let sector : length (take s.sector_size xs) ≡ s.sector_size =
        omega (arith, length-take s.sector_size xs) in
      let size : length (take s.sector_size xs ++ cs) ≡ rep =
        omega (arith, length-append (take s.sector_size xs) cs, sector) in
      let both : s.sector_size + (s.block_size - s.sector_size) ≡ s.block_size = omega arith in
      let fits : length cs ≤ s.block_size - s.sector_size = omega (
        arith,
        ap length rest,
        length-take (s.block_size - s.sector_size) (drop s.sector_size xs),
      ) in
      let joined : take s.sector_size xs ++ cs ≡ take s.block_size xs =
        ap (◌++◌ (take s.sector_size xs)) rest
        ∙ take_twice s.sector_size (s.block_size - s.sector_size) xs
        ∙ ap (λ k. take k xs) both in
      let written : take rep whole ≡ take s.block_size xs =
        ap (λ a. take rep (a ++ (cs ++ behind))) (take-append (take s.sector_size xs) _ sector)
        ∙ ap (take rep) (sym (append_assoc (take s.sector_size xs) cs behind))
        ∙ take-append (take s.sector_size xs ++ cs) behind size
        ∙ joined in
      let (w3, e3, i3, o3) = r.writes w2 (take rep whole) in
      let (w', ys, run, out, saves) = go whole (saved + rep) w3 i3 in
      let count : saved + rep + length ys ≡ saved + length (take s.block_size xs ++ ys) =
        omega (arith, length-append (take s.block_size xs) ys, ap length joined, size) in
      if-cases (Extracts w saved) (ltb s.block_size rep) (λ over. absurd (ground arith))
        (λ room. (
          w',
          take s.block_size xs ++ ys,
          ap (after_save console ctrlbreak s (next whole) (saved + rep)) e3
              ∙ run
              ∙ ap (λ n. done (w', n)) count,
          out
              ∙ ap (λ z. z ++ ys)
                  (o3 ∙ ap (λ z. z ++ take rep whole) o ∙ ap (◌++◌ (r.output w)) written)
              ∙ append_assoc (r.output w) (take s.block_size xs) ys,
          block_found inside hit (subst (λ z. Saves s z ys) (i3 ∙ i) saves),
        ))

  save_Extracts :
      (next : List ℕ → ℕ → W → Run (W × ℕ)) (old : List ℕ) (saved : ℕ) (w w1 : W)
      → s.sector_size ≤ s.block_size
      → s.sector_size ≤ length (r.input w)
      → matches s (r.input w) ≡ true
      → r.input w1 ≡ drop s.sector_size (r.input w)
      → r.output w1 ≡ r.output w
      → ((block : List ℕ) (saved' : ℕ) (w' : W)
          → r.input w' ≡ drop s.block_size (r.input w)
          → Extracts w' saved' (next block saved' w'))
      → Extracts w saved (
          save_block console ctrlbreak s next
            (filled (take s.sector_size (r.input w)) old)
            saved
            w1)
  save_Extracts next old saved w w1 le inside hit i o go =
      let xs = r.input w in
      let more = s.block_size - s.sector_size in
      let both : s.sector_size + more ≡ s.block_size = omega arith in
      let beyond : drop more (drop s.sector_size xs) ≡ drop s.block_size xs =
        drop-drop s.sector_size more xs ∙ ap (λ k. drop k xs) both in
      if-cases (Extracts w saved) (ltb s.sector_size s.block_size)
        (λ larger.
          let (w2, e2, i2, o2) = r.reads w1 more in
          let i' = i2 ∙ ap (drop more) i ∙ beyond in
          subst (Extracts w saved)
            (sym (
              ap (after_rest console ctrlbreak s next (filled (take s.sector_size xs) old) saved)
                e2))
            (found_Extracts next old saved w w2 (take more (r.input w1)) le inside hit
              (ap (take more) i) i' (o2 ∙ o) (λ block saved' w' e. go block saved' w' (e ∙ i'))))
        (λ same.
          let none_left : more ≡ 0 = ground arith in
          let i' : r.input w1 ≡ drop s.block_size xs =
            i ∙ ap (λ k. drop k (drop s.sector_size xs)) (sym none_left) ∙ beyond in
          found_Extracts next old saved w w1 [] le inside hit
            (ap (λ k. take k (drop s.sector_size xs)) (sym none_left)) i' o
            (λ block saved' w' e. go block saved' w' (e ∙ i')))

  sector_Extracts :
      (next : List ℕ → ℕ → W → Run (W × ℕ)) (old : List ℕ) (saved : ℕ) (w w1 : W)
      → Sizes
      → r.input w1 ≡ drop s.sector_size (r.input w)
      → r.output w1 ≡ r.output w
      → ((block : List ℕ) (saved' : ℕ) (w' : W)
          → length (r.input w') < length (r.input w)
          → Extracts w' saved' (next block saved' w'))
      → Extracts w saved (
          after_sector console ctrlbreak s next old saved
            (w1, some (take s.sector_size (r.input w))))
  sector_Extracts next old saved w w1 (full, le, fits) i o go =
      let xs = r.input w in
      let bs = take s.sector_size xs in
      let four : compared console ctrlbreak s ≡ 4 = ground arith in
      if-cases (Extracts w saved) (ltb s.block_size (length bs))
        (λ over. absurd (ground (arith, length-take s.sector_size xs)))
        (λ room.
          if-cases (Extracts w saved) (not (length bs == s.sector_size))
            (λ short.
              let none_more : saved ≡ saved + 0 = omega arith in
              (
                w1,
                [],
                ap (λ n. done (w1, n)) none_more,
                o ∙ sym (append-nil (r.output w)),
                rest_short (ground (arith, length-take s.sector_size xs)),
              ))
            (λ whole.
              let inside : s.sector_size ≤ length xs =
                ground (arith, length-take s.sector_size xs) in
              let test : same_bytes (take (compared console ctrlbreak s) s.search_data)
                    (take (compared console ctrlbreak s) (drop s.offset (filled bs old)))
                  ≡ matches s xs =
                ap (λ k. same_bytes (take k s.search_data) (take k (drop s.offset (filled bs old))))
                  four
                ∙ ap (same_bytes (take 4 s.search_data))
                    (window_lem s.offset 4 s.sector_size xs (drop (length bs) old) fits inside) in
              if-cases (Extracts w saved)
                (ltb s.block_size (s.offset + compared console ctrlbreak s))
                (λ over. absurd (ground (arith, four)))
                (λ within.
                  if-cases (Extracts w saved)
                    (same_bytes (take (compared console ctrlbreak s) s.search_data)
                      (take (compared console ctrlbreak s) (drop s.offset (filled bs old))))
                    (λ hit.
                      save_Extracts next old saved w w1 le inside (sym test ∙ hit) i o
                        (λ block saved' w' e.
                          go block saved' w'
                            (omega (arith, ap length e, length-drop s.block_size xs))))
                    (λ other.
                      let (w', ys, run, out, saves) =
                        go (filled bs old) saved w1
                          (omega (arith, ap length i, length-drop s.sector_size xs)) in
                      (
                        w',
                        ys,
                        run,
                        out ∙ ap (λ z. z ++ ys) o,
                        sector_passed inside (sym test ∙ other) (subst (λ z. Saves s z ys) i saves),
                      )))))

  -- If each read gets as much as there is, each write writes all, and no key stops the program, it
  -- ends and writes exactly the blocks that begin with the data, one behind the other, and returns
  -- the count of their bytes. The data lies in the first sector of a block, a sector is not empty
  -- and not larger than a block, and the fuel is more than the bytes of the input.
  pub extract-Saves :
      (fuel : ℕ) (block : List ℕ) (saved : ℕ) (w : W)
      → ((v : W) → ctrlbreak v ≡ false)
      → 0 < s.sector_size
      → s.sector_size ≤ s.block_size
      → s.offset + 4 ≤ s.sector_size
      → length (r.input w) < fuel
      → (w' : W) × (ys : List ℕ) × (extract console ctrlbreak s fuel block saved w
          ≡ done (w', saved + length ys))
        × (r.output w' ≡ r.output w ++ ys)
        × Saves s (r.input w) ys
  unfolding extract
  extract-Saves zero block saved w goes full le fits enough = absurd (omega arith)
  extract-Saves (suc fuel) block saved w goes full le fits enough =
      let (w1, e, i, o) = r.reads w s.sector_size in
      subst (Extracts w saved)
        (sym (
          ap
            (λ b.
              if b
              then done (w, saved)
              else after_sector console ctrlbreak s (extract console ctrlbreak s fuel) block saved
                  (console.read w s.sector_size))
            (goes w)
          ∙ ap (after_sector console ctrlbreak s (extract console ctrlbreak s fuel) block saved) e))
        (sector_Extracts (extract console ctrlbreak s fuel) block saved w w1 (full, le, fits) i o
          (λ block' saved' w' less.
            extract-Saves fuel block' saved' w' goes full le fits (omega arith)))
