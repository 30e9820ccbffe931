-- ===== src/Filters/Spell/Laws.antt =====
-- The text that win32/c/aaofiltr.c writes for the blocks that it reads, from a table of the letters.
use mathlib.Core.List.{append-nil, append_assoc}
use ltrdata.Prelude.{
  ℕ, zero, suc, ◌-◌, ◌<◌, ◌≡◌, refl, sym, ap, ◌∙◌, inl, inr, Bool, true, false, Option, none, some,
  List, [], ◌∷◌, ◌++◌, arith, done, length, take, drop, length-take, length-drop, take-append-drop,
  get_or, ◌==◌, if◌then◌else◌, joined, ltb, ltb-zero, ltb→lt, Bool-cases, ==_iff,
}
use ltrdata.Prelude.Cut.{Cut, Cut-cons, no_elements}
use ltrdata.Filters.Console.{Console, Whole, after_read-cons, after_read-nil}
use ltrdata.Filters.Spell.{request, c_string, spell, write_spelled, spell_out}

-- The code of a letter in code page 850, and its spelling in lower case; and the same for capitals,
-- with the second letter still in lower case.
abbrev pub small_letters : List (ℕ × ℕ × ℕ)
small_letters = (0x86, b'a', b'a') ∷ (0x84, b'a', b'e') ∷ (0x94, b'o', b'e') ∷ []

abbrev pub capitals : List (ℕ × ℕ × ℕ)
capitals = (0x8f, b'A', b'a') ∷ (0x8e, b'A', b'e') ∷ (0x99, b'O', b'e') ∷ []

abbrev pub find_letter : ℕ → List (ℕ × ℕ × ℕ) → Option (ℕ × ℕ)
find_letter c [] = none
find_letter c ((code, x, y) ∷ rest) = if c == code then some (x, y) else find_letter c rest

-- ASCII letters in lower case.
abbrev pub upper : ℕ → ℕ
upper c = c - 32

module _ (is_lower : ℕ → Bool) where
  -- A letter before a lower case one, or not: a capital's spelling is all in capitals then.
  abbrev pub spelling : ℕ → (before_lower : Bool) → List ℕ
  spelling c before_lower = elim (find_letter c small_letters) [
    | some letters ↦ letters.0 ∷ letters.1 ∷ []
    | none ↦ elim (find_letter c capitals) [
      | some letters ↦ letters.0 ∷ (if before_lower then letters.1 else upper letters.1) ∷ []
      | none ↦ c ∷ []
    ]
  ]

  -- The character that follows, if there is one, is in lower case.
  abbrev pub lower_follows : List ℕ → Bool
  lower_follows [] = false
  lower_follows (c ∷ cs) = is_lower c

  -- A block spelled out, up to a NUL.
  abbrev pub respelled : List ℕ → List ℕ
  respelled [] = []
  respelled (c ∷ cs) = if c == 0 then [] else spelling c (lower_follows cs) ++ respelled cs

  abbrev pub respelled_all : List (List ℕ) → List ℕ
  respelled_all [] = []
  respelled_all (b ∷ bs) = respelled b ++ respelled_all bs

  spell-spelling : (c next : ℕ) → spell is_lower c next ≡ spelling c (is_lower next)
  unfolding spell
  spell-spelling c next = ground arith

  -- What follows in the buffer is the same up to the NUL, which is not in lower case.
  next-lower_follows :
      is_lower 0 ≡ false → (cs : List ℕ) → is_lower (get_or (c_string cs) 0 0) ≡ lower_follows cs
  next-lower_follows nul [] = nul
  next-lower_follows nul (c ∷ cs) = elim (Bool-cases (c == 0)) [
    | inl ends ↦ let nothing : c ≡ 0 = (==_iff c 0).0 ends in rw ends (sym (ap is_lower nothing))
    | inr goes_on ↦ rw goes_on refl
  ]

module _ (is_lower : ℕ → Bool) (nul : is_lower 0 ≡ false) {W : Type 0} {console : Console W}
    (r : Whole console) where
  -- What is written for a block.
  write_spelled_lem :
      (bs : List ℕ) (w : W)
      → (r.input (write_spelled is_lower console (c_string bs) w) ≡ r.input w)
        × (r.output (write_spelled is_lower console (c_string bs) w)
            ≡ r.output w ++ respelled is_lower bs)
  unfolding write_spelled
  write_spelled_lem [] w = (refl, sym (append-nil (r.output w)))
  write_spelled_lem (c ∷ cs) w = elim (Bool-cases (c == 0)) [
    | inl ends ↦ rw ends (refl, sym (append-nil (r.output w)))
    | inr goes_on ↦
        let next : ℕ = get_or (c_string cs) 0 0 in
        let text : List ℕ = spelling is_lower c (lower_follows is_lower cs) in
        let same : spell is_lower c next ≡ text =
          spell-spelling is_lower c next
          ∙ ap (spelling is_lower c) (next-lower_follows is_lower nul cs) in
        let (w₁, write, kept, grown) = r.writes w text in
        let (input, output) = write_spelled_lem cs w₁ in
        rw (goes_on, write_spelled, same, write)
          (
            input ∙ kept,
            output
                ∙ ap (λ l. l ++ respelled is_lower cs) grown
                ∙ append_assoc (r.output w) text (respelled is_lower cs),
          )
  ]

  round_lem :
      (fuel : ℕ) (w w₁ : W) (bytes : List ℕ)
      → console.read w request ≡ (w₁, some bytes)
      → ltb 0 (length bytes) ≡ true
      → spell_out is_lower console (suc fuel) w
        ≡ spell_out is_lower console fuel (write_spelled is_lower console (c_string bytes) w₁)
  unfolding spell_out
  round_lem fuel w w₁ [] read more = absurd (ground arith)
  round_lem fuel w w₁ (c ∷ cs) read more = rw (spell_out, read, after_read-cons)

  end_lem :
      (fuel : ℕ) (w w₁ : W) (bytes : List ℕ)
      → console.read w request ≡ (w₁, some bytes)
      → ltb 0 (length bytes) ≡ false
      → spell_out is_lower console (suc fuel) w ≡ done (w₁, 0)
  unfolding spell_out
  end_lem fuel w w₁ [] read none_left = rw (spell_out, read, after_read-nil)
  end_lem fuel w w₁ (c ∷ cs) read none_left = absurd (ground arith)

  -- If NUL is no lower case letter, on a console that never fails and reads as much as there is,
  -- with fuel for one round more than there are bytes, the filter ends with status 0 when the whole
  -- input is read, and has written each block of the input with its letters spelled out by the
  -- table: a capital's second letter is in lower case exactly before a lower case letter of the
  -- block, and nothing of a block is written from a NUL on. All blocks but the last have 260 bytes.
  pub spell_out-output :
      (fuel : ℕ) (w : W)
      → length (r.input w) < fuel
      → (w' : W) × (blocks : List (List ℕ)) × (spell_out is_lower console fuel w ≡ done (w', 0))
        × (r.input w' ≡ [])
        × (joined blocks ≡ r.input w)
        × Cut request blocks
        × (r.output w' ≡ r.output w ++ respelled_all is_lower blocks)
  unfolding spell_out
  spell_out-output zero w h = absurd (omega arith)
  spell_out-output (suc fuel) w h =
      let (w₁, read, rest, same) = r.reads w request in
      let bytes : List ℕ = take request (r.input w) in
      let size = length-take request (r.input w) in
      elim (Bool-cases (ltb 0 (length bytes))) [
        | inl more ↦
            let (kept, grown) = write_spelled_lem bytes w₁ in
            let w₂ : W = write_spelled is_lower console (c_string bytes) w₁ in
            let some_bytes : 0 < length bytes = ltb→lt _ _ more in
            let left = ap length (kept ∙ rest) ∙ length-drop request (r.input w) in
            let (w', blocks, run, all_read, join, cut, out) =
              spell_out-output fuel w₂ (omega (arith, left, size)) in
            (
              w',
              bytes ∷ blocks,
              round_lem fuel w w₁ bytes read more ∙ run,
              all_read,
              ap (λ l. bytes ++ l) (join ∙ kept ∙ rest) ∙ take-append-drop request (r.input w),
              Cut-cons request (r.input w) blocks some_bytes (join ∙ kept ∙ rest) cut,
              out
                  ∙ ap (λ l. l ++ respelled_all is_lower blocks)
                      (grown ∙ ap (λ l. l ++ respelled is_lower bytes) same)
                  ∙ append_assoc (r.output w) (respelled is_lower bytes)
                      (respelled_all is_lower blocks),
            )
        | inr nothing ↦
            let empty : length (r.input w) ≡ 0 =
              omega (arith, size, ltb-zero (length bytes) nothing) in
            let all_read : r.input w ≡ [] = no_elements (r.input w) empty in
            (
              w₁,
              [],
              end_lem fuel w w₁ bytes read nothing,
              rest ∙ ap (drop request) all_read,
              sym all_read,
              tt,
              same ∙ sym (append-nil (r.output w)),
            )
      ]
