-- ===== src/Prelude/Cut.antt =====
-- Lists cut into blocks of one size, the last of which may be shorter.

use ltrdata.Prelude.{
  ℕ, ◌<◌, ◌≤◌, ◌≡◌, refl, List, [], ◌∷◌, arith, length, take, drop, length-take, length-drop,
  length-append, joined, ap,
}

-- All blocks but the last have `size` elements, and that has at least one and at most `size`.
abbrev pub Cut : ℕ → List (List ℕ) → Type 0
Cut size [] = Unit
Cut size (p ∷ []) = (0 < length p) × (length p ≤ size)
Cut size (p ∷ q ∷ ps) = (length p ≡ size) × Cut size (q ∷ ps)

Cut-length :
    (size : ℕ) (p : List ℕ) (ps : List (List ℕ)) → 0 < size → Cut size (p ∷ ps) → 0 < length p
Cut-length size p [] positive cut = cut.0
Cut-length size p (q ∷ ps) positive cut = omega (arith, cut.0)

-- A first block is put before the blocks of the rest.
pub Cut-cons :
    (size : ℕ) (bytes : List ℕ) (ps : List (List ℕ))
    → 0 < length (take size bytes)
    → joined ps ≡ drop size bytes
    → Cut size ps
    → Cut size (take size bytes ∷ ps)
Cut-cons size bytes [] some_bytes rest cut = (some_bytes, omega (arith, length-take size bytes))
Cut-cons size bytes (p ∷ ps) some_bytes rest cut =
    let positive : 0 < size = omega (arith, length-take size bytes) in
    (
      omega (
        arith,
        length-take size bytes,
        length-drop size bytes,
        ap length rest,
        length-append p (joined ps),
        Cut-length size p ps positive cut,
      ),
      cut,
    )

pub no_elements : (bytes : List ℕ) → length bytes ≡ 0 → bytes ≡ []
no_elements [] e = refl
no_elements (c ∷ cs) e = absurd (omega arith)
