-- ===== src/Split/Held.antt =====
-- What the files that win32/c/fsplit32.c numbers hold.
use ltrdata.Prelude.{
  ℕ, ◌+◌, ◌<◌, ◌≤◌, ◌≡◌, ◌≢◌, refl, sym, ap, ◌∙◌, List, [], ◌∷◌, ◌++◌, arith, length, drop,
}
use ltrdata.Stdlib.{print_u}
use ltrdata.Stdlib.Value.{value, value-print_u}
use ltrdata.Split.{piece_name}

-- The files from number `n + 1` on hold the pieces. What a longer file held behind is still there.
abbrev pub Hold : List ℕ → ℕ → List (List ℕ) → (before after : List ℕ → List ℕ) → Type 0
Hold template n [] before after = Unit
Hold template n (p ∷ ps) before after =
    (after (piece_name template (n + 1))
      ≡ p ++ drop (length p) (before (piece_name template (n + 1))))
    × Hold template (n + 1) ps before after

-- The files of all other names are as they were.
abbrev pub Others : List ℕ → ℕ → List (List ℕ) → (before after : List ℕ → List ℕ) → Type 0
Others template n ps before after =
    (name : List ℕ)
    → ((i : ℕ) → n < i → i ≤ n + length ps → name ≢ piece_name template i)
    → after name ≡ before name

after_template : List ℕ → List ℕ → List ℕ
after_template template [] = []
after_template [] (c ∷ name) = name
after_template (t ∷ template) (c ∷ name) = after_template template name

after_template-append :
    (template : List ℕ) (c : ℕ) (cs : List ℕ) → after_template template (template ++ c ∷ cs) ≡ cs
unfolding after_template
after_template-append [] c cs = refl
after_template-append (t ∷ template) c cs = after_template-append template c cs

number-piece_name :
    (template : List ℕ) (n : ℕ) → value 0 (after_template template (piece_name template n)) ≡ n
unfolding piece_name
number-piece_name template n =
    ap (value 0) (after_template-append template b'.' (print_u n)) ∙ value-print_u n

-- Pieces of different numbers have different names.
piece_name-other :
    (template : List ℕ) (n i : ℕ) → n < i → piece_name template n ≢ piece_name template i
piece_name-other template n i less same =
    let e : n ≡ i =
      sym (number-piece_name template n)
      ∙ ap (λ name. value 0 (after_template template name)) same
      ∙ number-piece_name template i in
    absurd (omega arith)

Hold-before :
    (template : List ℕ) (n : ℕ) (ps : List (List ℕ)) (before before' after : List ℕ → List ℕ)
    → ((i : ℕ) → n < i → before' (piece_name template i) ≡ before (piece_name template i))
    → Hold template n ps before' after
    → Hold template n ps before after
Hold-before template n [] before before' after same hold = tt
Hold-before template n (p ∷ ps) before before' after same (first, hold) = (
  first ∙ ap (λ l. p ++ drop (length p) l) (same (n + 1) (omega arith)),
  Hold-before template (n + 1) ps before before' after (λ i less. same i (omega arith)) hold,
)

-- A first piece, written from `before` to `between`, and the pieces behind it.
pub Hold-cons :
    (template : List ℕ) (n : ℕ) (p : List ℕ) (ps : List (List ℕ))
    (before between after : List ℕ → List ℕ)
    → between (piece_name template (n + 1))
      ≡ p ++ drop (length p) (before (piece_name template (n + 1)))
    → ((other : List ℕ) → other ≢ piece_name template (n + 1) → between other ≡ before other)
    → Hold template (n + 1) ps between after × Others template (n + 1) ps between after
    → Hold template n (p ∷ ps) before after × Others template n (p ∷ ps) before after
Hold-cons template n p ps before between after first same (hold, others) = (
  (
    others (piece_name template (n + 1)) (λ i less le. piece_name-other template (n + 1) i less)
        ∙ first,
    Hold-before template (n + 1) ps before between after
        (λ i less.
          same (piece_name template i) (λ e. piece_name-other template (n + 1) i less (sym e)))
        hold,
  ),
  λ name free.
      others name (λ i less le. free i (omega arith) (omega arith))
      ∙ same name (free (n + 1) (omega arith) (omega arith)),
)
