-- ===== src/Personnr/Luhn.antt =====
-- The check figure of win32/c/personnr.c against the Luhn formula.

use ltrdata.Prelude.{
  ℕ, ◌+◌, ◌-◌, ◌*◌, ◌%◌, ◌<◌, ◌≡◌, ◌↔◌, refl, ap, ◌∙◌, Bool, true, false, List, [], ◌∷◌, ◌++◌,
  arith, length, get_or, All, map, take, ◌==◌, leb, ◌&&◌, if◌then◌else◌, ==_iff, done, trap, not,
  ◌||◌, every_below, every_below_sound, length-map, length-append, take-append, get_or-append_right,
}
use ltrdata.Stdlib.{print_u}
use ltrdata.Stdlib.Decimal.{print_u_last}
use ltrdata.Personnr.{
  figure, sum_figures, doubled, checksum_from, stores_third, check_figure, kind_of, personnr,
  Verdict, correct, should_be,
}

abbrev pub IsFigure : ℕ → Type 0
IsFigure d = d < 10

-- The sum of the two digits of twice a figure.
abbrev pub luhn_double : ℕ → ℕ
luhn_double d = if leb 10 (d * 2) then d * 2 - 9 else d * 2

-- The Luhn sum of figures from position `count` on: those at even positions count twice.
abbrev pub luhn_from : ℕ → List ℕ → ℕ
luhn_from count [] = 0
luhn_from count (d ∷ ds) = (if count % 2 == 1 then d else luhn_double d) + luhn_from (count + 1) ds

-- Whether a figure at an even position is at least five, so that its double has two digits.
abbrev pub reaches_five : ℕ → List ℕ → Bool
reaches_five count [] = false
reaches_five count (d ∷ ds) = (not (count % 2 == 1) && leb 5 d) || reaches_five (count + 1) ds

abbrev pub char : ℕ → ℕ
char d = b'0' + d

figure-char : (d : ℕ) → d < 10 → figure (char d) ≡ d
figure-char d h = (==_iff _ _).0 (every_below_sound (λ d. figure (char d) == d) 10 d table h)
  where
    table : every_below (λ d. figure (char d) == d) 10 ≡ true
    table = unfold every_below in refl

doubled-char : (d : ℕ) → d < 10 → sum_figures (doubled (char d)) ≡ luhn_double d
doubled-char d h =
    (==_iff _ _).0
      (every_below_sound (λ d. sum_figures (doubled (char d)) == luhn_double d) 10 d table h)
  where
    table : every_below (λ d. sum_figures (doubled (char d)) == luhn_double d) 10 ≡ true
    table = unfold every_below print_u in refl

length-doubled : (d : ℕ) → d < 10 → leb 2 (length (doubled (char d))) ≡ leb 5 d
length-doubled d h =
    same_of
      (every_below_sound (λ d. same (leb 2 (length (doubled (char d)))) (leb 5 d)) 10 d table h)
  where
    same : Bool → Bool → Bool
    same true b = b
    same false b = not b

    same_of : {a b : Bool} → same a b ≡ true → a ≡ b
    same_of {a} {b} e = ground arith

    table : every_below (λ d. same (leb 2 (length (doubled (char d)))) (leb 5 d)) 10 ≡ true
    table = unfold every_below print_u in refl

checksum_from-luhn :
    (count : ℕ) (ds : List ℕ)
    → All IsFigure ds
    → checksum_from count (map char ds) ≡ luhn_from count ds
unfolding checksum_from
checksum_from-luhn count [] h = refl
checksum_from-luhn count (d ∷ ds) (hd, hds) =
    rw (checksum_from, doubled-char d hd, figure-char d hd, checksum_from-luhn (count + 1) ds hds)

stores_third-reaches_five :
    (count : ℕ) (ds : List ℕ)
    → All IsFigure ds
    → stores_third count (map char ds) ≡ reaches_five count ds
unfolding stores_third
stores_third-reaches_five count [] h = refl
stores_third-reaches_five count (d ∷ ds) (hd, hds) =
    rw (stores_third, length-doubled d hd, stores_third-reaches_five (count + 1) ds hds)

check_figure_lem : (n : ℕ) → check_figure n ≡ (10 - n % 10) % 10
unfolding check_figure
check_figure_lem n =
    rw (check_figure, print_u_last n, figure-char (n % 10) (omega arith)) (ground arith)

module _ (valid_date : ℕ → ℕ → ℕ → Bool) (ds : List ℕ) (last : ℕ) (nine : length ds ≡ 9)
    (figures : All IsFigure ds) (last_figure : IsFigure last) where
  -- The line that was typed.
  abbrev pub line : List ℕ
  line = map char ds ++ char last ∷ []

  length-chars : length (map char ds) ≡ 9
  length-chars = length-map char ds ∙ nine

  take-line : take 9 line ≡ map char ds
  take-line = take-append (map char ds) (char last ∷ []) length-chars

  get_or-line : get_or line 9 0 ≡ char last
  get_or-line =
      get_or-append_right (map char ds) (char last ∷ []) 9 0 (omega (arith, length-chars))
      ∙ ap (λ k. get_or (char last ∷ []) (9 - k) 0) length-chars

  verdict : ℕ → Verdict
  verdict checkfig = if checkfig == last then correct else should_be checkfig

  runs :
      reaches_five 0 ds ≡ true
      → personnr valid_date line
        ≡ done (kind_of valid_date line, verdict ((10 - luhn_from 0 ds % 10) % 10))
  unfolding personnr verdict
  runs five =
      let long : leb 10 (length line) ≡ true = long_lem in
      rw (
        personnr,
        take-line,
        get_or-line,
        figure-char last last_figure,
        checksum_from-luhn 0 ds figures,
        check_figure_lem (luhn_from 0 ds),
        stores_third-reaches_five 0 ds figures,
        long,
        five,
      )
    where
      long_lem : leb 10 (length line) ≡ true
      long_lem =
          let b : length line ≡ 10 =
            omega (arith, length-append (map char ds) (char last ∷ []), length-chars) in
          ground arith

  -- For ten figures, with at least five at one of the positions that count twice, the verdict is
  -- "correct" exactly if the Luhn sum of all ten is a multiple of ten.
  pub personnr-luhn :
      reaches_five 0 ds ≡ true
      → (v : Verdict) × (personnr valid_date line ≡ done (kind_of valid_date line, v))
        × ((v ≡ correct) ↔ ((luhn_from 0 ds + last) % 10 ≡ 0))
  unfolding verdict
  personnr-luhn five =
      (verdict ((10 - luhn_from 0 ds % 10) % 10), runs five, (λ e. ground arith, λ e. ground arith))

  -- If all figures at those positions are below five, the third byte of `buf` is never stored, and
  -- the program reads it all the same.
  pub personnr-trap : reaches_five 0 ds ≡ false → personnr valid_date line ≡ trap
  unfolding personnr
  personnr-trap low =
      rw (personnr, take-line, stores_third-reaches_five 0 ds figures, low) (ground arith)
