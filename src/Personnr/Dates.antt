-- ===== src/Personnr/Dates.antt =====
-- How win32/c/personnr.c reads the date in a personal number: `strtoul` with base 0 takes a leading
-- zero for the octal prefix.
use ltrdata.Prelude.{ℕ, ◌≡◌, refl, Bool, false, List, [], ◌∷◌}
use ltrdata.Stdlib.{strtoul_auto}
use ltrdata.Personnr.{organisation, kind_of}

-- No date has month 0.
abbrev pub NoMonthZero : (ℕ → ℕ → ℕ → Bool) → Type 0
NoMonthZero valid_date = (year day : ℕ) → valid_date year 0 day ≡ false

octal_months : (strtoul_auto (b'0' ∷ b'8' ∷ []) ≡ 0) × (strtoul_auto (b'0' ∷ b'9' ∷ []) ≡ 0)
unfolding strtoul_auto
octal_months = (refl, refl)

-- The number of a person born in August (08) or September (09) is taken for an organisation's.
pub kind_of-organisation :
    (valid_date : ℕ → ℕ → ℕ → Bool)
    → NoMonthZero valid_date
    → (y₁ y₂ : ℕ) (rest : List ℕ)
    → (kind_of valid_date (y₁ ∷ y₂ ∷ b'0' ∷ b'8' ∷ rest) ≡ organisation)
      × (kind_of valid_date (y₁ ∷ y₂ ∷ b'0' ∷ b'9' ∷ rest) ≡ organisation)
unfolding kind_of
kind_of-organisation valid_date none_zero y₁ y₂ rest =
    (rw (kind_of, octal_months.0, none_zero _ _), rw (kind_of, octal_months.1, none_zero _ _))
