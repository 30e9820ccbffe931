-- ===== src/Examples/Text.antt =====
-- The string helpers on concrete bytes.
use ltrdata.Prelude.{ℕ, ◌≡◌, refl, Option, some, List, [], ◌∷◌, done, arith, take, drop}
use ltrdata.Text.{read_at, matches_at, memstr, memwcs, strltrm, strrtrm, strtrm}
use ltrdata.Text.Search.{FindsFirst, searches-FindsFirst}
use ltrdata.Text.Trim.{IsTrimmed, trims-IsTrimmed}

abbrev banana : List ℕ
banana = b'b' ∷ b'a' ∷ b'n' ∷ b'a' ∷ b'n' ∷ b'a' ∷ []

searches-FindsFirst_example :
    (r : Option ℕ) × (memstr banana (b'a' ∷ b'n' ∷ []) 6 ≡ done r)
    × (memwcs banana (b'a' ∷ b'n' ∷ []) 6 ≡ done r)
    × FindsFirst banana (b'a' ∷ b'n' ∷ []) 0 6 r
searches-FindsFirst_example = searches-FindsFirst banana (b'a' ∷ b'n' ∷ []) 6 (omega arith)

memstr_run : memstr banana (b'a' ∷ b'n' ∷ []) 6 ≡ done (some 1)
unfolding memstr matches_at read_at
memstr_run = refl

abbrev padded : List ℕ
padded = b' ' ∷ b'a' ∷ b' ' ∷ b'b' ∷ b' ' ∷ b' ' ∷ []

trims-IsTrimmed_example :
    (a n : ℕ) × IsTrimmed padded a n
    × (strltrm (some padded) ≡ some (drop a padded))
    × (strrtrm (some padded) ≡ done (some (take n padded)))
    × (strtrm (some padded) ≡ done (some (drop a (take n padded))))
trims-IsTrimmed_example = trims-IsTrimmed padded 1 (omega arith, omega arith)

strtrm_run : strtrm (some padded) ≡ done (some (b'a' ∷ b' ' ∷ b'b' ∷ []))
unfolding strtrm read_at
strtrm_run = refl
