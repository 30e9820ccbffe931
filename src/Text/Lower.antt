-- ===== src/Text/Lower.antt =====
-- `strlwr` of posix/strlwr.c.
use ltrdata.Prelude.{
  ℕ, ◌≡◌, refl, ap, some, List, [], ◌∷◌, arith, map, All, length, length-map, leb, ◌&&◌, Bool,
  false,
}
use ltrdata.Text.{tolower, strlwr}

abbrev pub is_upper : ℕ → Bool
is_upper c = leb b'A' c && leb c b'Z'

map-tolower-lower : (s : List ℕ) → All (λ c. is_upper c ≡ false) (map tolower s)
map-tolower-lower [] = tt
map-tolower-lower (c ∷ cs) = (ground arith, map-tolower-lower cs)

tolower_twice : (c : ℕ) → tolower (tolower c) ≡ tolower c
tolower_twice c = ground arith

map-tolower_twice : (s : List ℕ) → map tolower (map tolower s) ≡ map tolower s
map-tolower_twice [] = refl
map-tolower_twice (c ∷ cs) = rw (tolower_twice c, map-tolower_twice cs)

-- `strlwr` returns a string of the same length without upper-case letters, and lowering that again
-- changes nothing.
pub strlwr-lower :
    (s : List ℕ)
    → (r : List ℕ) × (strlwr (some s) ≡ some r)
      × (length r ≡ length s)
      × All (λ c. is_upper c ≡ false) r
      × (strlwr (some r) ≡ some r)
unfolding strlwr
strlwr-lower s =
    (map tolower s, refl, length-map tolower s, map-tolower-lower s, ap some (map-tolower_twice s))
