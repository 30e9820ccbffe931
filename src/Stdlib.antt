-- ===== src/Stdlib.antt =====
-- What the programs use of the C library: decimal printing and `strtoul`. `unsigned long` has 32
-- bits, as on Windows. A string is the list of its characters before the NUL.
pub mod Decimal
pub mod Value
use ltrdata.Prelude.{
  ℕ, zero, suc, ◌+◌, ◌-◌, ◌*◌, ◌/◌, ◌%◌, Bool, true, false, ◌&&◌, ◌||◌, Option, none, some, List,
  [], ◌∷◌, ◌++◌, ◌==◌, ltb, leb, if◌then◌else◌,
}

print_digits : ℕ → ℕ → List ℕ
print_digits zero n = []
print_digits (suc fuel) n = elim (ltb n 10) [
  | true ↦ (b'0' + n) ∷ []
  | false ↦ print_digits fuel (n / 10) ++ (b'0' + n % 10) ∷ []
]

-- printf's `%u`.
unfoldable pub print_u : ℕ → List ℕ
unfolding print_digits
print_u n = print_digits (n + 1) n

abbrev is_space : ℕ → Bool
is_space c = c == b' ' || (leb 9 c && leb c 13)

skip_space : List ℕ → List ℕ
skip_space [] = []
skip_space (c ∷ cs) = if is_space c then skip_space cs else c ∷ cs

-- A digit's value, in any base up to 36.
abbrev digit_value : ℕ → Option ℕ
digit_value c =
    if leb b'0' c && leb c b'9'
    then some (c - b'0')
    else if leb b'a' c && leb c b'z'
    then some (c - b'a' + 10)
    else if leb b'A' c && leb c b'Z'
    then some (c - b'A' + 10)
    else none

parse_digits : ℕ → ℕ → List ℕ → ℕ
parse_digits base acc [] = acc
parse_digits base acc (c ∷ cs) = elim (digit_value c) [
  | none ↦ acc
  | some d ↦ let rest = parse_digits base (acc * base + d) cs in if ltb d base then rest else acc
]

abbrev ulong_max : ℕ
ulong_max = 0xffff_ffff

abbrev clamp_ulong : ℕ → ℕ
clamp_ulong n = if ltb ulong_max n then ulong_max else n

-- Base 0: the prefix decides between 16, 8 and 10.
parse_auto : List ℕ → ℕ
parse_auto (c ∷ d ∷ cs) =
    if c == b'0'
    then if d == b'x' || d == b'X' then parse_digits 16 0 cs else parse_digits 8 0 (d ∷ cs)
    else parse_digits 10 0 (c ∷ d ∷ cs)
parse_auto cs = parse_digits 10 0 cs

parse_signed : (List ℕ → ℕ) → List ℕ → ℕ
parse_signed parse [] = 0
parse_signed parse (c ∷ cs) =
    if c == b'-'
    then (ulong_max + 1 - clamp_ulong (parse cs)) % (ulong_max + 1)
    else if c == b'+'
    then clamp_ulong (parse cs)
    else clamp_ulong (parse (c ∷ cs))

-- strtoul(s, NULL, 0) and strtoul(s, NULL, 10).
unfoldable pub strtoul_auto : List ℕ → ℕ
unfolding skip_space parse_digits parse_auto parse_signed
strtoul_auto s = parse_signed parse_auto (skip_space s)

unfoldable pub strtoul_ten : List ℕ → ℕ
unfolding skip_space parse_digits parse_signed
strtoul_ten s = parse_signed (parse_digits 10 0) (skip_space s)
