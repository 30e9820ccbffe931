-- ===== src/Text/Search.antt =====
-- `memstr` and `memwcs` find the first occurrence.
use ltrdata.Prelude.{
  ℕ, zero, suc, ◌+◌, ◌-◌, ◌≤◌, ◌<◌, ◌≡◌, refl, inl, inr, Bool, true, false, Option, none, some,
  List, [], ◌∷◌, arith, done, ◌>>=◌, length, get_elem?, get_or, ◌==◌, ltb, ==_iff, Bool-cases,
}
use native.Mathlib.Decide.{ℕ_discrete}
use ltrdata.Text.{read_at, matches_at, search_loop, memstr, memwcs}

-- `fnd` stands in `mem` at `i`.
abbrev pub OccursAt : List ℕ → List ℕ → ℕ → Type 0
OccursAt mem [] i = Unit
OccursAt mem (c ∷ cs) i = (get_or mem i 0 ≡ c) × OccursAt mem cs (i + 1)

get_elem?-eq-get_or : (xs : List ℕ) (i : ℕ) → i < length xs → get_elem? xs i ≡ some (get_or xs i 0)
get_elem?-eq-get_or [] i h = absurd (omega arith)
get_elem?-eq-get_or (x ∷ xs) zero h = refl
get_elem?-eq-get_or (x ∷ xs) (suc i) h = get_elem?-eq-get_or xs i (omega arith)

pub read_at-done : (mem : List ℕ) (j : ℕ) → j < length mem → read_at mem j ≡ done (get_or mem j 0)
unfolding read_at
read_at-done mem j h = rw (read_at, get_elem?-eq-get_or mem j h)

abbrev Decides : List ℕ → List ℕ → ℕ → Bool → Type 0
Decides mem fnd i true = OccursAt mem fnd i
Decides mem fnd i false = ¬ OccursAt mem fnd i

matches_at-Decides :
    (mem fnd : List ℕ) (j : ℕ)
    → j + length fnd ≤ length mem
    → (b : Bool) × (matches_at mem fnd j ≡ done b) × Decides mem fnd j b
unfolding matches_at
matches_at-Decides mem [] j h = (true, refl, tt)
matches_at-Decides mem (c ∷ cs) j h =
    let (b, run, decides) = matches_at-Decides mem cs (j + 1) (omega arith) in
    let here : read_at mem j ≡ done (get_or mem j 0) = read_at-done mem j (omega arith) in
    elim (Bool-cases (get_or mem j 0 == c)) [
      | inl same ↦ (b, rw (matches_at, here, ◌>>=◌, same) run, both b ((==_iff _ _).0 same) decides)
      | inr other ↦
          (false, rw (matches_at, here, ◌>>=◌, other), λ o. cc (other, (==_iff _ _).1 o.0))
    ]
  where
    both : (b : Bool) → get_or mem j 0 ≡ c → Decides mem cs (j + 1) b → Decides mem (c ∷ cs) j b
    both true e d = (e, d)
    both false e d = λ o. d o.1

-- What a search tells: the first occurrence at or after `lo` that ends within `max`, or none.
abbrev pub FindsFirst : List ℕ → List ℕ → (lo max : ℕ) → Option ℕ → Type 0
FindsFirst mem fnd lo max (some i) =
    (lo ≤ i)
    × (i + length fnd ≤ max)
    × OccursAt mem fnd i
    × ((j : ℕ) → lo ≤ j → j < i → ¬ OccursAt mem fnd j)
FindsFirst mem fnd lo max none = (j : ℕ) → lo ≤ j → j + length fnd ≤ max → ¬ OccursAt mem fnd j

FindsFirst-next :
    (mem fnd : List ℕ) (lo max : ℕ) (r : Option ℕ)
    → ¬ OccursAt mem fnd lo
    → FindsFirst mem fnd (lo + 1) max r
    → FindsFirst mem fnd lo max r
FindsFirst-next mem fnd lo max (some i) ne (le, fits, occurs, least) =
    (omega arith, fits, occurs, λ j lj ji o. earlier j lj ji o)
  where
    earlier : (j : ℕ) → lo ≤ j → j < i → ¬ OccursAt mem fnd j
    earlier j lj ji o = elim (ℕ_discrete j lo) [
      | yes e ↦ ne (rw e at o)
      | no e ↦ least j (omega arith) ji o
    ]
FindsFirst-next mem fnd lo max none ne h = λ j lj fits o. elim (ℕ_discrete j lo) [
  | yes e ↦ ne (rw e at o)
  | no e ↦ h j (omega arith) fits o
]

abbrev Found : List ℕ → List ℕ → (max left lo : ℕ) → Type 0
Found mem fnd max left lo =
    (r : Option ℕ) × (search_loop mem fnd left lo ≡ done r) × FindsFirst mem fnd lo max r

search_loop-FindsFirst :
    (mem fnd : List ℕ) (max left lo : ℕ)
    → max ≤ length mem
    → lo + left + length fnd ≡ max + 1
    → Found mem fnd max left lo
unfolding search_loop
search_loop-FindsFirst mem fnd max zero lo fits e =
    (none, refl, λ j lj room o. absurd (omega arith))
search_loop-FindsFirst mem fnd max (suc left) lo fits e =
    let (b, run, decides) = matches_at-Decides mem fnd lo (omega arith) in
    let (r, rest, first) = search_loop-FindsFirst mem fnd max left (lo + 1) fits (omega arith) in
    (elim b
        as (λ b.
          matches_at mem fnd lo ≡ done b → Decides mem fnd lo b → Found mem fnd max (suc left) lo) [
            | true ↦ λ e' o. (
              some lo,
              rw (search_loop, e', ◌>>=◌),
              (omega arith, omega arith, o, λ j lj ji. absurd (omega arith)),
            )
            | false ↦ λ e' ne.
                (r, rw (search_loop, e', ◌>>=◌) rest, FindsFirst-next mem fnd lo max r ne first)
          ])
      run decides

-- If `max` characters of the memory can be read, `memstr` and `memwcs` read no others and both
-- return the first place within them where `fnd` stands, and NULL exactly if there is none.
pub searches-FindsFirst :
    (mem fnd : List ℕ) (max : ℕ)
    → max ≤ length mem
    → (r : Option ℕ) × (memstr mem fnd max ≡ done r)
      × (memwcs mem fnd max ≡ done r)
      × FindsFirst mem fnd 0 max r
unfolding memstr memwcs
searches-FindsFirst mem fnd max fits = elim (Bool-cases (ltb max (length fnd))) [
  | inl long ↦ (none, rw (memstr, long), rw (memwcs, long), λ j lj room o. absurd (ground arith))
  | inr short ↦
      let (r, run, first) =
        search_loop-FindsFirst mem fnd max (max - length fnd + 1) 0 fits (ground arith) in
      (r, rw (memstr, short) run, rw (memwcs, short) run, first)
]
