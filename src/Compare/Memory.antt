-- ===== src/Compare/Memory.antt =====
-- `CompareMemory` of win32/fdf/chkfile.c compares the bytes of whole blocks.
use ltrdata.Prelude.{
  ℕ, zero, suc, ◌+◌, ◌-◌, ◌*◌, ◌≤◌, ◌<◌, ◌≡◌, sym, ap, ◌∙◌, inl, inr, Bool, true, false, List, [],
  ◌∷◌, arith, length, take, drop, get_or, length-drop, get_or-drop, ◌==◌, ==_iff, Bool-cases,
}
use native.Mathlib.Decide.{dec_lt}
use ltrdata.Compare.{same_bytes, compare_memory}

-- The first `n` bytes agree.
abbrev pub Agree : ℕ → List ℕ → List ℕ → Type 0
Agree n m₁ m₂ = (i : ℕ) → i < n → get_or m₁ i 0 ≡ get_or m₂ i 0

abbrev pub Tells : Bool → Type 0 → Type 0
Tells true P = P
Tells false P = ¬ P

Agree-cons :
    (n x y : ℕ) (m₁ m₂ : List ℕ) (b : Bool)
    → x ≡ y
    → Tells b (Agree n m₁ m₂)
    → Tells b (Agree (suc n) (x ∷ m₁) (y ∷ m₂))
Agree-cons n x y m₁ m₂ true e all = cons
  where
    cons : Agree (suc n) (x ∷ m₁) (y ∷ m₂)
    cons zero lt = e
    cons (suc i) lt = all i (omega arith)
Agree-cons n x y m₁ m₂ false e not_all = λ all. not_all (λ i lt. all (suc i) (omega arith))

same_bytes-Agree :
    (n : ℕ) (m₁ m₂ : List ℕ)
    → n ≤ length m₁
    → n ≤ length m₂
    → Tells (same_bytes (take n m₁) (take n m₂)) (Agree n m₁ m₂)
same_bytes-Agree zero m₁ m₂ h₁ h₂ = λ i lt. absurd (omega arith)
same_bytes-Agree (suc n) [] m₂ h₁ h₂ = absurd (omega arith)
same_bytes-Agree (suc n) (x ∷ m₁) [] h₁ h₂ = absurd (omega arith)
same_bytes-Agree (suc n) (x ∷ m₁) (y ∷ m₂) h₁ h₂ =
    let rest = same_bytes-Agree n m₁ m₂ (omega arith) (omega arith) in
    elim (Bool-cases (x == y)) [
      | inl e ↦ rw e (Agree-cons n x y m₁ m₂ _ ((==_iff x y).0 e) rest)
      | inr ne ↦ rw ne (λ all. cc (ne, (==_iff x y).1 (all 0 (omega arith))))
    ]

-- The first `m + n` bytes agree if the first `m` do, and the `n` behind those.
pub Agree-split :
    (m n : ℕ) (m₁ m₂ : List ℕ)
    → Agree m m₁ m₂
    → Agree n (drop m m₁) (drop m m₂)
    → Agree (m + n) m₁ m₂
Agree-split m n m₁ m₂ low high i lt = elim (dec_lt i m) [
  | yes p ↦ low i p
  | no p ↦
      let e : m + (i - m) ≡ i = omega arith in
      ap (λ k. get_or m₁ k 0) (sym e)
      ∙ sym (get_or-drop m m₁ (i - m) 0)
      ∙ high (i - m) (omega arith)
      ∙ get_or-drop m m₂ (i - m) 0
      ∙ ap (λ k. get_or m₂ k 0) e
]

pub Agree-rest : (m n : ℕ) (m₁ m₂ : List ℕ) → Agree (m + n) m₁ m₂ → Agree n (drop m m₁) (drop m m₂)
Agree-rest m n m₁ m₂ all i lt =
    get_or-drop m m₁ i 0 ∙ all (m + i) (omega arith) ∙ sym (get_or-drop m m₂ i 0)

-- `compare_memory` tells whether the first `8 * blocks` bytes of two buffers agree that have as many.
pub compare_memory-Agree :
    (blocks : ℕ) (m₁ m₂ : List ℕ)
    → 8 * blocks ≤ length m₁
    → 8 * blocks ≤ length m₂
    → Tells (compare_memory blocks m₁ m₂) (Agree (8 * blocks) m₁ m₂)
unfolding compare_memory
compare_memory-Agree zero m₁ m₂ h₁ h₂ = λ i lt. absurd (omega arith)
compare_memory-Agree (suc blocks) m₁ m₂ h₁ h₂ =
    let eight : 8 * suc blocks ≡ 8 + 8 * blocks = omega arith in
    let first = same_bytes-Agree 8 m₁ m₂ (omega arith) (omega arith) in
    let rest =
      compare_memory-Agree blocks (drop 8 m₁) (drop 8 m₂) (omega (arith, length-drop 8 m₁))
        (omega (arith, length-drop 8 m₂)) in
    elim (Bool-cases (same_bytes (take 8 m₁) (take 8 m₂))) [
      | inl e ↦ rw (compare_memory, e, eight) (both _ (rw e at first) rest)
      | inr e ↦ rw (compare_memory, e, eight) (λ all. (rw e at first) (λ i lt. all i (omega arith)))
    ]
  where
    both :
        (b : Bool)
        → Agree 8 m₁ m₂
        → Tells b (Agree (8 * blocks) (drop 8 m₁) (drop 8 m₂))
        → Tells b (Agree (8 + 8 * blocks) m₁ m₂)
    both true low high = Agree-split 8 (8 * blocks) m₁ m₂ low high
    both false low differ = λ all. differ (Agree-rest 8 (8 * blocks) m₁ m₂ all)
