-- ===== src/Strip/Convert.antt =====
-- `convert` of win32/c/stripcr.c, for every callback that keeps a contract.
use mathlib.Core.List.{append-nil, append_assoc}
use ltrdata.Prelude.{
  ℕ, zero, suc, ◌+◌, ◌-◌, ◌≤◌, ◌<◌, ◌≡◌, refl, sym, ap, ◌∙◌, inl, inr, Bool, true, Option, none,
  some, List, [], ◌∷◌, ◌++◌, arith, ◌==◌, Bool-cases,
}
use ltrdata.Strip.Slices.{slice, slice-suc}
use ltrdata.Strip.{convert_loop, convert, strip}

abbrev IsSome : Option ℕ → Type 0
IsSome none = ⊥
IsSome (some b) = Unit

-- The contract of a callback for a buffer of `size` bytes that held `orig`.
-- `Holds s e`: the bytes from `e` on are still the original ones; `Sent s`: it was called.
pub record Sender {S : Type 0} (read : S → ℕ → ℕ) (send : S → ℕ → ℕ → S × Bool) (orig : ℕ → ℕ)
    (size : ℕ) : Type 1 where
  pub out : S → List ℕ
  pub Holds : S → ℕ → Type 0
  pub Sent : S → Type 0
  pub weaken : (s : S) (e e' : ℕ) → e ≤ e' → Holds s e → Holds s e'
  pub reads : (s : S) (e j : ℕ) → Holds s e → e ≤ j → j < size → read s j ≡ orig j
  pub sends :
      (s : S) (e n : ℕ)
      → Holds s e
      → e + n ≤ size
      → (s' : S) × (send s e n ≡ (s', true))
        × Holds s' (e + n)
        × Sent s'
        × (out s' ≡ out s ++ slice orig e n)

module _ {S : Type 0} {read : S → ℕ → ℕ} {send : S → ℕ → ℕ → S × Bool} {orig : ℕ → ℕ} {size : ℕ}
    (c : Sender read send orig size) where
  -- A run that succeeds, with `added` written by at least one call.
  abbrev pub Writes : S × Bool → S → List ℕ → Type 0
  Writes r s added =
      (s' : S) × (r ≡ (s', true)) × c.Holds s' size × c.Sent s' × (c.out s' ≡ c.out s ++ added)

  Writes-step :
      (s s' : S) (r : S × Bool) (first rest : List ℕ)
      → c.out s' ≡ c.out s ++ first
      → Writes r s' rest
      → Writes r s (first ++ rest)
  Writes-step s s' r first rest e (t, run, holds, sent, out_eq) =
      (t, run, holds, sent, out_eq ∙ rw e (append_assoc (c.out s) first rest))

  regroup :
      (e n ptr left : ℕ)
      → e + n ≡ ptr
      → slice orig e (suc n) ++ strip (slice orig (ptr + 1) left)
        ≡ slice orig e n ++ (orig ptr ∷ strip (slice orig (ptr + 1) left))
  regroup e n ptr left ep =
      ap (λ l. l ++ strip (slice orig (ptr + 1) left)) (slice-suc orig e n)
      ∙ rw ep (append_assoc (slice orig e n) (orig ptr ∷ []) (strip (slice orig (ptr + 1) left)))

  -- `convert_loop` with a run of `n` bytes pending, and between two runs.
  mutual
    unfolding convert_loop

    pending_loop-Writes :
        (left e n ptr : ℕ) (b : Option ℕ) (s : S)
        → e + n ≡ ptr
        → ptr + left ≡ size
        → c.Holds s e
        → Writes
            (convert_loop read send left ptr b (some e) s)
            s
            (slice orig e n ++ strip (slice orig ptr left))
    pending_loop-Writes zero e n ptr b s ep total holds =
        let d : ptr - e ≡ n = omega arith in
        let (s', run, holds', sent, out_eq) = c.sends s e n holds (omega arith) in
        let at_end : e + n ≡ size = omega arith in
        rw (d, append-nil) (s', run, rw at_end at holds', sent, out_eq)
    pending_loop-Writes (suc left) e n ptr b s ep total holds =
        let same : read s ptr ≡ orig ptr = c.reads s e ptr holds (omega arith) (omega arith) in
        let d : ptr - e ≡ n = omega arith in
        elim (Bool-cases (orig ptr == b'\r')) [
          | inl cr ↦
              let (s', run, holds', sent, out_eq) = c.sends s e n holds (omega arith) in
              rw (convert_loop, same, cr, d, run)
                (Writes-step s s' _ (slice orig e n) (strip (slice orig (ptr + 1) left)) out_eq (
                  between_loop-Writes left (ptr + 1) (some ptr) s' tt sent (omega arith)
                    (c.weaken s' (e + n) (ptr + 1) (omega arith) holds')))
          | inr other ↦
              rw (convert_loop, same, other)
                (rw (regroup e n ptr left ep) at (
                  pending_loop-Writes left e (suc n) (ptr + 1) b s (omega arith) (omega arith)
                    holds))
        ]

    between_loop-Writes :
        (left ptr : ℕ) (b : Option ℕ) (s : S)
        → IsSome b
        → c.Sent s
        → ptr + left ≡ size
        → c.Holds s ptr
        → Writes (convert_loop read send left ptr b none s) s (strip (slice orig ptr left))
    between_loop-Writes zero ptr b s some_b sent total holds =
        let at_end : ptr ≡ size = omega arith in
        (s, refl, rw at_end at holds, sent, sym (append-nil (c.out s)))
    between_loop-Writes (suc left) ptr none s some_b sent total holds = absurd some_b
    between_loop-Writes (suc left) ptr (some b) s some_b sent total holds =
        let same : read s ptr ≡ orig ptr = c.reads s ptr ptr holds (omega arith) (omega arith) in
        elim (Bool-cases (orig ptr == b'\r')) [
          | inl cr ↦
              rw (same, cr)
                (between_loop-Writes left (ptr + 1) (some b) s tt sent (omega arith)
                  (c.weaken s ptr (ptr + 1) (omega arith) holds))
          | inr other ↦
              rw (same, other)
                (pending_loop-Writes left ptr 1 (ptr + 1) (some b) s refl (omega arith) holds)
        ]

  -- With a callback that keeps its contract, `convert` succeeds and hands over the buffer without
  -- its carriage returns.
  pub convert-Writes :
      (s : S) → c.Holds s 0 → Writes (convert read send size s) s (strip (slice orig 0 size))
  unfolding convert
  convert-Writes s holds = pending_loop-Writes size 0 0 0 none s refl (omega arith) holds
