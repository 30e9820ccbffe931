-- ===== src/Random/Draws.antt =====
-- A loop that draws until a test fails ends with a number that fails it.
use ltrdata.Prelude.{
  ℕ, zero, suc, ◌+◌, ◌<◌, ◌≡◌, ap, ◌∙◌, sym, inl, inr, Bool, false, done, arith, Bool-cases,
  if◌then◌else◌,
}
use ltrdata.Random.{draw}

pub draw_lem :
    (value : ℕ → ℕ) (bad : ℕ → Bool) (fuel n i : ℕ)
    → i < fuel
    → bad (value (n + i)) ≡ false
    → (m : ℕ) × (draw value bad fuel n ≡ done (value m, m + 1)) × (bad (value m) ≡ false)
unfolding draw
draw_lem value bad zero n i less good = absurd (omega arith)
draw_lem value bad (suc fuel) n zero less good =
    let e : n + 0 ≡ n = omega arith in
    let over = ap (λ k. bad (value k)) (sym e) ∙ good in
    (n, ap (λ b. if b then draw value bad fuel (n + 1) else done (value n, n + 1)) over, over)
draw_lem value bad (suc fuel) n (suc i) less good =
    let e : n + suc i ≡ n + 1 + i = omega arith in
    let (m, is, fails) =
      draw_lem value bad fuel (n + 1) i (omega arith) (ap (λ k. bad (value k)) (sym e) ∙ good) in
    elim (Bool-cases (bad (value n))) [
      | inl again ↦ (
        m,
        ap (λ b. if b then draw value bad fuel (n + 1) else done (value n, n + 1)) again ∙ is,
        fails,
      )
      | inr over ↦
          (n, ap (λ b. if b then draw value bad fuel (n + 1) else done (value n, n + 1)) over, over)
    ]
