-- ===== src/Compare/Verdict.antt =====
-- What `CompareFiles` of win32/fdf/chkfile.c tells of two files that can be read.
use ltrdata.Prelude.{
  ℕ, zero, suc, ◌-◌, ◌*◌, ◌/◌, ◌≤◌, ◌<◌, ◌≡◌, ◌≢◌, ◌↔◌, refl, sym, ap, ◌∙◌, inl, inr, true, false,
  some, List, arith, Run, done, length, take, drop, length-take, length-drop, get_or-take, ◌==◌,
  ltb, ltb→lt, ==_iff, Bool-cases,
}
use Prim.Native.Nat.{min}
use native.Mathlib.Decide.{dec_lt}
use ltrdata.Compare.{
  stays, Status, equal, file1_longer, file2_longer, not_equal, File, compare_memory, Result, closed,
  compare_loop, compare_files,
}
use ltrdata.Compare.Memory.{Agree, Tells, compare_memory-Agree, Agree-split, Agree-rest}

-- A file on a disk: a read returns as much of what is left as the buffer holds.
pub record OnDisk {H : Type 0} (file : File H) (size : ℕ) : Type 0 where
  pub contents : H → List ℕ
  pub returns : (h : H) → (file.read h).1 ≡ some (take size (contents h))
  pub advances : (h : H) → contents (file.read h).0 ≡ drop size (contents h)

-- Two files of the same length whose whole 8-byte words agree.
abbrev pub SameWords : List ℕ → List ℕ → Type 0
SameWords c₁ c₂ = (length c₁ ≡ length c₂) × Agree (8 * (length c₁ / 8)) c₁ c₂

Agree-take : (n m : ℕ) (c₁ c₂ : List ℕ) → m ≤ n → Agree m (take n c₁) (take n c₂) ↔ Agree m c₁ c₂
Agree-take n m c₁ c₂ le = (
  λ a i lt. sym (get_or-take n c₁ i 0 (omega arith)) ∙ a i lt ∙ get_or-take n c₂ i 0 (omega arith),
  λ a i lt. get_or-take n c₁ i 0 (omega arith) ∙ a i lt ∙ sym (get_or-take n c₂ i 0 (omega arith)),
)

module _ (k : ℕ) (c₁ c₂ : List ℕ) where
  abbrev b₁ : List ℕ
  b₁ = take (8 * k) c₁

  abbrev b₂ : List ℕ
  b₂ = take (8 * k) c₂

  abbrev blocks : ℕ
  blocks = length b₁ / 8

  -- A buffer whose words differ tells that the files do.
  differ : ¬ Agree (8 * blocks) b₁ b₂ → ¬ SameWords c₁ c₂
  differ ne (len, all) = ne (
      (Agree-take (8 * k) (8 * blocks) c₁ c₂ (omega (arith, length-take (8 * k) c₁))).1
        (λ i lt. all i (omega (arith, length-take (8 * k) c₁))))

  -- A buffer whose words agree leaves the question to the rest of the files.
  agree :
      length b₁ ≡ length b₂
      → Agree (8 * blocks) b₁ b₂
      → SameWords (drop (8 * k) c₁) (drop (8 * k) c₂) ↔ SameWords c₁ c₂
  agree same all = elim (dec_lt (length c₁) (8 * k)) [
    | yes short ↦ (
      λ rest. (omega (arith, sizes), λ i lt. low i (omega (arith, sizes))),
      λ whole. (omega (arith, sizes), λ i lt. absurd (omega (arith, sizes))),
    )
    | no long ↦ (
      λ rest. (
        omega (arith, sizes, rest.0),
        λ i lt.
            Agree-split (8 * k) (8 * (length (drop (8 * k) c₁) / 8)) c₁ c₂
              (λ i lt. low i (omega (arith, sizes))) rest.1 i (omega (arith, sizes)),
      ),
      λ whole. (
        omega (arith, sizes, whole.0),
        Agree-rest (8 * k) (8 * (length (drop (8 * k) c₁) / 8)) c₁ c₂
            (λ i lt. whole.1 i (omega (arith, sizes))),
      ),
    )
  ]
    where
      sizes :
          (length b₁ ≡ min (8 * k) (length c₁))
          × (length b₂ ≡ min (8 * k) (length c₂))
          × (length (drop (8 * k) c₁) ≡ length c₁ - 8 * k)
          × (length (drop (8 * k) c₂) ≡ length c₂ - 8 * k)
      sizes = (
        length-take (8 * k) c₁,
        length-take (8 * k) c₂,
        length-drop (8 * k) c₁,
        length-drop (8 * k) c₂,
      )

      low : Agree (8 * blocks) c₁ c₂
      low = (Agree-take (8 * k) (8 * blocks) c₁ c₂ (omega (arith, sizes))).0 all

ltb-antisym : (a b : ℕ) → ltb a b ≡ false → ltb b a ≡ false → a ≡ b
ltb-antisym a b h₁ h₂ = ground arith

module _ {H : Type 0} {file₁ file₂ : File H} (k : ℕ) (positive : 0 < k) (d₁ : OnDisk file₁ (8 * k))
    (d₂ : OnDisk file₂ (8 * k)) where
  -- The loop ends with both handles closed, and says "equal" exactly if the whole words agree.
  abbrev pub Decides : Run Result → H → H → Type 0
  Decides r h₁ h₂ =
      (s : Status) × (r ≡ done (closed s))
      × ((s ≡ equal) ↔ SameWords (d₁.contents h₁) (d₂.contents h₂))

  compare_loop-Decides :
      (fuel : ℕ) (h₁ h₂ : H)
      → length (d₁.contents h₁) < fuel
      → Decides (compare_loop file₁ file₂ fuel h₁ h₂) h₁ h₂
  unfolding compare_loop
  compare_loop-Decides zero h₁ h₂ enough = absurd (omega arith)
  compare_loop-Decides (suc fuel) h₁ h₂ enough =
      elim (Bool-cases (ltb (length bytes₂) (length bytes₁))) [
        | inl longer ↦ (
          file1_longer,
          rw (compare_loop, d₁.returns h₁, d₂.returns h₂, longer),
          (λ e. cc, λ same. absurd (omega (arith, sizes, same.0, ltb→lt _ _ longer))),
        )
        | inr not_longer ↦ elim (Bool-cases (ltb (length bytes₁) (length bytes₂))) [
          | inl shorter ↦ (
            file2_longer,
            rw (compare_loop, d₁.returns h₁, d₂.returns h₂, not_longer, shorter),
            (λ e. cc, λ same. absurd (omega (arith, sizes, same.0, ltb→lt _ _ shorter))),
          )
          | inr not_shorter ↦
              same_length (compare_loop-Decides fuel next₁ next₂) not_longer not_shorter
                (ltb-antisym (length bytes₁) (length bytes₂) not_shorter not_longer)
        ]
      ]
    where
      bytes₁ : List ℕ
      bytes₁ = take (8 * k) (d₁.contents h₁)

      bytes₂ : List ℕ
      bytes₂ = take (8 * k) (d₂.contents h₂)

      sizes :
          (length bytes₁ ≡ min (8 * k) (length (d₁.contents h₁)))
          × (length bytes₂ ≡ min (8 * k) (length (d₂.contents h₂)))
      sizes = (length-take (8 * k) (d₁.contents h₁), length-take (8 * k) (d₂.contents h₂))

      next₁ : H
      next₁ = (file₁.read h₁).0

      next₂ : H
      next₂ = (file₂.read h₂).0

      further :
          (length (d₁.contents next₁) < fuel
            → Decides (compare_loop file₁ file₂ fuel next₁ next₂) next₁ next₂)
          → length bytes₁ ≡ length bytes₂
          → Agree (8 * (length bytes₁ / 8)) bytes₁ bytes₂
          → (length bytes₁ ≢ 0)
          → Decides (compare_loop file₁ file₂ fuel next₁ next₂) h₁ h₂
      further recur len all nonempty =
          let fewer : length (d₁.contents next₁) < fuel =
            omega
              (arith, ap length (d₁.advances h₁), length-drop (8 * k) (d₁.contents h₁), sizes) in
          let (s, e, tells) = recur fewer in
          let whole = agree k (d₁.contents h₁) (d₂.contents h₂) len all in
          (
            s,
            e,
            (
              λ eq. whole.0 (rw (d₁.advances h₁, d₂.advances h₂) at (tells.0 eq)),
              λ same. tells.1 (rw (d₁.advances h₁, d₂.advances h₂) (whole.1 same)),
            ),
          )

      same_length :
          (length (d₁.contents next₁) < fuel
            → Decides (compare_loop file₁ file₂ fuel next₁ next₂) next₁ next₂)
          → ltb (length bytes₂) (length bytes₁) ≡ false
          → ltb (length bytes₁) (length bytes₂) ≡ false
          → length bytes₁ ≡ length bytes₂
          → Decides (compare_loop file₁ file₂ (suc fuel) h₁ h₂) h₁ h₂
      same_length recur not_longer not_shorter len = elim (Bool-cases (length bytes₁ == 0)) [
        | inl empty ↦ (
          equal,
          rw (compare_loop, d₁.returns h₁, d₂.returns h₂, not_longer, not_shorter, empty),
          (
            λ e. (
              omega (arith, sizes, len, (==_iff (length bytes₁) 0).0 empty),
              λ i lt. absurd (omega (arith, sizes, len, (==_iff (length bytes₁) 0).0 empty)),
            ),
            λ same. refl,
          ),
        )
        | inr nonempty ↦ elim (Bool-cases (compare_memory (length bytes₁ / 8) bytes₁ bytes₂)) [
          | inl e ↦
              rw (compare_loop, d₁.returns h₁, d₂.returns h₂, not_longer, not_shorter, nonempty, e)
                (further recur len (rw e at told)
                  (λ z. cc (nonempty, (==_iff (length bytes₁) 0).1 z)))
          | inr e ↦ (
            not_equal,
            rw (compare_loop, d₁.returns h₁, d₂.returns h₂, not_longer, not_shorter, nonempty, e),
            (
              λ x. cc,
              λ same. absurd (differ k (d₁.contents h₁) (d₂.contents h₂) (rw e at told) same),
            ),
          )
        ]
      ]
        where
          told :
              Tells
                (compare_memory (length bytes₁ / 8) bytes₁ bytes₂)
                (Agree (8 * (length bytes₁ / 8)) bytes₁ bytes₂)
          told =
              compare_memory-Agree (length bytes₁ / 8) bytes₁ bytes₂ (omega arith)
                (omega (arith, len))

  -- Of two files on a disk that open and move to their start position, read in buffers of a positive
  -- multiple of eight bytes, `compare_files` closes both again and says "equal" exactly if they have
  -- the same length from there on and agree in each whole 8-byte word; fuel above the length of the
  -- first file is enough.
  pub compare_files-Decides :
      (fuel skip_size : ℕ)
      → (file₁.opens ≡ true) × (file₂.opens ≡ true)
      → (stays skip_size file₁ ≡ false) × (stays skip_size file₂ ≡ false)
      → length (d₁.contents file₁.start) < fuel
      → Decides (compare_files file₁ file₂ fuel skip_size) file₁.start file₂.start
  unfolding compare_files compare_loop
  compare_files-Decides fuel skip_size opens moves enough =
      rw (compare_files, opens.0, opens.1, moves.0, moves.1)
        (compare_loop-Decides fuel file₁.start file₂.start enough)
