-- ===== src/Compare.antt =====
-- win32/fdf/chkfile.c: compares two files, buffer by buffer.
-- The Windows calls are not part of the repository: `File` tells of each file whether it can be
-- opened and moved to its start position, and gives what each `ReadFile` of one buffer returns.
pub mod Memory
pub mod Verdict
pub mod Checksum
use ltrdata.Prelude.{
  ℕ, zero, suc, ◌+◌, ◌-◌, ◌*◌, ◌/◌, Bool, true, false, ◌&&◌, Option, none, some, List, [], ◌∷◌, Run,
  done, spin, length, take, drop, ◌==◌, ltb, if◌then◌else◌,
}

-- FILE_COMPARE_STATUS
pub data Status : Type 0 where
  equal file1_failed file2_failed file1_longer file2_longer not_equal : Status

abbrev pub buffer_size : ℕ
buffer_size = 16384

-- `H` is what a handle stands for. `none` is a failed read.
pub record File (H : Type 0) : Type 0 where
  pub opens : Bool
  -- Whether `SetFilePointer` returns a nonzero number.
  pub seeks : Bool
  pub start : H
  pub read : H → H × Option (List ℕ)

-- Eight bytes of each buffer, as `Mem1[i] != Mem2[i]` compares them.
abbrev pub same_bytes : List ℕ → List ℕ → Bool
same_bytes [] [] = true
same_bytes [] (y ∷ ys) = false
same_bytes (x ∷ xs) [] = false
same_bytes (x ∷ xs) (y ∷ ys) = x == y && same_bytes xs ys

-- The loop with `left` blocks to go.
unfoldable pub compare_memory : ℕ → List ℕ → List ℕ → Bool
compare_memory zero m₁ m₂ = true
compare_memory (suc left) m₁ m₂ = elim (same_bytes (take 8 m₁) (take 8 m₂)) [
  | false ↦ false
  | true ↦ compare_memory left (drop 8 m₁) (drop 8 m₂)
]

-- The status, and which of the two handles stay open.
pub record Result : Type 0 where
  pub status : Status
  pub open₁ : Bool
  pub open₂ : Bool

abbrev pub closed : Status → Result
closed s = record { status = s; open₁ = false; open₂ = false }

abbrev pub not_open : {H : Type 0} → File H → Bool
not_open f = if f.opens then false else true

-- `if (dwSkipSize > 0) if (!SetFilePointer(…))`
abbrev pub stays : {H : Type 0} → ℕ → File H → Bool
stays skip_size f = ltb 0 skip_size && (if f.seeks then false else true)

module _ {H : Type 0} (file₁ file₂ : File H) where
  -- The loop, from the handles `h₁` and `h₂` on.
  unfoldable pub compare_loop : ℕ → H → H → Run Result
  compare_loop zero h₁ h₂ = spin
  compare_loop (suc fuel) h₁ h₂ =
      let (h₁', read₁) = file₁.read h₁ in
      let (h₂', read₂) = file₂.read h₂ in
      elim read₁ [
        | none ↦ done (closed file1_failed)
        | some b₁ ↦ elim read₂ [
          | none ↦ done (closed file2_failed)
          | some b₂ ↦ elim (ltb (length b₂) (length b₁)) [
            | true ↦ done (closed file1_longer)
            | false ↦ elim (ltb (length b₁) (length b₂)) [
              | true ↦ done (closed file2_longer)
              | false ↦ elim (length b₁ == 0) [
                | true ↦ done (closed equal)
                | false ↦ elim (compare_memory (length b₁ / 8) b₁ b₂) [
                  | false ↦ done (closed not_equal)
                  | true ↦ compare_loop fuel h₁' h₂'
                ]
              ]
            ]
          ]
        ]
      ]

  unfoldable pub compare_files : ℕ → ℕ → Run Result
  compare_files fuel skip_size =
      if not_open file₁
      then done (closed file1_failed)
      else if stays skip_size file₁
      then done (record { status = file1_failed; open₁ = true; open₂ = false })
      else if not_open file₂
      then done (closed file2_failed)
      else if stays skip_size file₂
      then done (record { status = file1_failed; open₁ = false; open₂ = true })
      else compare_loop fuel file₁.start file₂.start
