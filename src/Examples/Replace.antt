-- ===== src/Examples/Replace.antt =====
-- win32/cpp/reptxt32.cpp on short files.
use ltrdata.Prelude.{
  ℕ, ◌≡◌, refl, Bool, true, false, List, [], ◌∷◌, ◌++◌, done, trap, map, ◌==◌, arith, if◌then◌else◌,
}
use ltrdata.Replace.{
  Outcome, Found, Call, Replacing, process, replace_files, without_last_quote, new_text,
}
use ltrdata.Replace.Positions.{rewritten}
use ltrdata.Replace.Texts.{Replaced}
use ltrdata.Replace.Files.{treated, replace_files-treated, process-Replaced}

-- CompareString with the flag SORT_STRINGSORT, on texts of letters.
unfoldable same_text : List ℕ → List ℕ → Bool
same_text [] [] = true
same_text (x ∷ xs) (y ∷ ys) = let rest = same_text xs ys in if x == y then rest else false
same_text _ _ = false

abbrev all_succeed : Outcome
all_succeed = record { opens = true; maps = true; views = true }

abbrev ab : List ℕ
ab = b'a' ∷ b'b' ∷ []

abbrev xy : List ℕ
xy = b'x' ∷ b'y' ∷ []

abbrev document : List ℕ
document = b'a' ∷ b'a' ∷ b'b' ∷ b'a' ∷ b'b' ∷ b'a' ∷ []

abbrev files : List (Outcome × Found)
files =
    (all_succeed, record { directory = false; hidden_file = false; contents = document })
    ∷ (all_succeed, record { directory = false; hidden_file = true; contents = document })
    ∷ []

replace_files-treated_example :
    (rs : List Replacing) × (replace_files same_text ab xy false files ≡ done rs)
    × (map (λ r. (r.1, r.2)) rs ≡ map (treated same_text ab xy false) files)
replace_files-treated_example =
    replace_files-treated same_text ab xy false files refl (omega arith)
      (omega arith, (omega arith, tt))

process-Replaced_example :
    (calls : List Call) × (ys : List ℕ) × (n : ℕ) × (process same_text ab xy all_succeed document
      ≡ done (calls, ys, n))
    × Replaced same_text ab xy document ys n
unfolding same_text
process-Replaced_example =
    process-Replaced same_text ab xy all_succeed document refl (omega arith)
      ((λ xs. refl), ((λ xs. refl), tt)) (omega arith) (omega arith) refl

-- The text is also found where a part of it was stored just before.
rewritten_run :
    (rewritten same_text ab xy 5 document ≡ (b'a' ∷ (xy ++ xy) ++ (b'a' ∷ []), 2))
    × (rewritten same_text ab (b'c' ∷ b'a' ∷ []) 3 (ab ++ ab) ≡ (b'c' ∷ b'a' ∷ b'c' ∷ b'a' ∷ [], 2))
    × (rewritten same_text (b'a' ∷ b'a' ∷ []) (b'b' ∷ b'a' ∷ []) 2 (b'a' ∷ b'a' ∷ b'a' ∷ [])
        ≡ (b'b' ∷ b'b' ∷ b'a' ∷ [], 2))
unfolding rewritten same_text
rewritten_run = (refl, refl, refl)

-- A text that is shorter by more than one byte is filled up with a blank and zeros, and one that is
-- longer leaves the array.
new_text_run :
    (new_text 4 xy ≡ done (xy ++ (b' ' ∷ 0 ∷ [])))
    × (new_text 2 (b'"' ∷ xy ++ (b'"' ∷ [])) ≡ trap)
    × (new_text 2 (b'x' ∷ b'y' ∷ b'z' ∷ []) ≡ trap)
unfolding new_text without_last_quote
new_text_run = (refl, refl, refl)
