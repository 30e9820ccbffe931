-- ===== src/Replace.antt =====
-- win32/cpp/reptxt32.cpp: replaces a text by another of the same length in files.
-- CompareString is the parameter `compare`, on two texts of `txtlen` bytes: whether it returns 2.
-- A view of a file is its bytes; a read or a copy outside it is a trap. A number of type DWORD is
-- below 2 ^ 32.
pub mod Positions
pub mod Texts
pub mod Files
use ltrdata.Prelude.{
  ℕ, zero, suc, ◌+◌, ◌-◌, ◌/◌, ◌%◌, ◌^◌, Bool, true, false, not, ◌&&◌, Option, none, some, List, [],
  ◌∷◌, ◌++◌, Run, done, trap, spin, ◌>>=◌, length, take, drop, zeros, ◌==◌, ltb, leb, if◌then◌else◌,
}

-- `CopyMemory(buffer + now, newstr, txtlen)`.
abbrev pub copy_memory : List ℕ → ℕ → List ℕ → List ℕ
copy_memory buffer now newstr = take now buffer ++ (newstr ++ drop (now + length newstr) buffer)

-- Which calls of Windows on a file succeed.
pub record Outcome : Type 0 where
  pub opens : Bool
  pub maps : Bool
  pub views : Bool

-- The calls that leave something behind, in the order in which they succeed.
pub data Call : Type 0 where
  opened mapped viewed unviewed unmapped closed set_normal set_back : Call

-- What FindFirstFile and FindNextFile tell of a file, and its bytes.
pub record Found : Type 0 where
  pub directory : Bool
  pub hidden_file : Bool
  pub contents : List ℕ

-- The calls, the bytes of the file, and the number of replacements.
abbrev pub Replacing : Type 0
Replacing = List Call × List ℕ × ℕ

module _ (compare : List ℕ → List ℕ → Bool) (cmpstr newstr : List ℕ) where
  abbrev pub at_position : (ℕ → List ℕ → ℕ → Run (List ℕ × ℕ)) → ℕ → List ℕ → ℕ → Run (List ℕ × ℕ)
  at_position next now buffer occur =
      if ltb (length buffer) (now + length cmpstr)
      then trap
      else if compare (take (length cmpstr) (drop now buffer)) cmpstr
      then next ((now + 1) % 2 ^ 32) (copy_memory buffer now newstr) ((occur + 1) % 2 ^ 32)
      else next ((now + 1) % 2 ^ 32) buffer occur

  unfoldable pub replace_loop : (fuel stoppos now : ℕ) → List ℕ → ℕ → Run (List ℕ × ℕ)
  replace_loop zero stoppos now buffer occur = spin
  replace_loop (suc fuel) stoppos now buffer occur =
      if leb now stoppos
      then at_position (replace_loop fuel stoppos) now buffer occur
      else done (buffer, occur)

  -- `GetFileSize(hFile, NULL) - txtlen`, a DWORD.
  abbrev pub stop_position : List ℕ → ℕ
  stop_position file = (length file % 2 ^ 32 + 2 ^ 32 - length cmpstr) % 2 ^ 32

  unfoldable pub process : Outcome → List ℕ → Run Replacing
  process o file =
      if not o.opens
      then done ([], file, 0)
      else if not o.maps
      then done (opened ∷ closed ∷ [], file, 0)
      else if not o.views
      then done (opened ∷ mapped ∷ unmapped ∷ closed ∷ [], file, 0)
      else replace_loop (length file + 2) (stop_position file) 0 file 0 >>= λ (buffer, occur).
          done (opened ∷ mapped ∷ viewed ∷ unviewed ∷ unmapped ∷ closed ∷ [], buffer, occur)

  -- The attributes are cleared before `process` and set back behind it.
  abbrev pub with_attributes : Replacing → Run Replacing
  with_attributes (calls, file, occur) = done (set_normal ∷ (calls ++ (set_back ∷ [])), file, occur)

  -- One round of the loop over the files; `hidden` is the option /A.
  unfoldable pub replace_file : (hidden : Bool) → Outcome × Found → Run Replacing
  replace_file hidden (o, ft) =
      if ft.directory
      then done ([], ft.contents, 0)
      else if length ft.contents / 2 ^ 32 == 0 && ltb (length ft.contents % 2 ^ 32) (length cmpstr)
      then done ([], ft.contents, 0)
      else if hidden
      then process o ft.contents >>= with_attributes
      else if ft.hidden_file
      then done ([], ft.contents, 0)
      else process o ft.contents

  unfoldable pub replace_files : (hidden : Bool) → List (Outcome × Found) → Run (List Replacing)
  replace_files hidden [] = done []
  replace_files hidden (ft ∷ fts) =
      replace_file hidden ft >>= λ r. replace_files hidden fts >>= λ rs. done (r ∷ rs)

-- The quotes around an argument.
abbrev pub without_quote : List ℕ → List ℕ
without_quote [] = []
without_quote (c ∷ cs) = if c == b'"' then cs else c ∷ cs

unfoldable pub without_last_quote : List ℕ → List ℕ
without_last_quote [] = []
without_last_quote (c ∷ []) = if c == b'"' then [] else c ∷ []
without_last_quote (c ∷ d ∷ cs) = c ∷ without_last_quote (d ∷ cs)

-- `newstr` from the third argument. The text without the quotes is longer than `txtlen` or empty:
-- then strlen or the test for a quote leaves the part of the array that was set.
unfoldable pub new_text : (txtlen : ℕ) → List ℕ → Run (List ℕ)
new_text txtlen argument =
    let text = without_quote argument in
    if ltb txtlen (length text)
    then trap
    else if length text == 0
    then trap
    else done (take txtlen (without_last_quote text ++ (b' ' ∷ zeros txtlen)))
