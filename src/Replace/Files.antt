-- ===== src/Replace/Files.antt =====
-- What win32/cpp/reptxt32.cpp makes of the files that it finds.

use ltrdata.Prelude.{
  ℕ, suc, ◌+◌, ◌-◌, ◌/◌, ◌%◌, ◌^◌, ◌≤◌, ◌<◌, ◌≡◌, refl, ap, ◌∙◌, inl, inr, Bool, true, false, not,
  ◌&&◌, ◌||◌, List, [], ◌∷◌, Run, done, ◌>>=◌, All, map, length, ltb, leb, ◌==◌, if◌then◌else◌,
  Bool-cases, arith,
}
use ltrdata.Replace.{
  Outcome, Found, Call, opened, mapped, viewed, unviewed, unmapped, closed, Replacing, replace_loop,
  process, with_attributes, replace_file, replace_files,
}
use ltrdata.Replace.Positions.{rewritten, replace_loop-rewritten}
use ltrdata.Replace.Texts.{Replaced, Quiet, rewritten-Replaced}

module _ (compare : List ℕ → List ℕ → Bool) (cmpstr newstr : List ℕ) where
  abbrev pub works : Outcome → Bool
  works o = o.opens && (o.maps && o.views)

  -- The whole of a file, with the number of replacements.
  abbrev pub searched : List ℕ → List ℕ × ℕ
  searched file = rewritten compare cmpstr newstr (length file + 1 - length cmpstr) file

  abbrev Does : List ℕ × ℕ → Run Replacing → Type 0
  Does result run = (calls : List Call) × (run ≡ done (calls, result.0, result.1))

  abbrev worked : List Call
  worked = opened ∷ mapped ∷ viewed ∷ unviewed ∷ unmapped ∷ closed ∷ []

  process-Does :
      (o : Outcome) (file : List ℕ)
      → length newstr ≡ length cmpstr
      → 0 < length cmpstr
      → length cmpstr ≤ length file
      → length file < 2 ^ 32
      → Does (if works o then searched file else (file, 0)) (process compare cmpstr newstr o file)
  unfolding process
  process-Does o file same full inside small =
      let size : (length file % 2 ^ 32 + 2 ^ 32 - length cmpstr) % 2 ^ 32
          ≡ length file - length cmpstr =
        omega arith in
      let loop =
        ap (λ stop. replace_loop compare cmpstr newstr (length file + 2) stop 0 file 0) size
        ∙ replace_loop-rewritten compare cmpstr newstr (length file + 2)
            (length file + 1 - length cmpstr) (length file - length cmpstr) [] file 0 same full
            (omega arith) (omega arith) (omega arith) (omega arith) (omega arith)
        ∙ ap (λ n. done ((searched file).0, n)) (omega arith) in
      elim (Bool-cases o.opens) [
        | inr shut ↦ rw shut (_, refl)
        | inl opens ↦ elim (Bool-cases o.maps) [
          | inr no_map ↦ rw (opens, no_map) (_, refl)
          | inl maps ↦ elim (Bool-cases o.views) [
            | inr unseen ↦ rw (opens, maps, unseen) (_, refl)
            | inl views ↦
                rw (opens, maps, views)
                  (worked, ap (λ r. r >>= λ (buffer, occur). done (worked, buffer, occur)) loop)
          ]
        ]
      ]

  -- Whether the program looks for the text in the file, and can.
  abbrev pub touched : (hidden : Bool) → Outcome × Found → Bool
  touched hidden (o, ft) =
      not ft.directory
      && (leb (length cmpstr) (length ft.contents) && ((hidden || not ft.hidden_file) && works o))

  abbrev pub treated : (hidden : Bool) → Outcome × Found → List ℕ × ℕ
  treated hidden (o, ft) = if touched hidden (o, ft) then searched ft.contents else (ft.contents, 0)

  shown_Does :
      (hidden : Bool) (ft : Found) (can : Bool) (run : Run Replacing)
      → Does (if can then searched ft.contents else (ft.contents, 0)) run
      → Does
          (if (hidden || not ft.hidden_file) && can then searched ft.contents else (ft.contents, 0))
          (if hidden
            then run >>= with_attributes compare cmpstr newstr
            else if ft.hidden_file
            then done ([], ft.contents, 0)
            else run)
  shown_Does true ft can run (calls, e) =
      (_, ap (λ r. r >>= with_attributes compare cmpstr newstr) e)
  shown_Does false ft can run does = elim (Bool-cases ft.hidden_file) [
    | inl hidden ↦ rw hidden ([], refl)
    | inr shown ↦ rw shown does
  ]

  replace_file-Does :
      (hidden : Bool) (ft : Outcome × Found)
      → length newstr ≡ length cmpstr
      → 0 < length cmpstr
      → length ft.1.contents < 2 ^ 32
      → Does (treated hidden ft) (replace_file compare cmpstr newstr hidden ft)
  unfolding replace_file
  replace_file-Does hidden (o, ft) same full small = elim (Bool-cases ft.directory) [
    | inl directory ↦ rw directory ([], refl)
    | inr file ↦ elim (Bool-cases (leb (length cmpstr) (length ft.contents))) [
      | inr short ↦
          let skips : (length ft.contents / 2 ^ 32 == 0
                && ltb (length ft.contents % 2 ^ 32) (length cmpstr))
              ≡ true =
            ground arith in
          rw (file, short, skips) ([], refl)
      | inl inside ↦
          let goes : (length ft.contents / 2 ^ 32 == 0
                && ltb (length ft.contents % 2 ^ 32) (length cmpstr))
              ≡ false =
            ground arith in
          rw (file, inside, goes)
            (shown_Does hidden ft (works o) (process compare cmpstr newstr o ft.contents)
              (process-Does o ft.contents same full (ground arith) small))
    ]
  ]

  abbrev Small : Outcome × Found → Type 0
  Small x = length x.1.contents < 2 ^ 32

  -- The texts are of the same length, not empty, and each file is below 4 GB: then the program ends,
  -- and searches the whole of each file that is long enough and no directory, if it is shown or all
  -- are to be searched and the calls of Windows succeed; it leaves the others as they are. No read
  -- or copy is outside a view.
  pub replace_files-treated :
      (hidden : Bool) (fts : List (Outcome × Found))
      → length newstr ≡ length cmpstr
      → 0 < length cmpstr
      → All Small fts
      → (rs : List Replacing) × (replace_files compare cmpstr newstr hidden fts ≡ done rs)
        × (map (λ r. (r.1, r.2)) rs ≡ map (treated hidden) fts)
  unfolding replace_files
  replace_files-treated hidden [] same full small = ([], refl, refl)
  replace_files-treated hidden (ft ∷ fts) same full small =
      let (calls, e) = replace_file-Does hidden ft same full small.0 in
      let (rs, es, all) = replace_files-treated hidden fts same full small.1 in
      let result = treated hidden ft in
      (
        (calls, result.0, result.1) ∷ rs,
        ap (λ r. r >>= λ r. replace_files compare cmpstr newstr hidden fts >>= λ rs. done (r ∷ rs))
              e
            ∙ ap (λ r. r >>= λ rs. done ((calls, result.0, result.1) ∷ rs)) es,
        ap (◌∷◌ result) all,
      )

searched-Replaced :
    (compare : List ℕ → List ℕ → Bool) (cmpstr newstr file : List ℕ)
    → length newstr ≡ length cmpstr
    → 0 < length cmpstr
    → All (Quiet compare cmpstr) newstr
    → Replaced compare cmpstr newstr file
        (searched compare cmpstr newstr file).0
        (searched compare cmpstr newstr file).1
searched-Replaced compare cmpstr [] file same full quiet = absurd (omega (arith, same))
searched-Replaced compare cmpstr (b ∷ t) file same full quiet =
    rewritten-Replaced compare cmpstr (suc (length file + 1 - length cmpstr)) b t
      (length file + 1 - length cmpstr) file quiet same (omega arith) refl

-- Where no text that is looked for begins with a byte of the new one, the texts are of the same
-- length, which is not 0, the file is at least as long and below 4 GB, and the calls of Windows
-- succeed, `process` leaves the file with each of the texts that do not overlap replaced, from the
-- left, and returns their number.
pub process-Replaced :
    (compare : List ℕ → List ℕ → Bool) (cmpstr newstr : List ℕ) (o : Outcome) (file : List ℕ)
    → length newstr ≡ length cmpstr
    → 0 < length cmpstr
    → All (Quiet compare cmpstr) newstr
    → length cmpstr ≤ length file
    → length file < 2 ^ 32
    → works compare cmpstr newstr o ≡ true
    → (calls : List Call) × (ys : List ℕ) × (n : ℕ) × (process compare cmpstr newstr o file
        ≡ done (calls, ys, n))
      × Replaced compare cmpstr newstr file ys n
process-Replaced compare cmpstr newstr o file same full quiet inside small can =
    let (calls, e) = process-Does compare cmpstr newstr o file same full inside small in
    let all = searched compare cmpstr newstr file in
    (
      calls,
      all.0,
      all.1,
      e ∙ ap (λ b. let r = if b then all else (file, 0) in done (calls, r.0, r.1)) can,
      searched-Replaced compare cmpstr newstr file same full quiet,
    )
