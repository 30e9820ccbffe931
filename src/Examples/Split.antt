-- ===== src/Examples/Split.antt =====
-- win32/c/fsplit32.c on a disk in memory: seven bytes in pieces of three.
use mathlib.Core.Bool.{true≢false}
use ltrdata.Prelude.{
  joined, ℕ, ◌+◌, ◌≤◌, ◌<◌, ◌≡◌, ◌≢◌, refl, sym, ap, ◌∙◌, inl, inr, Bool, true, false, some, List,
  [], ◌∷◌, ◌++◌, done, arith, length, get_or, take, drop, ◌==◌, ==_iff, if◌then◌else◌, Bool-cases,
  ltb, ltb→lt, every_below, every_below_sound,
}
use ltrdata.Prelude.Cut.{Cut}
use ltrdata.Stdlib.{print_u, strtoul_ten}
use ltrdata.Split.{
  Files, finished, piece_name, after_read, after_create, after_write, split_loop, split_file,
  fsplit,
}
use ltrdata.Split.Held.{Hold, Others}
use ltrdata.Split.Pieces.{Disk, fsplit-Splits}

-- What is left of the input, and the files by their names. The last write of a name counts.
abbrev World : Type 0
World = List ℕ × List (List ℕ × List ℕ)

abbrev same_name : List ℕ → List ℕ → Bool
same_name [] [] = true
same_name [] (y ∷ ys) = false
same_name (x ∷ xs) [] = false
same_name (x ∷ xs) (y ∷ ys) = if x == y then same_name xs ys else false

same_name_refl : (xs : List ℕ) → same_name xs xs ≡ true
same_name_refl [] = refl
same_name_refl (x ∷ xs) = let same : (x == x) ≡ true = ground arith in rw same (same_name_refl xs)

same_name_sound : (xs ys : List ℕ) → same_name xs ys ≡ true → xs ≡ ys
same_name_sound [] [] e = refl
same_name_sound [] (y ∷ ys) e = cc
same_name_sound (x ∷ xs) [] e = cc
same_name_sound (x ∷ xs) (y ∷ ys) e = elim (Bool-cases (x == y)) [
  | inl same ↦
      let rest =
        same_name_sound xs ys (sym (ap (λ b. if b then same_name xs ys else false) same) ∙ e) in
      let head : x ≡ y = (==_iff x y).0 same in cc
  | inr differs ↦
      let no : false ≡ true = sym (ap (λ b. if b then same_name xs ys else false) differs) ∙ e in cc
]

abbrev held : List (List ℕ × List ℕ) → List ℕ → List ℕ
held [] name = []
held ((other, bytes) ∷ files) name = if same_name other name then bytes else held files name

abbrev put : List ℕ → List ℕ → World → World
put name bytes (input, files) =
    (input, (name, bytes ++ drop (length bytes) (held files name)) ∷ files)

abbrev memory : Files World
memory = record {
  read = λ w n. ((drop n w.0, w.1), some (take n w.0));
  create = λ w name. (w, true);
  write = λ w name bytes. (put name bytes w, some (length bytes));
  unlink = λ w name. w;
}

put_here :
    (name bytes : List ℕ) (files : List (List ℕ × List ℕ))
    → held ((name, bytes) ∷ files) name ≡ bytes
put_here name bytes files = rw (same_name_refl name) refl

put_there :
    (name other bytes : List ℕ) (files : List (List ℕ × List ℕ))
    → other ≢ name
    → held ((name, bytes) ∷ files) other ≡ held files other
put_there name other bytes files apart = elim (Bool-cases (same_name name other)) [
  | inl same ↦ absurd (apart (sym (same_name_sound name other same)))
  | inr differs ↦ rw differs refl
]

-- fsplit32 in p 3
abbrev infile : List ℕ
infile = b'i' ∷ b'n' ∷ []

abbrev rest : List (List ℕ)
rest = (b'p' ∷ []) ∷ (b'3' ∷ []) ∷ []

memory_disk : Disk memory infile
memory_disk = record {
  input = λ w. w.0;
  content = λ w. held w.1;
  reads = λ w n. ((drop n w.0, w.1), refl, refl, λ name. refl);
  creates = λ w name bytes apart. (
    w,
    put name bytes w,
    refl,
    refl,
    refl,
    put_here name (bytes ++ drop (length bytes) (held w.1 name)) w.1,
    λ other apart. put_there name other (bytes ++ drop (length bytes) (held w.1 name)) w.1 apart,
  );
}

-- The third piece's name is that of a longer file.
abbrev start : World
start = (1 ∷ 2 ∷ 3 ∷ 4 ∷ 5 ∷ 6 ∷ 7 ∷ [], (b'p' ∷ b'.' ∷ b'3' ∷ [], 8 ∷ 9 ∷ []) ∷ [])

names_fit : (i : ℕ) → i ≤ 7 → length (piece_name (b'p' ∷ []) i) < 260
unfolding piece_name print_u every_below
names_fit i le =
    ltb→lt _ _
      (every_below_sound (λ i. ltb (length (piece_name (b'p' ∷ []) i)) 260) 8 i refl (omega arith))

not_input : (i : ℕ) → piece_name (b'p' ∷ []) i ≢ infile
unfolding piece_name
not_input i e = true≢false (sym (ap (λ name. get_or name 0 0 == b'i') e))

fsplit-Splits_example :
    (w' : World) × (ps : List (List ℕ)) × (fsplit memory true (λ n. true) 7 8 (infile ∷ rest) start
      ≡ done (w', finished (0 + length ps) false))
    × (joined ps ≡ start.0)
    × Cut 3 ps
    × Hold (b'p' ∷ []) 0 ps (held start.1) (held w'.1)
    × Others (b'p' ∷ []) 0 ps (held start.1) (held w'.1)
unfolding memory_disk strtoul_ten
fsplit-Splits_example =
    fsplit-Splits infile memory_disk (λ n. true) rest 8 start (refl, refl) refl (omega arith) refl
      (omega arith) (λ i le. (names_fit i le, not_input i)) (omega arith)

-- The third file keeps the 9 that it had.
fsplit_run :
    fsplit memory true (λ n. true) 7 8 (infile ∷ rest) start
    ≡ done (
      (
        [],
        ((b'p' ∷ b'.' ∷ b'3' ∷ []), 7 ∷ 9 ∷ [])
            ∷ ((b'p' ∷ b'.' ∷ b'2' ∷ []), 4 ∷ 5 ∷ 6 ∷ [])
            ∷ ((b'p' ∷ b'.' ∷ b'1' ∷ []), 1 ∷ 2 ∷ 3 ∷ [])
            ∷ start.1,
      ),
      finished 3 false,
    )
unfolding fsplit split_file split_loop piece_name print_u strtoul_ten after_read after_create
    after_write
fsplit_run = refl
