-- ===== src/Examples/Resize.antt =====
-- win32/c/chsize32.c on a volume in memory.
use ltrdata.Prelude.{
  ℕ, ◌%◌, ◌^◌, ◌≡◌, ◌≢◌, refl, sym, ap, ◌∙◌, inl, inr, Bool, true, false, Option, none, some, List,
  [], ◌∷◌, ◌==◌, if◌then◌else◌, Bool-cases, ==_iff, arith,
}
use mathlib.Core.Bool.{true≢false}
use mathlib.Core.Path.{ap₂}
use ltrdata.Resize.{Scan, no_number, number_suffix, Volume, with_suffix, chsize}
use ltrdata.Resize.Sizes.{Working, Resized, small_kilo, chsize-Resized}

abbrev same_name : List ℕ → List ℕ → Bool
same_name [] [] = true
same_name (x ∷ xs) (y ∷ ys) = if x == y then same_name xs ys else false
same_name _ _ = false

same_name_refl : (xs : List ℕ) → same_name xs xs ≡ true
same_name_refl [] = refl
same_name_refl (x ∷ xs) =
    ap (λ b. if b then same_name xs xs else false) ((==_iff x x).1 refl) ∙ same_name_refl xs

same_name_sound : (xs ys : List ℕ) → same_name xs ys ≡ true → xs ≡ ys
same_name_sound [] [] e = refl
same_name_sound (x ∷ xs) [] e = absurd (true≢false (sym e))
same_name_sound [] (y ∷ ys) e = absurd (true≢false (sym e))
same_name_sound (x ∷ xs) (y ∷ ys) e = elim (Bool-cases (x == y)) [
  | inl same ↦
      ap₂ (λ z zs. z ∷ zs) ((==_iff x y).0 same)
        (same_name_sound xs ys (sym (ap (λ b. if b then same_name xs ys else false) same) ∙ e))
  | inr other ↦ absurd (true≢false (sym e ∙ ap (λ b. if b then same_name xs ys else false) other))
]

-- The files' sizes, and the file and the position of the only handle, 7.
abbrev Memory : Type 0
Memory = (List ℕ → Option ℕ) × List ℕ × ℕ

abbrev resized_to : (List ℕ → Option ℕ) → List ℕ → Option ℕ → List ℕ → Option ℕ
resized_to sizes name n other = if same_name other name then n else sizes other

abbrev or_empty : Option ℕ → Option ℕ
or_empty none = some 0
or_empty (some n) = some n

abbrev memory : Volume Memory
memory = record {
  create_file = λ w name. ((resized_to w.0 name (or_empty (w.0 name)), name, 0), some 7);
  set_sparse = λ w handle. (w, false);
  set_file_pointer = λ w handle n. ((w.0, w.1, n), (n % 2 ^ 32, 0));
  set_end_of_file = λ w handle. ((resized_to w.0 w.1 (some w.2), w.1, w.2), true);
}

resized_to-other :
    (sizes : List ℕ → Option ℕ) (name : List ℕ) (n : Option ℕ) (other : List ℕ)
    → other ≢ name
    → resized_to sizes name n other ≡ sizes other
resized_to-other sizes name n other differs = elim (Bool-cases (same_name other name)) [
  | inl same ↦ absurd (differs (same_name_sound other name same))
  | inr e ↦ ap (λ b. if b then n else sizes other) e
]

memory-Working : Working memory
memory-Working = record {
  size = λ w. w.0;
  file = λ w handle. w.1;
  position = λ w handle. w.2;
  creates = λ w name. (_, 7, refl, refl, resized_to-other w.0 name (or_empty (w.0 name)));
  makes_sparse = λ w handle. (refl, λ other. refl);
  moves = λ w handle n fits. (_, refl, refl, refl, λ other. refl);
  ends = λ w handle. (
    _,
    refl,
    ap (λ b. if b then some w.2 else w.0 w.1) (same_name_refl w.1),
    resized_to-other w.0 w.1 (some w.2),
  );
}

-- "12k" is read as 12 and a k, and a volume without files.
abbrev twelve_k : List ℕ
twelve_k = b'1' ∷ b'2' ∷ b'k' ∷ []

abbrev scan : List ℕ → Scan
scan text = if same_name text twelve_k then number_suffix 12 b'k' else no_number

abbrev no_files : Memory
no_files = (λ name. none, [], 0)

chsize-Resized_example :
    Resized memory memory-Working no_files
      (b'a' ∷ [])
      12288
      (chsize memory scan no_files ((b'a' ∷ []) ∷ twelve_k ∷ []))
    × Resized memory memory-Working no_files
        (b'a' ∷ [])
        12288
        (chsize memory scan no_files ((b'-' ∷ b's' ∷ []) ∷ (b'a' ∷ []) ∷ twelve_k ∷ []))
chsize-Resized_example =
    chsize-Resized memory memory-Working scan no_files (b'a' ∷ []) twelve_k refl small_kilo
      (omega arith)

-- 2^24 terabytes are 0 in 64 bits.
with_suffix_run : with_suffix (2 ^ 24) b'T' ≡ some 0
unfolding with_suffix
with_suffix_run = refl
