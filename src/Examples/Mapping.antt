-- ===== src/Examples/Mapping.antt =====
-- win32/c/wmmap.c on a small Windows with numbered handles and views.
use ltrdata.Prelude.{
  ℕ, ◌≡◌, refl, ◌⊎◌, inl, inr, none, Bool, true, false, List, [], ◌∷◌, ◌==◌, ◌||◌, if◌then◌else◌,
  if-cases, ap,
}
use ltrdata.Mapping.{Prot, Flags, Page, WinError, access_denied, eacces, enomem, System, mmap}
use ltrdata.Mapping.Views.{opened, Ledger, Balanced, mmap-Balanced}

-- The open handles and the views.
abbrev Process : Type 0
Process = List ℕ × List ℕ

abbrev tail : List ℕ → List ℕ
tail [] = []
tail (x ∷ xs) = xs

-- File 9 cannot be opened; a view is at its address, or at 64 if that is 0 or 5.
abbrev create : Process → ℕ → Page → Bool → Process × (WinError ⊎ ℕ)
create w fd p reserve = if fd == 9 then (w, inl access_denied) else ((fd ∷ w.0, w.1), inr fd)

abbrev placed : ℕ → ℕ
placed addr = if addr == 0 || addr == 5 then 64 else addr

abbrev small : System Process
small = record {
  create_file_mapping = create;
  map_view = λ w map a off len addr. ((w.0, placed addr ∷ w.1), inr (placed addr));
  close_handle = λ w map. (tail w.0, w.1);
  unmap_view = λ w view. ((w.0, tail w.1), none);
}

small-Ledger : Ledger small
small-Ledger = record {
  handles = λ w. w.0;
  views = λ w. w.1;
  creates = λ w fd p reserve.
      if-cases (λ (r : Process × (WinError ⊎ ℕ)). ((r.0).1 ≡ w.1) × ((r.0).0 ≡ opened r.1 w.0))
        (fd == 9) {x = (w, inl access_denied)} {y = ((fd ∷ w.0, w.1), inr fd)} (λ e. (refl, refl))
        (λ e. (refl, refl));
  maps = λ w map a off len addr. (refl, refl);
  closes = λ w map rest e. (ap tail e, refl);
  unmaps = λ w view rest e. (_, refl, ap tail e, refl);
}

abbrev read_only : Prot
read_only = record { read = true; write = false; exec = false }

abbrev private_at : Bool → Flags
private_at fixed = record {
  private_map = true;
  copy = false;
  no_reserve = false;
  rename = false;
  inherit = false;
  no_extend = false;
  has_semaphore = false;
  fixed = fixed;
}

mmap-Balanced_example :
    Balanced small small-Ledger
      ([], [])
      (private_at true)
      128
      4096
      (mmap small ([], []) 128 4096 read_only (private_at true) 3 0)
mmap-Balanced_example =
    mmap-Balanced small small-Ledger ([], []) 128 4096 read_only (private_at true) 3 0

-- A mapping at its address, one that Windows puts elsewhere, and a file that cannot be opened.
mmap_run :
    (mmap small ([], []) 128 4096 read_only (private_at true) 3 0 ≡ (([], 128 ∷ []), inr 128))
    × (mmap small ([], []) 5 4096 read_only (private_at true) 3 0 ≡ (([], []), inl enomem))
    × (mmap small ([], []) 5 4096 read_only (private_at false) 3 0 ≡ (([], 64 ∷ []), inr 64))
    × (mmap small ([], []) 5 4096 read_only (private_at false) 9 0 ≡ (([], []), inl eacces))
unfolding mmap
mmap_run = (refl, refl, refl, refl)
