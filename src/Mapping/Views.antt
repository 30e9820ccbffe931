-- ===== src/Mapping/Views.antt =====
-- The handles and views that `mmap` and `munmap` leave open.
use ltrdata.Prelude.{
  ℕ, ◌≡◌, refl, ap, ◌∙◌, ◌⊎◌, inl, inr, none, Bool, true, false, ◌&&◌, not, ◌==◌, List, ◌∷◌,
  if-cases, arith,
}
use ltrdata.Mapping.{
  Prot, Flags, Page, page, Access, access, WinError, Errno, System, unsupported, after_view,
  after_create, mmap, after_unmap, munmap,
}

-- What the documentation says of the calls: the handles that are open and the views of a process,
-- the newest first. A failed call changes neither.
abbrev pub opened : WinError ⊎ ℕ → List ℕ → List ℕ
opened (inl e) xs = xs
opened (inr x) xs = x ∷ xs

pub record Ledger {W : Type 0} (sys : System W) : Type 0 where
  pub handles : W → List ℕ
  pub views : W → List ℕ
  pub creates :
      (w : W) (fd : ℕ) (p : Page) (reserve : Bool)
      → let (w', r) = sys.create_file_mapping w fd p reserve in
        (views w' ≡ views w) × (handles w' ≡ opened r (handles w))
  pub maps :
      (w : W) (map : ℕ) (a : Access) (off len addr : ℕ)
      → let (w', r) = sys.map_view w map a off len addr in
        (handles w' ≡ handles w) × (views w' ≡ opened r (views w))
  pub closes :
      (w : W) (map : ℕ) (rest : List ℕ)
      → handles w ≡ map ∷ rest
      → (handles (sys.close_handle w map) ≡ rest) × (views (sys.close_handle w map) ≡ views w)
  pub unmaps :
      (w : W) (view : ℕ) (rest : List ℕ)
      → views w ≡ view ∷ rest
      → (w' : W) × (sys.unmap_view w view ≡ (w', none))
        × (views w' ≡ rest)
        × (handles w' ≡ handles w)

module _ {W : Type 0} (sys : System W) (ledger : Ledger sys) where
  -- The handles and views are those of `before`.
  abbrev pub Same : W → W → Type 0
  Same before after =
      (ledger.handles after ≡ ledger.handles before) × (ledger.views after ≡ ledger.views before)

  abbrev pub Balanced : W → Flags → (addr len : ℕ) → W × (Errno ⊎ ℕ) → Type 0
  Balanced before flags addr len (after, inl e) = Same before after
  Balanced before flags addr len (after, inr view) =
      (ledger.handles after ≡ ledger.handles before)
      × (ledger.views after ≡ view ∷ ledger.views before)
      × (flags.fixed ≡ true → view ≡ addr)
      × (unsupported flags ≡ false)
      × ((last : W) × (munmap sys after view len ≡ (last, none)) × Same before last)

  fixed_at :
      (flags : Flags) (view addr : ℕ)
      → (flags.fixed && not (view == addr)) ≡ false
      → flags.fixed ≡ true
      → view ≡ addr
  fixed_at flags view addr good fixed = ground arith

  after_view-Balanced :
      (w : W) (map addr len : ℕ) (flags : Flags) (r : W × (WinError ⊎ ℕ))
      → unsupported flags ≡ false
      → ledger.handles r.0 ≡ map ∷ ledger.handles w
      → ledger.views r.0 ≡ opened r.1 (ledger.views w)
      → Balanced w flags addr len (after_view sys flags map addr r)
  unfolding after_view munmap
  after_view-Balanced w map addr len flags (mapped, inl e) ok h v =
      let (ch, cv) = ledger.closes mapped map _ h in (ch, cv ∙ v)
  after_view-Balanced w map addr len flags (mapped, inr view) ok h v =
      let (ch, cv) = ledger.closes mapped map _ h in
      let (last, e, uv, uh) = ledger.unmaps (sys.close_handle mapped map) view _ (cv ∙ v) in
      if-cases (Balanced w flags addr len) (flags.fixed && not (view == addr))
        (λ bad. rw e (uh ∙ ch, uv))
        (λ good. (
          ch,
          cv ∙ v,
          fixed_at flags view addr good,
          ok,
          (last, ap (after_unmap sys) e, (uh ∙ ch, uv)),
        ))

  after_create-Balanced :
      (w : W) (addr len : ℕ) (prot : Prot) (flags : Flags) (off : ℕ)
      → unsupported flags ≡ false
      → (r : W × (WinError ⊎ ℕ))
      → (ledger.views r.0 ≡ ledger.views w) × (ledger.handles r.0 ≡ opened r.1 (ledger.handles w))
      → Balanced w flags addr len (after_create sys addr len prot flags off r)
  unfolding after_create
  after_create-Balanced w addr len prot flags off ok (created, inl e) (v, h) = (h, v)
  after_create-Balanced w addr len prot flags off ok (created, inr map) (v, h) =
      let (mh, mv) = ledger.maps created map (access prot flags) off len addr in
      after_view-Balanced w map addr len flags
        (sys.map_view created map (access prot flags) off len addr) ok (mh ∙ h)
        (mv ∙ ap (opened (sys.map_view created map (access prot flags) off len addr).1) v)

  -- Whatever the calls return, `mmap` leaves no handle open. If it fails, the views are as before
  -- too. If it succeeds, no refused flag was given, there is one view more, the one that is
  -- returned, which is at the given address under MAP_FIXED, and `munmap` of it succeeds and leaves
  -- the handles and views as they were before `mmap`.
  pub mmap-Balanced :
      (w : W) (addr len : ℕ) (prot : Prot) (flags : Flags) (fd off : ℕ)
      → Balanced w flags addr len (mmap sys w addr len prot flags fd off)
  unfolding mmap
  mmap-Balanced w addr len prot flags fd off =
      if-cases (Balanced w flags addr len) (unsupported flags) (λ e. (refl, refl))
        (λ e.
          after_create-Balanced w addr len prot flags off e
            (sys.create_file_mapping w fd (page prot flags) flags.no_reserve)
            (ledger.creates w fd (page prot flags) flags.no_reserve))
