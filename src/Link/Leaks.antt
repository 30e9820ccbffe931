-- ===== src/Link/Leaks.antt =====
-- What a call of `CreateHardLinkToFile` returns, and what it gives back of what it got.
use ltrdata.Prelude.{
  ℕ, ◌+◌, ◌≡◌, refl, ◌∙◌, ◌⊎◌, inl, inr, Bool, true, false, not, Option, none, some, Run, done,
  trap, List, [], ◌∷◌, if◌then◌else◌, Bool-cases, arith,
}
use mathlib.Core.Bool.{true≢false}
use ltrdata.Link.{
  ok_library, Thing, nt_name, link_data, wide_name, file, Event, gets, frees, links, Process,
  Outcome, path_not_found, after_set, after_allocate, create_hard_link_to_open_file, after_link,
  after_open, after_convert, link_with,
}

abbrev pub ok : ℕ → List Event → Process
ok error trace = record { library = ok_library; error = error; trace = trace }

-- How often a thing was got and given back.
abbrev pub one : Thing → Thing → ℕ
one nt_name nt_name = 1
one link_data link_data = 1
one wide_name wide_name = 1
one file file = 1
one _ _ = 0

abbrev pub gotten : Thing → List Event → ℕ
gotten t [] = 0
gotten t (gets s ∷ es) = one t s + gotten t es
gotten t (frees s ∷ es) = gotten t es
gotten t (links replace ∷ es) = gotten t es

abbrev pub freed : Thing → List Event → ℕ
freed t [] = 0
freed t (gets s ∷ es) = freed t es
freed t (frees s ∷ es) = one t s + freed t es
freed t (links replace ∷ es) = freed t es

-- All that was got between two traces was given back, or all but a name for NTDLL, because there was
-- no memory for the link's data.
abbrev pub Kept : Outcome → Thing → List Event → List Event → Type 0
Kept o t es es' =
    (gotten t es' + freed t es ≡ gotten t es + freed t es')
    ⊎ ((gotten t es' + freed t es ≡ gotten t es + freed t es' + one t nt_name)
        × ((e : ℕ) × (o.allocate ≡ some e)))

-- The call returns true, or false with the last error `e`.
abbrev pub Fits : Option ℕ → Process → Bool → Type 0
Fits none p b = b ≡ true
Fits (some e) p b = (b ≡ false) × (p.error ≡ e)

-- The run returns with a process and a result that satisfy `P`.
abbrev pub Returns : (Process → Bool → Type 0) → Run (Process × Bool) → Type 0
Returns P (done (p, b)) = P p b
Returns P trap = ⊥
Returns P Run.spin = ⊥

module _ (dos_error : ℕ → ℕ) (o : Outcome) where
  -- The error of the first step that fails.
  abbrev pub dos_reason : Option ℕ → Option ℕ
  dos_reason none = none
  dos_reason (some status) = some (dos_error status)

  abbrev pub reason_allocate : Option ℕ → Option ℕ
  reason_allocate (some e) = some e
  reason_allocate none = dos_reason o.set_status

  abbrev pub reason_path : Option ℕ
  reason_path = if not o.finds_path then some path_not_found else reason_allocate o.allocate

  abbrev pub reason_open : Option ℕ → Option ℕ
  reason_open (some e) = some (o.after_free e)
  reason_open none = reason_path

  abbrev pub reason_convert : Option ℕ → Option ℕ
  reason_convert (some e) = some e
  reason_convert none = reason_open o.opens

  abbrev pub Good : List Event → Option ℕ → Run (Process × Bool) → Type 0
  Good es reason =
      Returns
        (λ p b. (p.library ≡ ok_library) × Fits reason p b × ((t : Thing) → Kept o t es p.trace))

  Kept-back :
      (t : Thing) (es es' : List Event)
      → Kept o t (gets file ∷ gets wide_name ∷ es) es'
      → Kept o t es (frees file ∷ frees wide_name ∷ es')
  Kept-back t es es' (inl e) = inl (omega arith)
  Kept-back t es es' (inr (e, why)) = inr (omega arith, why)

  Fits-kept :
      (reason : Option ℕ) (p p' : Process) (b : Bool)
      → p'.error ≡ p.error
      → Fits reason p b
      → Fits reason p' b
  Fits-kept none p p' b same fits = fits
  Fits-kept (some e) p p' b same (fails, is) = (fails, same ∙ is)

  Fits-true : (reason : Option ℕ) (p p' : Process) → Fits reason p true → Fits reason p' true
  Fits-true none p p' fits = fits
  Fits-true (some e) p p' (fails, is) = absurd (true≢false fails)

  after_set_lem :
      (error : ℕ) (es trace : List Event)
      → ((t : Thing) → Kept o t es trace)
      → (status : Option ℕ)
      → Good es (dos_reason status) (after_set dos_error (ok error trace) status)
  unfolding after_set
  after_set_lem error es trace kept none = (refl, refl, kept)
  after_set_lem error es trace kept (some status) = (refl, (refl, refl), kept)

  after_allocate_lem :
      (replace : Bool) (error : ℕ) (es : List Event) (r : Option ℕ)
      → o.allocate ≡ r
      → Good es
          (reason_allocate r)
          (after_allocate dos_error o replace (ok error (gets nt_name ∷ es)) r)
  unfolding after_allocate
  after_allocate_lem replace error es none e =
      after_set_lem _ es _ (λ t. inl (omega arith)) o.set_status
  after_allocate_lem replace error es (some code) e =
      (refl, (refl, refl), λ t. inr (omega arith, (code, e)))

  create_hard_link_to_open_file_lem :
      (replace : Bool) (error : ℕ) (es : List Event)
      → Good es reason_path (create_hard_link_to_open_file dos_error o replace (ok error es))
  unfolding create_hard_link_to_open_file
  create_hard_link_to_open_file_lem replace error es = elim (Bool-cases (not o.finds_path)) [
    | inl e ↦ rw e (refl, (refl, refl), λ t. inl refl)
    | inr e ↦ rw e (after_allocate_lem replace error es o.allocate refl)
  ]

  after_link_lem :
      (es : List Event) (reason : Option ℕ) (r : Run (Process × Bool))
      → Good (gets file ∷ gets wide_name ∷ es) reason r
      → Good es reason (after_link o r)
  unfolding after_link
  after_link_lem es reason trap good = absurd good
  after_link_lem es reason Run.spin good = absurd good
  after_link_lem es reason (done (p, true)) (lib, fits, kept) =
      (lib, Fits-true reason p _ fits, λ t. Kept-back t es p.trace (kept t))
  after_link_lem es reason (done (p, false)) (lib, fits, kept) =
      (lib, Fits-kept reason p _ false refl fits, λ t. Kept-back t es p.trace (kept t))

  after_open_lem :
      (replace : Bool) (error : ℕ) (es : List Event) (r : Option ℕ)
      → Good es (reason_open r) (after_open dos_error o replace (ok error (gets wide_name ∷ es)) r)
  unfolding after_open
  after_open_lem replace error es (some e) = (refl, (refl, refl), λ t. inl (omega arith))
  after_open_lem replace error es none =
      after_link_lem es reason_path
        (create_hard_link_to_open_file dos_error o replace
          (ok error (gets file ∷ gets wide_name ∷ es)))
        (create_hard_link_to_open_file_lem replace error (gets file ∷ gets wide_name ∷ es))

  after_convert_lem :
      (replace : Bool) (error : ℕ) (es : List Event) (r : Option ℕ)
      → Good es (reason_convert r) (after_convert dos_error o replace (ok error es) r)
  unfolding after_convert
  after_convert_lem replace error es (some e) = (refl, (refl, refl), λ t. inl refl)
  after_convert_lem replace error es none = after_open_lem replace error es o.opens

  pub link_with_lem :
      (replace : Bool) (error : ℕ) (es : List Event)
      → Good es
          (reason_convert (if o.ansi then o.byte_to_wide else o.oem_to_wide))
          (link_with dos_error o replace (ok error es))
  unfolding link_with
  link_with_lem replace error es = after_convert_lem replace error es _
