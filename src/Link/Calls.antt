-- ===== src/Link/Calls.antt =====
-- Any number of calls of `CreateHardLinkToFile` in a process, with one NTDLL.
use ltrdata.Prelude.{
  ℕ, ◌≡◌, refl, sym, ◌⊎◌, inl, inr, Bool, true, false, ◌&&◌, Run, done, [], if◌then◌else◌,
}
use mathlib.Core.Path.{subst}
use ltrdata.Link.{
  not_init, init_failed, Library, Ntdll, lnk_lib_init, ok_library, Process, Outcome,
  call_not_implemented, after_init, link_by, create_hard_link_to_file,
}
use ltrdata.Link.Leaks.{Returns, Good, reason_convert, link_with_lem}

-- The static variables of a new process.
abbrev pub initial : ℕ → Process
initial error = record {
  library = record {
    status = not_init;
    to_dos_error = false;
    free_string = false;
    set_information = false;
    path_to_nt = false;
  };
  error = error;
  trace = [];
}

abbrev pub found : Ntdll → Bool
found dll =
    dll.loaded && dll.has_to_dos_error && dll.has_free_string && dll.has_set_information
    && dll.has_path_to_nt

abbrev Initialised : Ntdll → Library → Type 0
Initialised dll lib =
    ((found dll ≡ true) × (lnk_lib_init dll lib ≡ (ok_library, true)))
    ⊎ ((found dll ≡ false)
        × ((failed : Library) × (lnk_lib_init dll lib ≡ (failed, false))
            × (failed.status ≡ init_failed)))

lnk_lib_init_by :
    (a b c d e : Bool) (lib : Library)
    → Initialised
        record {
          loaded = a;
          has_to_dos_error = b;
          has_free_string = c;
          has_set_information = d;
          has_path_to_nt = e;
        }
        lib
unfolding lnk_lib_init
lnk_lib_init_by false b c d e lib = inr (refl, (_, refl, refl))
lnk_lib_init_by true false c d e lib = inr (refl, (_, refl, refl))
lnk_lib_init_by true true false d e lib = inr (refl, (_, refl, refl))
lnk_lib_init_by true true true false e lib = inr (refl, (_, refl, refl))
lnk_lib_init_by true true true true false lib = inr (refl, (_, refl, refl))
lnk_lib_init_by true true true true true lib = inl (refl, refl)

lnk_lib_init_lem : (dll : Ntdll) (lib : Library) → Initialised dll lib
lnk_lib_init_lem dll lib =
    lnk_lib_init_by dll.loaded dll.has_to_dos_error dll.has_free_string dll.has_set_information
      dll.has_path_to_nt lib

module _ (dos_error : ℕ → ℕ) (dll : Ntdll) where
  -- The processes after any calls.
  pub data Reach : Process → Type 0 where
    first : (error : ℕ) → Reach (initial error)
    later :
        {p p' : Process} {b : Bool} (o : Outcome) (replace : Bool)
        → Reach p
        → create_hard_link_to_file dos_error dll o replace p ≡ done (p', b)
        → Reach p'

  abbrev pub Served : Bool → Outcome → Process → Run (Process × Bool) → Type 0
  Served true o p r =
      Good dos_error o p.trace
        (reason_convert dos_error o (if o.ansi then o.byte_to_wide else o.oem_to_wide)) r
  Served false o p r =
      Returns
        (λ p' b.
          (p'.library.status ≡ init_failed)
          × (b ≡ false)
          × (p'.error ≡ call_not_implemented)
          × (p'.trace ≡ p.trace))
        r

  abbrev Later : Bool → Process → Type 0
  Later true p = p.library ≡ ok_library
  Later false p = p.library.status ≡ init_failed

  Served-Later :
      (f : Bool) (o : Outcome) (p p' : Process) (b : Bool)
      → Served f o p (done (p', b))
      → Later f p'
  Served-Later true o p p' b served = served.0
  Served-Later false o p p' b served = served.0

  after_init-Served :
      (o : Outcome) (replace : Bool) (p : Process)
      → Served (found dll) o p (after_init dos_error o replace p (lnk_lib_init dll p.library))
  unfolding after_init
  after_init-Served o replace p = elim (lnk_lib_init_lem dll p.library) [
    | inl (f, e) ↦ rw (f, e) (link_with_lem dos_error o replace p.error p.trace)
    | inr (f, (failed, e, s)) ↦ rw (f, e) (s, refl, refl, refl)
  ]

  Later-Served :
      (f : Bool) (o : Outcome) (replace : Bool) (p : Process)
      → Later f p
      → Served f o p (link_by dos_error dll o replace p p.library.status)
  unfolding link_by
  Later-Served true o replace p same =
      subst
        (λ l.
          let p' : Process = record { library = l; error = p.error; trace = p.trace } in
          Served true o p' (link_by dos_error dll o replace p' l.status))
        (sym same) (link_with_lem dos_error o replace p.error p.trace)
  Later-Served false o replace p fails =
      subst (λ s. Served false o p (link_by dos_error dll o replace p s)) (sym fails)
        (fails, refl, refl, refl)

  abbrev Settled : Process → Type 0
  Settled p = (p.library.status ≡ not_init) ⊎ Later (found dll) p

  Settled-Served :
      (o : Outcome) (replace : Bool) (p : Process)
      → Settled p
      → Served (found dll) o p (create_hard_link_to_file dos_error dll o replace p)
  unfolding create_hard_link_to_file link_by
  Settled-Served o replace p (inl e) =
      subst (λ s. Served (found dll) o p (link_by dos_error dll o replace p s)) (sym e)
        (after_init-Served o replace p)
  Settled-Served o replace p (inr same) = Later-Served (found dll) o replace p same

  Reach-Settled : {p : Process} → Reach p → Settled p
  Reach-Settled (first error) = inl refl
  Reach-Settled (later {p = p} {p' = p'} {b = b} o replace reach e) = inr (
      Served-Later (found dll) o p p' b
        (subst (Served (found dll) o p) e (Settled-Served o replace p (Reach-Settled reach))))

  -- After any calls, a call returns and uses no null pointer. If NTDLL has the four functions, the
  -- call returns true if every step succeeds, and otherwise false with the error of the first step
  -- that fails, as the release that follows a failed opening leaves it. It gives back all that it
  -- got, or all but the name for NTDLL if there was no memory for the link's data. If NTDLL lacks a
  -- function, the call makes no other calls and returns false with ERROR_CALL_NOT_IMPLEMENTED.
  pub Reach-Served :
      {p : Process}
      → Reach p
      → (o : Outcome) (replace : Bool)
      → Served (found dll) o p (create_hard_link_to_file dos_error dll o replace p)
  Reach-Served {p = p} reach o replace = Settled-Served o replace p (Reach-Settled reach)
