-- ===== src/Link.antt =====
-- win32/fdf/lnk.c: hard links through the functions of NTDLL, which are looked up at the first call.
-- A process has the library's variables, the last error, and the calls that were made, the last one first.
-- `Outcome` says how the calls of Windows end: `none` is success, `some e` the error they leave.
pub mod Calls
pub mod Leaks
use ltrdata.Prelude.{
  ℕ, Bool, true, false, not, Option, none, some, Run, done, trap, List, [], ◌∷◌, ◌++◌,
  if◌then◌else◌,
}

pub data LibStatus : Type 0 where
  not_init init_failed init_ok : LibStatus

-- A pointer is true unless it is null.
pub record Library : Type 0 where
  pub status : LibStatus
  pub to_dos_error : Bool
  pub free_string : Bool
  pub set_information : Bool
  pub path_to_nt : Bool

-- What GetModuleHandle and GetProcAddress find.
pub record Ntdll : Type 0 where
  pub loaded : Bool
  pub has_to_dos_error : Bool
  pub has_free_string : Bool
  pub has_set_information : Bool
  pub has_path_to_nt : Bool

abbrev failed_with : (to_dos_error free_string set_information path_to_nt : Bool) → Library
failed_with a b c d = record {
  status = init_failed;
  to_dos_error = a;
  free_string = b;
  set_information = c;
  path_to_nt = d;
}

-- The library with all four functions found.
abbrev pub ok_library : Library
ok_library = record {
  status = init_ok;
  to_dos_error = true;
  free_string = true;
  set_information = true;
  path_to_nt = true;
}

-- `LnkLibInit`: each pointer is set by turns, up to the first that is not found.
unfoldable pub lnk_lib_init : Ntdll → Library → Library × Bool
lnk_lib_init dll lib =
    if not dll.loaded
    then (failed_with lib.to_dos_error lib.free_string lib.set_information lib.path_to_nt, false)
    else if not dll.has_to_dos_error
    then (
      failed_with dll.has_to_dos_error lib.free_string lib.set_information lib.path_to_nt,
      false,
    )
    else if not dll.has_free_string
    then (failed_with true dll.has_free_string lib.set_information lib.path_to_nt, false)
    else if not dll.has_set_information
    then (failed_with true true dll.has_set_information lib.path_to_nt, false)
    else if not dll.has_path_to_nt
    then (failed_with true true true dll.has_path_to_nt, false)
    else (ok_library, true)

-- What a call gives and what must be given back: the name for NTDLL, the buffer of the link's data,
-- the name in wide characters, and the handle of the file.
pub data Thing : Type 0 where
  nt_name link_data wide_name file : Thing

pub data Event : Type 0 where
  gets frees : Thing → Event
  links : (replace : Bool) → Event

pub record Process : Type 0 where
  pub library : Library
  pub error : ℕ
  pub trace : List Event

pub record Outcome : Type 0 where
  pub ansi : Bool
  pub byte_to_wide : Option ℕ
  pub oem_to_wide : Option ℕ
  pub opens : Option ℕ
  pub finds_path : Bool
  pub allocate : Option ℕ
  pub set_status : Option ℕ
  -- What the calls that give things back make of the last error.
  pub after_free : ℕ → ℕ

abbrev pub set_error : ℕ → Process → Process
set_error e p = record { library = p.library; error = e; trace = p.trace }

abbrev pub emit : Event → Process → Process
emit event p = record { library = p.library; error = p.error; trace = event ∷ p.trace }

abbrev pub release : Outcome → Thing → Process → Process
release o thing p = set_error (o.after_free p.error) (emit (frees thing) p)

abbrev pub path_not_found : ℕ
path_not_found = 3

abbrev pub call_not_implemented : ℕ
call_not_implemented = 120

-- What follows `CreateHardLinkToOpenFile`: the error is kept across the releases.
unfoldable pub after_link : Outcome → Run (Process × Bool) → Run (Process × Bool)
after_link o trap = trap
after_link o Run.spin = Run.spin
after_link o (done (p, true)) = done (release o file (release o wide_name p), true)
after_link o (done (p, false)) =
    done (set_error p.error (release o file (release o wide_name p)), false)

-- `RtlNtStatusToDosError`.
module _ (dos_error : ℕ → ℕ) where
  -- What follows NtSetInformationFile and the two releases.
  unfoldable pub after_set : Process → Option ℕ → Run (Process × Bool)
  after_set p none = done (p, true)
  after_set p (some status) =
      if not p.library.to_dos_error then trap else done (set_error (dos_error status) p, false)

  unfoldable pub after_allocate : Outcome → Bool → Process → Option ℕ → Run (Process × Bool)
  unfolding after_set
  after_allocate o replace p (some e) = done (set_error e p, false)
  after_allocate o replace p none =
      let set = emit (links replace) (emit (gets link_data) p) in
      let freed = release o link_data (release o nt_name set) in
      if not p.library.set_information
      then trap
      else if not p.library.free_string
      then trap
      else after_set freed o.set_status

  unfoldable pub create_hard_link_to_open_file : Outcome → Bool → Process → Run (Process × Bool)
  unfolding after_allocate
  create_hard_link_to_open_file o replace p =
      if not p.library.path_to_nt
      then trap
      else if not o.finds_path
      then done (set_error path_not_found p, false)
      else after_allocate o replace (emit (gets nt_name) p) o.allocate

  unfoldable pub after_open : Outcome → Bool → Process → Option ℕ → Run (Process × Bool)
  unfolding after_link create_hard_link_to_open_file
  after_open o replace p (some e) = done (release o wide_name (set_error e p), false)
  after_open o replace p none =
      after_link o (create_hard_link_to_open_file o replace (emit (gets file) p))

  unfoldable pub after_convert : Outcome → Bool → Process → Option ℕ → Run (Process × Bool)
  unfolding after_open
  after_convert o replace p (some e) = done (set_error e p, false)
  after_convert o replace p none = after_open o replace (emit (gets wide_name) p) o.opens

  -- The rest of `CreateHardLinkToFile`, once the library is set up.
  unfoldable pub link_with : Outcome → Bool → Process → Run (Process × Bool)
  unfolding after_convert
  link_with o replace p =
      after_convert o replace p (if o.ansi then o.byte_to_wide else o.oem_to_wide)

  unfoldable pub after_init : Outcome → Bool → Process → Library × Bool → Run (Process × Bool)
  unfolding link_with
  after_init o replace p (lib, false) =
      done (record { library = lib; error = call_not_implemented; trace = p.trace }, false)
  after_init o replace p (lib, true) =
      link_with o replace (record { library = lib; error = p.error; trace = p.trace })

  unfoldable pub link_by : Ntdll → Outcome → Bool → Process → LibStatus → Run (Process × Bool)
  unfolding after_init link_with
  link_by dll o replace p init_failed = done (set_error call_not_implemented p, false)
  link_by dll o replace p not_init = after_init o replace p (lnk_lib_init dll p.library)
  link_by dll o replace p init_ok = link_with o replace p

  unfoldable pub create_hard_link_to_file : Ntdll → Outcome → Bool → Process → Run (Process × Bool)
  unfolding link_by
  create_hard_link_to_file dll o replace p = link_by dll o replace p p.library.status
