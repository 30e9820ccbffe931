-- ===== src/Examples/Link.antt =====
-- win32/fdf/lnk.c in processes with and without the functions of NTDLL.
use ltrdata.Prelude.{ℕ, ◌≡◌, refl, true, false, none, some, done, [], ◌∷◌}
use ltrdata.Link.{
  Ntdll, nt_name, link_data, wide_name, file, gets, frees, links, Outcome, lnk_lib_init,
  create_hard_link_to_file,
}
use ltrdata.Link.Leaks.{ok}
use ltrdata.Link.Calls.{initial, first, later, Served, Reach-Served}

abbrev new_ntdll : Ntdll
new_ntdll = record {
  loaded = true;
  has_to_dos_error = true;
  has_free_string = true;
  has_set_information = true;
  has_path_to_nt = true;
}

-- An older one.
abbrev old_ntdll : Ntdll
old_ntdll = record {
  loaded = true;
  has_to_dos_error = true;
  has_free_string = true;
  has_set_information = true;
  has_path_to_nt = false;
}

-- All succeeds; there is no memory for the link's data; the link exists already.
abbrev fine : Outcome
fine = record {
  ansi = true;
  byte_to_wide = none;
  oem_to_wide = none;
  opens = none;
  finds_path = true;
  allocate = none;
  set_status = none;
  after_free = λ e. 0;
}

abbrev no_memory : Outcome
no_memory = record {
  ansi = true;
  byte_to_wide = none;
  oem_to_wide = none;
  opens = none;
  finds_path = true;
  allocate = some 8;
  set_status = none;
  after_free = λ e. 0;
}

abbrev exists : Outcome
exists = record {
  ansi = false;
  byte_to_wide = none;
  oem_to_wide = none;
  opens = none;
  finds_path = true;
  allocate = none;
  set_status = some 53;
  after_free = λ e. 0;
}

abbrev dos : ℕ → ℕ
dos status = 183

linked :
    create_hard_link_to_file dos new_ntdll fine true (initial 0)
    ≡ done (
      ok 0 (
          frees file
          ∷ frees wide_name
          ∷ frees link_data
          ∷ frees nt_name
          ∷ links true
          ∷ gets link_data
          ∷ gets nt_name
          ∷ gets file
          ∷ gets wide_name
          ∷ []),
      true,
    )
unfolding create_hard_link_to_file lnk_lib_init
linked = refl

Reach-Served_example :
    Served dos new_ntdll true exists
      (ok 0 (
        frees file
        ∷ frees wide_name
        ∷ frees link_data
        ∷ frees nt_name
        ∷ links true
        ∷ gets link_data
        ∷ gets nt_name
        ∷ gets file
        ∷ gets wide_name
        ∷ []))
      (create_hard_link_to_file dos new_ntdll exists false (
        ok 0 (
          frees file
          ∷ frees wide_name
          ∷ frees link_data
          ∷ frees nt_name
          ∷ links true
          ∷ gets link_data
          ∷ gets nt_name
          ∷ gets file
          ∷ gets wide_name
          ∷ [])))
Reach-Served_example = Reach-Served dos new_ntdll (later fine true (first 0) linked) exists false

-- Without memory for the link's data, the name for NTDLL is not given back.
no_memory_run :
    create_hard_link_to_file dos new_ntdll no_memory true (initial 0)
    ≡ done (
      ok 8 (frees file ∷ frees wide_name ∷ gets nt_name ∷ gets file ∷ gets wide_name ∷ []),
      false,
    )
unfolding create_hard_link_to_file lnk_lib_init
no_memory_run = refl
