-- ===== src/Mapping.antt =====
-- win32/c/wmmap.c: `mmap` and `munmap` on the file mappings of Windows.
-- The calls of Windows are the parameter `System`; an address, a length, a handle and an offset are
-- numbers. A set of flags is a record of its bits.
pub mod Views
pub mod Grants
use ltrdata.Prelude.{
  ℕ, ◌+◌, ◌≡◌, ◌⊎◌, inl, inr, Option, none, some, Bool, true, false, ◌||◌, ◌&&◌, not, ◌==◌,
  if◌then◌else◌,
}

pub record Prot : Type 0 where
  pub read : Bool
  pub write : Bool
  pub exec : Bool

pub record Flags : Type 0 where
  pub private_map : Bool
  pub copy : Bool
  pub no_reserve : Bool
  pub rename : Bool
  pub inherit : Bool
  pub no_extend : Bool
  pub has_semaphore : Bool
  pub fixed : Bool

-- `flProtect` without SEC_RESERVE; `no_page` is 0.
pub data Page : Type 0 where
  no_page page_readonly page_readwrite page_writecopy : Page
  page_execute page_execute_read page_execute_readwrite page_execute_writecopy : Page

-- `(flags & MAP_PRIVATE) | (flags & MAP_COPY)`
abbrev pub copies : Flags → Bool
copies flags = flags.private_map || flags.copy

unfoldable pub page : Prot → Flags → Page
page prot flags =
    if prot.exec
    then (if copies flags
        then page_execute_writecopy
        else if prot.write
        then page_execute_readwrite
        else if prot.read
        then page_execute_read
        else page_execute)
    else if copies flags
    then page_writecopy
    else if prot.write
    then page_readwrite
    else if prot.read
    then page_readonly
    else no_page

-- What `mmap` may change in SECTION_ALL_ACCESS: the rights that it takes away, and FILE_MAP_COPY,
-- which is SECTION_QUERY and so stands in SECTION_ALL_ACCESS already.
pub record Access : Type 0 where
  pub map_read : Bool
  pub map_write : Bool
  pub map_execute : Bool
  pub map_copy : Bool

unfoldable pub access : Prot → Flags → Access
access prot flags = record {
  map_read = prot.read;
  map_write = prot.write;
  map_execute = prot.exec;
  map_copy = true || copies flags;
}

-- The values of `GetLastError` that the code tells apart, and of `errno`.
pub data WinError : Type 0 where
  call_not_implemented invalid_handle access_denied not_enough_memory another : WinError

pub data Errno : Type 0 where
  enosys ebadf eacces enomem einval : Errno

abbrev pub errno_of : WinError → Errno
errno_of call_not_implemented = enosys
errno_of invalid_handle = ebadf
errno_of access_denied = eacces
errno_of not_enough_memory = enomem
errno_of another = einval

pub record System (W : Type 0) : Type 0 where
  pub create_file_mapping : W → (fd : ℕ) (page : Page) (reserve : Bool) → W × (WinError ⊎ ℕ)
  pub map_view : W → (map : ℕ) (access : Access) (off len addr : ℕ) → W × (WinError ⊎ ℕ)
  pub close_handle : W → ℕ → W
  pub unmap_view : W → ℕ → W × Option WinError

-- `flags` that the code refuses.
abbrev pub unsupported : Flags → Bool
unsupported flags = flags.rename || flags.inherit || flags.no_extend || flags.has_semaphore

module _ {W : Type 0} (sys : System W) where
  -- What follows MapViewOfFileEx; the handle is closed on both ways.
  unfoldable pub after_view : Flags → (map addr : ℕ) → W × (WinError ⊎ ℕ) → W × (Errno ⊎ ℕ)
  after_view flags map addr (w, inl e) = (sys.close_handle w map, inl (errno_of e))
  after_view flags map addr (w, inr view) =
      let closed = sys.close_handle w map in
      if flags.fixed && not (view == addr)
      then ((sys.unmap_view closed view).0, inl enomem)
      else (closed, inr view)

  unfoldable pub after_create :
      (addr len : ℕ) → Prot → Flags → (off : ℕ) → W × (WinError ⊎ ℕ) → W × (Errno ⊎ ℕ)
  unfolding after_view
  after_create addr len prot flags off (w, inl e) = (w, inl (errno_of e))
  after_create addr len prot flags off (w, inr map) =
      after_view flags map addr (sys.map_view w map (access prot flags) off len addr)

  unfoldable pub mmap : W → (addr len : ℕ) → Prot → Flags → (fd off : ℕ) → W × (Errno ⊎ ℕ)
  unfolding after_create
  mmap w addr len prot flags fd off =
      if unsupported flags
      then (w, inl enosys)
      else after_create addr len prot flags off
          (sys.create_file_mapping w fd (page prot flags) flags.no_reserve)

  -- `munmap` gives no error for the 0 of the source.
  unfoldable pub after_unmap : W × Option WinError → W × Option Errno
  after_unmap (w, none) = (w, none)
  after_unmap (w, some e) = (w, some (errno_of e))

  unfoldable pub munmap : W → (addr len : ℕ) → W × Option Errno
  unfolding after_unmap
  munmap w addr len = after_unmap (sys.unmap_view w addr)
