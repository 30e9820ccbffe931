-- ===== src/Mapping/Grants.antt =====
-- What the pages of a mapping allow, against what its caller asked for.
use ltrdata.Prelude.{◌≡◌, Bool, true, false, ◌||◌, ◌&&◌, not, arith}
use ltrdata.Mapping.{
  Prot, Flags, Page, no_page, page_readwrite, page_writecopy, page_execute, page_execute_read,
  page_execute_readwrite, page_execute_writecopy, copies, page,
}

-- The rights that the constants of Windows name.
abbrev pub readable : Page → Bool
readable no_page = false
readable page_execute = false
readable _ = true

-- A store changes the file.
abbrev pub stores : Page → Bool
stores page_readwrite = true
stores page_execute_readwrite = true
stores _ = false

-- A store changes a copy of the page.
abbrev pub stores_copy : Page → Bool
stores_copy page_writecopy = true
stores_copy page_execute_writecopy = true
stores_copy _ = false

abbrev pub executable : Page → Bool
executable page_execute = true
executable page_execute_read = true
executable page_execute_readwrite = true
executable page_execute_writecopy = true
executable _ = false

-- The pages are executable just if that was asked for; a store reaches the file just if it was
-- asked for on a mapping that is neither private nor a copy, and a copy just if the mapping is
-- private or a copy; they are readable just if reading or writing was asked for or the mapping
-- is such.
pub page-grants :
    (prot : Prot) (flags : Flags)
    → (executable (page prot flags) ≡ prot.exec)
      × (stores (page prot flags) ≡ (prot.write && not (copies flags)))
      × (stores_copy (page prot flags) ≡ copies flags)
      × (readable (page prot flags) ≡ (prot.read || prot.write || copies flags))
unfolding page
page-grants prot flags = (ground arith, ground arith, ground arith, ground arith)
