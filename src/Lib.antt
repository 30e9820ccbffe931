-- ===== src/Lib.antt =====
-- ltrdata is a collection of small C programs and the helpers that they share, for Windows and
-- POSIX systems. This library models the programs whose own code decides what they compute.
--
-- Parts and files:
--   * Prelude: names, tests, lists and integers that all parts use, and bytes written over a list.
--     `Run` is how a piece of C code ends: `done`, `trap` for what C leaves undefined, `spin` for a
--     loop out of fuel.
--   * Math: win32/c/wimath.c. `gcd` and `getprimefactors`; the callback of the latter is a function
--     on the user data, and an `int` is an integer with C's remainder `crem`.
--   * Strip: win32/c/stripcr.c. `convert` finds the runs of bytes between carriage returns and
--     calls back for each. Its two clients are Strip.Stream (`wrstdout`, and `main` without
--     arguments) and Strip.InPlace (`wrfmap`, and `main` for one file). `Sender` in Strip.Convert is
--     the contract between `convert` and a callback. In a file both mappings show the same bytes, so
--     `convert` reads through the state that the callback changes.
--   * Text: win32/c/wmemstr.c, win32/c/wmemwcs.c, win32/c/olofstr.c (as win32/c/wstring.c) and
--     posix/strlwr.c.
--   * Filters: win32/c/rot13.c, win32/c/chr7filter.c, win32/c/extrtext32.c and
--     win32/c/aaofiltr.c. They share Filters.Console: `ReadFile` and `WriteFile` on a world, and
--     `Reliable`, what the filters rely on; `memory_reliable` is a console in memory that keeps it.
--   * Stdlib: `sprintf` with "%u" and `strtoul`, as the C standard describes them.
--   * Personnr: win32/c/personnr.c. `SystemTimeToFileTime` is the parameter `valid_date`.
--   * Compare: win32/fdf/chkfile.c. `File` holds what the calls of Windows return for a file.
--   * Split: win32/c/fsplit32.c. `Files` are the calls that the loop makes, and Split.Pieces.Disk what
--     they do on a disk without errors, where a file that exists is not cut when it is opened.
--   * Prime: win32/c/primtal.c, a client of `getprimefactors`.
--   * Guess: win32/c/gissatal.c. The number and the guesses are arguments.
--   * Fraction: win32/c/fraction.c, a client of `gcd` and of `strtoul`.
--   * Resize: win32/c/chsize32.c. `Volume` are the calls of Windows, `sscanf` is a parameter, and
--     Resize.Sizes.Working is a volume without errors.
--   * Priority: win32/c/setprio.c, a client of `print_absolute_time`. `Processes` are the calls of
--     Windows.
--   * Philosophers: posix/filosof.cpp and posix/nyfilosof.cpp, as steps of five philosophers in any
--     order. `philosopher` gives the next call on a semaphore, or none if it blocks.
--   * Truncate: win32/cpp/trunczerotail.cpp on an open file; `Calls` tells which calls of Windows
--     succeed.
--   * Mapping: win32/c/wmmap.c. `System` are the calls of Windows, and Mapping.Views.Ledger is what
--     their documentation says of the open handles and the views.
--   * Link: win32/fdf/lnk.c. A process has the pointers into NTDLL, the last error and the calls that
--     were made; `Outcome` says how the calls of Windows end.
--   * Random: win32/c/genpwds.c and win32/c/lotto.c. The values of `rand` are a function on their
--     index.
--   * FileTimes: win32/c/roundft.c, and `PrintAbsoluteTime` of win32/c/wtimeflt.c.
--     FileTimes.Copying: win32/c/copyft.c.
--   * Rawcopy: win32/cpp/rawcopy.cpp, the loop over the blocks. `Device` are the calls of Windows on
--     the input and the output, and Rawcopy.Reliable what they do without errors.
--     Rawcopy.Adjust is the option -a behind it.
--   * Replace: win32/cpp/reptxt32.cpp. `CompareString` is the parameter `compare`, and `Outcome` says
--     which calls of Windows on a file succeed.
--   * Series: win32/cpp/primeser.cpp. The array of the caller is a list, and the nested call of
--     `isprimeno` gets less fuel; a number is less than its fuel.
--   * Extrbin: win32/cpp/extrbin.cpp, the loop over the device. Its console is Filters.Console.Whole,
--     where each read gets as much as there is; so is that of Txtcnv.
--   * Txtcnv: win32/cpp/txtcnv32.cpp, the loop on the standard handles. `CodePages` are the
--     conversions of Windows.
--   * Examples: each theorem on a concrete input, and runs of the models.
--
-- Fuel: `gcd` gets one step more than the divisor's magnitude, `getprimefactors` one more than its
-- argument, `wrfmap` two more than the length of the run, and `strip_file` one more than the length
-- of the file; a filter, a comparison, the splitter, rawcopy, extrbin and txtcnv32 need one more
-- than the bytes to be read, the loop on one read of rawcopy one more than its retries, reptxt32 two
-- more than the bytes of the file, and the loops of primeser one more than the number.
-- `scan_loop` gets two more than the length of the file, `size_bits` the 32 bits of its argument,
-- and a draw as many random numbers as are sure to have a fitting one. Each theorem below on a run
-- has its fuel suffice. The window size MMPSIZE of win32/c/stripcr.c is a parameter; files of more
-- than one window have no theorem on the whole run.
--
-- Not modelled: the opening and measuring of files, prompts, messages and sleeps; copies of other
-- projects (getopt, bzip2, factor, cut, whois); and the programs that only call Windows.
pub mod Prelude
pub mod Math
pub mod Resize
pub mod Strip
pub mod Text
pub mod Filters
pub mod Stdlib
pub mod Personnr
pub mod Compare
pub mod FileTimes
pub mod Extrbin
pub mod Fraction
pub mod Guess
pub mod Split
pub mod Prime
pub mod Link
pub mod Mapping
pub mod Philosophers
pub mod Priority
pub mod Random
pub mod Rawcopy
pub mod Replace
pub mod Series
pub mod Truncate
pub mod Txtcnv
pub mod Examples
