-- ===== src/FileTimes/Copying.antt =====
-- win32/c/copyft.c: gives files the times and attributes of another one.
pub mod Copies
use ltrdata.Prelude.{
  ℕ, Bool, true, false, not, Option, none, some, List, [], ◌∷◌, ◌++◌, if◌then◌else◌,
}
use ltrdata.FileTimes.{Times}

pub record Information : Type 0 where
  pub times : Times
  pub attributes : ℕ

-- What the calls of Windows give for the file to copy from, or standard input, and for a file to
-- copy to, or standard output.
pub record Source : Type 0 where
  pub opens : Bool
  pub information : Option Information

pub record Target : Type 0 where
  pub opens : Bool
  pub sets_times : Bool
  pub sets_attributes : Bool

-- The calls on handles and files that matter, and the messages, in order.
pub data Event : Type 0 where
  opened closed message : Event
  set_times : Times → Event
  set_attributes : ℕ → Event

-- One round of the loop on the targets: a failed `SetFileTime` goes on without `CloseHandle`.
unfoldable pub copy_to : Information → Target → List Event
copy_to info target =
    if not target.opens
    then message ∷ []
    else if not target.sets_times
    then opened ∷ message ∷ []
    else opened
      ∷ set_times info.times
      ∷ closed
      ∷ (if target.sets_attributes then set_attributes info.attributes ∷ [] else message ∷ [])

unfoldable pub copy_to_all : Information → List Target → List Event
unfolding copy_to
copy_to_all info [] = []
copy_to_all info (target ∷ targets) = copy_to info target ++ copy_to_all info targets

-- The events and the exit code from GetFileInformationByHandle on, for standard output.
unfoldable pub copy_to_output : Target → Option Information → List Event × ℕ
copy_to_output output none = (message ∷ [], 1)
copy_to_output output (some info) =
    if not output.sets_times then (message ∷ [], 2) else (set_times info.times ∷ [], 0)

-- The same for the files that are named.
unfoldable pub copy_to_files : List Target → Option Information → List Event × ℕ
unfolding copy_to_all
copy_to_files targets none = (message ∷ [], 1)
copy_to_files targets (some info) = (closed ∷ copy_to_all info targets, 0)

-- `main`: without arguments on standard input and output; with one on a file and standard output.
unfoldable pub copy_times :
    (named : Bool) (source : Source) (output : Target) (targets : List Target) → List Event × ℕ
unfolding copy_to_output copy_to_files
copy_times false source output targets = copy_to_output output source.information
copy_times true source output [] =
    if not source.opens
    then (message ∷ [], 1)
    else let (events, code) = copy_to_output output source.information in (opened ∷ events, code)
copy_times true source output (target ∷ targets) =
    if not source.opens
    then (message ∷ [], 1)
    else let (events, code) = copy_to_files (target ∷ targets) source.information in
      (opened ∷ events, code)
