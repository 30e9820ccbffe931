-- ===== src/Priority.antt =====
-- win32/c/setprio.c: sets or shows the priority class of a process.
-- The calls of Windows are the parameter `Processes`; the help, the messages on errors and the
-- conversion of the start time to local time are left out.
pub mod Setting
use ltrdata.Prelude.{
  ℕ, ◌+◌, ◌/◌, ◌%◌, ◌-◌, ◌^◌, Bool, true, false, not, Option, none, some, List, [], ◌∷◌, ◌++◌, map,
  ◌==◌, ltb, if◌then◌else◌,
}
use ltrdata.Stdlib.{print_u, strtoul_auto}
use ltrdata.FileTimes.{Field, print_absolute_time}

pub data Class : Type 0 where
  high idle below_normal normal above_normal realtime : Class

-- `c | 0x20`
abbrev pub lower_bit : ℕ → ℕ
lower_bit c = if c / 32 % 2 == 0 then c + 32 else c

abbrev pub class_of : ℕ → Option Class
class_of c =
    if lower_bit c == b'h'
    then some high
    else if lower_bit c == b'i'
    then some idle
    else if lower_bit c == b'b'
    then some below_normal
    else if lower_bit c == b'n'
    then some normal
    else if lower_bit c == b'a'
    then some above_normal
    else if lower_bit c == b'r'
    then some realtime
    else none

-- What `GetPriorityClass` gives: a class, a number that the program does not know, or 0 on failure.
pub data Reply : Type 0 where
  failed : Reply
  class : Class → Reply
  unknown : ℕ → Reply

-- printf's `%i` on a DWORD.
abbrev pub print_i : ℕ → List ℕ
print_i n = if ltb n (2 ^ 31) then print_u n else b'-' ∷ print_u (2 ^ 32 - n)

-- The `switch` that prints the class: a name, or the number.
unfoldable pub name_of : Class → List ℕ
name_of high = b'H' ∷ b'i' ∷ b'g' ∷ b'h' ∷ []
name_of idle = b'I' ∷ b'd' ∷ b'l' ∷ b'e' ∷ []
name_of below_normal =
    b'B' ∷ b'e' ∷ b'l' ∷ b'o' ∷ b'w' ∷ b' ' ∷ b'n' ∷ b'o' ∷ b'r' ∷ b'm' ∷ b'a' ∷ b'l' ∷ []
name_of normal = b'N' ∷ b'o' ∷ b'r' ∷ b'm' ∷ b'a' ∷ b'l' ∷ []
name_of above_normal =
    b'A' ∷ b'b' ∷ b'o' ∷ b'v' ∷ b'e' ∷ b' ' ∷ b'n' ∷ b'o' ∷ b'r' ∷ b'm' ∷ b'a' ∷ b'l' ∷ []
name_of realtime = b'R' ∷ b'e' ∷ b'a' ∷ b'l' ∷ b't' ∷ b'i' ∷ b'm' ∷ b'e' ∷ []

-- What `GetProcessTimes` gives: the times, or whether the error is ERROR_CALL_NOT_IMPLEMENTED.
pub data Report : Type 0 where
  not_implemented error : Report
  times : (creation kernel user : ℕ) → Report

pub data Access : Type 0 where
  set_information query_information : Access

pub record Processes (W : Type 0) : Type 0 where
  pub open_process : W → Access → (pid : ℕ) → W × Option ℕ
  pub set_priority_class : W → ℕ → Class → W × Bool
  pub get_priority_class : W → ℕ → Reply
  pub get_process_times : W → ℕ → Report

-- The lines that are printed.
pub data Line : Type 0 where
  priority : List ℕ → Line
  start_time : ℕ → Line
  kernel_time user_time : List Field → Line

-- The lines on the times, and the exit code.
abbrev pub time_lines : Report → List Line × ℕ
time_lines not_implemented = ([], 0)
time_lines error = ([], 1)
time_lines (times creation kernel user) =
    if creation == 0 then ([], 0) else if user == 0 then (start_time creation ∷ [], 0) else (
      start_time creation
          ∷ kernel_time (print_absolute_time kernel)
          ∷ user_time (print_absolute_time user)
          ∷ [],
      0,
    )

abbrev pub reply_lines : Reply → Report → List Line × ℕ
reply_lines failed report = ([], 2)
reply_lines (class c) report =
    let (lines, code) = time_lines report in (priority (name_of c) ∷ lines, code)
reply_lines (unknown n) report =
    let (lines, code) = time_lines report in (priority (print_i n) ∷ lines, code)

module _ {W : Type 0} (processes : Processes W) where
  unfoldable pub after_open : Class → W × Option ℕ → W × List Line × ℕ
  after_open new (w, none) = (w, [], 1)
  after_open new (w, some handle) =
      let (w', set) = processes.set_priority_class w handle new in
      if set then (w', [], 0) else (w', [], 2)

  unfoldable pub set_class : W → ℕ → Option Class → W × List Line × ℕ
  unfolding after_open
  set_class w pid none = (w, [], 2 ^ 32 - 1)
  set_class w pid (some new) = after_open new (processes.open_process w set_information pid)

  unfoldable pub show_class : W × Option ℕ → W × List Line × ℕ
  show_class (w, none) = (w, [], 1)
  show_class (w, some handle) =
      let (lines, code) =
        reply_lines (processes.get_priority_class w handle)
          (processes.get_process_times w handle) in
      (w, lines, code)

  -- `argv[2][0]`; behind the end of an empty string stands a NUL.
  abbrev pub first_char : List ℕ → ℕ
  first_char [] = 0
  first_char (c ∷ cs) = c

  -- `main` on its arguments: the world, the lines and the exit code.
  unfoldable pub setprio : W → List (List ℕ) → W × List Line × ℕ
  unfolding set_class show_class
  setprio w [] = (w, [], 0)
  setprio w (pid ∷ []) = show_class (processes.open_process w query_information (strtoul_auto pid))
  setprio w (pid ∷ letter ∷ rest) = set_class w (strtoul_auto pid) (class_of (first_char letter))
