-- ===== src/Examples/Priority.antt =====
-- win32/c/setprio.c on a process.
use ltrdata.Prelude.{ℕ, ◌≡◌, refl, true, some, List, [], ◌∷◌}
use ltrdata.Stdlib.{strtoul_auto}
use ltrdata.Priority.{
  Class, idle, class, times, kernel_time, user_time, start_time, Processes, priority, setprio,
  show_class, name_of,
}
use ltrdata.FileTimes.{clock, print_absolute_time}
use ltrdata.Priority.Setting.{Permitted, Answers, setprio-Shows}

-- All processes have one class, which is the world.
abbrev one_class : Processes Class
one_class = record {
  open_process = λ w access pid. (w, some pid);
  set_priority_class = λ w handle new. (new, true);
  get_priority_class = λ w handle. class w;
  get_process_times = λ w handle. times 5 20000000 600000000;
}

one_class-Permitted : (pid : ℕ) → Permitted one_class pid
one_class-Permitted pid = record {
  class_at = λ w p. w;
  pid_of = λ w handle. handle;
  opens = λ w access. (w, pid, refl, refl, refl);
  sets = λ w handle new. (new, refl, refl);
  gets = λ w handle. refl;
}

abbrev pid_text : List ℕ
pid_text = b'4' ∷ b'2' ∷ []

setprio-Shows_example :
    Answers one_class pid_text idle b'a' (setprio one_class idle (pid_text ∷ (b'a' ∷ []) ∷ []))
setprio-Shows_example =
    setprio-Shows one_class pid_text (one_class-Permitted (strtoul_auto pid_text)) idle b'a' []

setprio_run : setprio one_class idle (pid_text ∷ []) ≡ (
  idle,
  priority (b'I' ∷ b'd' ∷ b'l' ∷ b'e' ∷ [])
      ∷ start_time 5
      ∷ kernel_time (clock 0 0 2 0 ∷ [])
      ∷ user_time (clock 0 1 0 0 ∷ [])
      ∷ [],
  0,
)
unfolding setprio show_class name_of print_absolute_time
setprio_run = refl
