-- ===== src/FileTimes/Copying/Copies.antt =====
-- What win32/c/copyft.c does to the files that it is given.
use ltrdata.Prelude.{
  ℕ, suc, ◌+◌, ◌-◌, ◌≡◌, refl, ap, ◌∙◌, Bool, true, false, ◌&&◌, not, some, List, [], ◌∷◌, ◌++◌,
  if◌then◌else◌, arith,
}
use ltrdata.FileTimes.{Times}
use ltrdata.FileTimes.Copying.{
  Information, Target, Event, opened, closed, set_times, set_attributes, copy_to, copy_to_all,
  copy_to_files, copy_times,
}

-- How many handles are open after the events, of which `n` are open before.
abbrev pub open_handles : ℕ → List Event → ℕ
open_handles n [] = n
open_handles n (opened ∷ es) = open_handles (suc n) es
open_handles n (closed ∷ es) = open_handles (n - 1) es
open_handles n (_ ∷ es) = open_handles n es

abbrev pub times_of : List Event → List Times
times_of [] = []
times_of (set_times t ∷ es) = t ∷ times_of es
times_of (_ ∷ es) = times_of es

abbrev pub attributes_of : List Event → List ℕ
attributes_of [] = []
attributes_of (set_attributes a ∷ es) = a ∷ attributes_of es
attributes_of (_ ∷ es) = attributes_of es

-- As many copies of `x` as targets satisfy `p`, and how many of them there are.
abbrev pub for_each {ℓ} : {A : Type ℓ} → (Target → Bool) → A → List Target → List A
for_each p x [] = []
for_each p x (t ∷ ts) = if p t then x ∷ for_each p x ts else for_each p x ts

abbrev pub count : (Target → Bool) → List Target → ℕ
count p [] = 0
count p (t ∷ ts) = if p t then suc (count p ts) else count p ts

abbrev pub settable : Target → Bool
settable t = t.opens && t.sets_times

abbrev pub leaking : Target → Bool
leaking t = t.opens && not t.sets_times

abbrev pub Copied : Information → List Target → List Event → Type 0
Copied info ts es =
    (times_of es ≡ for_each settable info.times ts)
    × (attributes_of es ≡ for_each (λ t. settable t && t.sets_attributes) info.attributes ts)
    × ((n : ℕ) → open_handles n es ≡ n + count leaking ts)

next_target :
    (info : Information) (opens sets_times sets_attributes : Bool) (ts : List Target)
    (es : List Event)
    → Copied info ts es
    → Copied info
        (record { opens = opens; sets_times = sets_times; sets_attributes = sets_attributes } ∷ ts)
        (copy_to info
            (record { opens = opens; sets_times = sets_times; sets_attributes = sets_attributes })
          ++ es)
unfolding copy_to
next_target info false st sa ts es copied = copied
next_target info true false sa ts es (t, a, h) = (t, a, λ n. h (suc n) ∙ omega arith)
next_target info true true false ts es (t, a, h) =
    (ap (◌∷◌ info.times) t, a, λ n. let e : suc n - 1 ≡ n = omega arith in rw e (h n))
next_target info true true true ts es (t, a, h) = (
  ap (◌∷◌ info.times) t,
  ap (◌∷◌ info.attributes) a,
  λ n. let e : suc n - 1 ≡ n = omega arith in rw e (h n),
)

copy_to_all-Copied : (info : Information) (ts : List Target) → Copied info ts (copy_to_all info ts)
unfolding copy_to_all
copy_to_all-Copied info [] = (refl, refl, λ n. omega arith)
copy_to_all-Copied info (t ∷ ts) =
    next_target info t.opens t.sets_times t.sets_attributes ts (copy_to_all info ts)
      (copy_to_all-Copied info ts)

-- The program from a file that opens and has the information `info`.
abbrev pub copies : Information → Target → List Target → List Event × ℕ
copies info output targets =
    copy_times true (record { opens = true; information = some info }) output targets

-- For a file whose times and attributes can be read, and one or more files to copy to, the program
-- returns 0. The times are set on each file that opens and lets them be set, and then the attributes
-- on each of these that lets them be set too. The files that open but do not let their times be set
-- stay open.
pub copy_times-Copied :
    (info : Information) (output target : Target) (targets : List Target)
    → ((copies info output (target ∷ targets)).1 ≡ 0)
      × (times_of (copies info output (target ∷ targets)).0
          ≡ for_each settable info.times (target ∷ targets))
      × (attributes_of (copies info output (target ∷ targets)).0
          ≡ for_each (λ t. settable t && t.sets_attributes) info.attributes (target ∷ targets))
      × (open_handles 0 (copies info output (target ∷ targets)).0
          ≡ count leaking (target ∷ targets))
unfolding copy_times copy_to_files
copy_times-Copied info output target targets =
    let (t, a, h) = copy_to_all-Copied info (target ∷ targets) in (refl, t, a, h 0 ∙ omega arith)
