-- ===== src/Web/Schedule/Calendar/Selected.antt =====
-- The selected day is one of the month that is shown.
use postal.Prelude.{◌≡◌, Option, none, some, List, if◌then◌else◌, Bool-cases, inl, inr}
use mathlib.Core.List.{Mem}
use postal.Web.Schedule.Calendar.{
  View, month, Direction, DateFns, Screen, days, step, set_view, is_selected, click, range_start,
  range_end,
}

module _ {Date : Type 0} (f : DateFns Date) where
  -- What the user does; a day can be clicked where the month is shown.
  pub data Step : Screen Date → Screen Date → Type 0 where
    steps : {s : Screen Date} (dir : Direction) → Step s (step f dir s)
    sets : {s : Screen Date} (v : View) → Step s (set_view f v s)
    clicks : {s : Screen Date} (d : Date) → s.view ≡ month → Mem d (days f s) → Step s (click f d s)

  pub data Reach (s : Screen Date) : Screen Date → Type 0 where
    here : Reach s s
    further : {t u : Screen Date} → Reach s t → Step t u → Reach s u

  -- A selected day is a day of the month that is shown.
  abbrev pub IsShown : View → List Date → Option Date → Type 0
  IsShown v ds none = Unit
  IsShown v ds (some d) = (v ≡ month) × Mem d ds

  click-IsShown :
      (d : Date) (s : Screen Date)
      → s.view ≡ month
      → Mem d (days f s)
      → IsShown s.view (days f s) (if is_selected f d s.selected_day then none else some d)
  click-IsShown d s v m = elim (Bool-cases (is_selected f d s.selected_day)) [
    | inl h ↦ rw h tt
    | inr h ↦ rw h (v, m)
  ]

  Step-IsShown :
      {s t : Screen Date}
      → Step s t
      → IsShown s.view (days f s) s.selected_day
      → IsShown t.view (days f t) t.selected_day
  unfolding step set_view click days range_start range_end
  Step-IsShown (steps dir) h = tt
  Step-IsShown (sets v) h = tt
  Step-IsShown (clicks {s = s} d v m) h = click-IsShown d s v m

  -- Whatever is clicked, from a screen on which it holds, a selected day is always a day of the month that
  -- is shown: moving on and changing the view forget it.
  pub Reach-IsShown :
      {s t : Screen Date}
      → IsShown s.view (days f s) s.selected_day
      → Reach s t
      → IsShown t.view (days f t) t.selected_day
  Reach-IsShown h here = h
  Reach-IsShown h (further r step) = Step-IsShown step (Reach-IsShown h r)
