-- ===== src/Web/Schedule/Calendar.antt =====
-- web/src/features/schedule/calendar-screen.tsx. Dates are date-fns's: what the screen calls of it is
-- the record `DateFns`, and what the theorems rely on is the record of its documented laws, `Laws`.
pub mod Days
pub mod Behind
pub mod Selected
use postal.Prelude.{
  ℕ, ◌+◌, ◌-◌, ◌≤◌, ◌≡◌, String, Text, Option, none, some, List, [], ◌∷◌, map, Bool, true, false,
  ◌&&◌, ltb, ◌==◌, if◌then◌else◌, length, take, filter, value_or, or_else, str_eq, is_some,
}
use postal.Schema.{Job, Channel}
use postal.Query.{Query}
use postal.Web.Data.Schedule.{use_calendar}
use postal.Web.Format.{at_handle}
use postal.Web.Schedule.JobItem.{Tone, job_tone}

pub data Direction : Type 0 where
  next previous : Direction

pub data View : Type 0 where
  month week : View

pub record DateFns (Date : Type 0) : Type 0 where
  pub start_of_month : Date → Date
  pub end_of_month : Date → Date
  pub start_of_week : Date → Date
  pub end_of_week : Date → Date
  pub add_months : Direction → Date → Date  -- by one
  pub add_weeks : Direction → Date → Date  -- by one
  pub add_day : Date → Date
  pub each_day : Date → Date → List Date
  pub is_same_day : Date → Date → Bool
  pub iso : Date → String  -- `toISOString`
  pub date : String → Date  -- `new Date(…)`

-- `n` numbers from `first` on
abbrev pub span : ℕ → ℕ → List ℕ
span first Prim.Native.Nat.zero = []
span first (Prim.Native.Nat.suc n) = first ∷ span (first + 1) n

-- Every date has a day of the calendar, counted from a day in the past; `eachDayOfInterval` gives each
-- day between two dates once, and `isSameDay` compares days.
pub record Laws {Date : Type 0} (f : DateFns Date) : Type 0 where
  pub day : Date → ℕ
  pub is_same_day-day : (a b : Date) → f.is_same_day a b ≡ (day a == day b)
  pub each_day-day :
      (a b : Date) → day a ≤ day b → map day (f.each_day a b) ≡ span (day a) (day b + 1 - day a)
  pub start_of_week-day : (d : Date) → day (f.start_of_week d) ≤ day d
  pub end_of_week-day : (d : Date) → day d ≤ day (f.end_of_week d)
  pub start_of_month-day : (d : Date) → day (f.start_of_month d) ≤ day d
  pub end_of_month-day : (d : Date) → day d ≤ day (f.end_of_month d)
  pub add_day-day : (d : Date) → day (f.add_day d) ≡ day d + 1

pub record Screen (Date : Type 0) : Type 0 where
  pub view : View
  pub cursor : Date
  pub selected_day : Option Date

-- What a day of the month shows: at most two jobs, and how many more there are.
pub record Cell (Date : Type 0) : Type 0 where
  pub day : Date
  pub shown : List Job
  pub more : Option ℕ

abbrev pub more_than : ℕ → Option ℕ
more_than n = if ltb 2 n then some (n - 2) else none

abbrev pub with_jobs {ℓ} :
    {Date : Type ℓ} → Date → List Job → List (Date × List Job) → List (Date × List Job)
with_jobs day [] rest = rest
with_jobs day (j ∷ js) rest = (day, j ∷ js) ∷ rest

module _ {Date : Type 0} (f : DateFns Date) where
  unfoldable pub mounted : Date → Screen Date
  mounted today = record { view = month; cursor = today; selected_day = none }

  abbrev pub first_of : View → Date → Date
  first_of month d = f.start_of_week (f.start_of_month d)
  first_of week d = f.start_of_week d

  abbrev pub last_of : View → Date → Date
  last_of month d = f.end_of_week (f.end_of_month d)
  last_of week d = f.end_of_week d

  unfoldable pub range_start : Screen Date → Date
  range_start s = first_of s.view s.cursor

  unfoldable pub range_end : Screen Date → Date
  range_end s = last_of s.view s.cursor

  -- The query of the jobs, up to the day behind the last one.
  unfoldable pub calendar_query : Option String → Screen Date → Query (Option (List Job)) (List Job)
  unfolding range_start range_end
  calendar_query ws s =
      use_calendar ws (some (f.iso (range_start s))) (some (f.iso (f.add_day (range_end s))))

  unfoldable pub days : Screen Date → List Date
  unfolding range_start range_end
  days s = f.each_day (range_start s) (range_end s)

  unfoldable pub jobs_on : Option (List Job) → Date → List Job
  jobs_on jobs day = filter (λ j. f.is_same_day (f.date j.run_at) day) (value_or jobs [])

  abbrev pub moved : View → Direction → Date → Date
  moved month dir d = f.add_months dir d
  moved week dir d = f.add_weeks dir d

  unfoldable pub step : Direction → Screen Date → Screen Date
  step dir s = record s { selected_day = none; cursor = moved s.view dir s.cursor }

  unfoldable pub set_view : View → Screen Date → Screen Date
  set_view v s = record s { view = v; selected_day = none }

  -- `selectedDay && isSameDay(day, selectedDay)`
  abbrev pub is_selected : Date → Option Date → Bool
  is_selected day none = false
  is_selected day (some selected) = f.is_same_day day selected

  -- A click on a day of the month.
  unfoldable pub click : Date → Screen Date → Screen Date
  click day s = record s {
    selected_day = if is_selected day s.selected_day then none else some day;
  }

  unfoldable pub cell : Option (List Job) → Date → Cell Date
  unfolding jobs_on
  cell jobs day =
      let day_jobs = jobs_on jobs day in
      record { day = day; shown = take 2 day_jobs; more = more_than (length day_jobs) }

  -- The days of a week that have jobs.
  unfoldable pub week_rows : Option (List Job) → List Date → List (Date × List Job)
  unfolding jobs_on
  week_rows jobs [] = []
  week_rows jobs (d ∷ ds) = with_jobs d (jobs_on jobs d) (week_rows jobs ds)

-- "Nothing scheduled this week."
unfoldable pub nothing_this_week : List Job → Bool
nothing_this_week jobs = length jobs == 0

-- `new Map((channels ?? []).map((c) => [c.id, c])).get(id)`: the last one wins.
unfoldable pub channel_by_id : List Channel → String → Option Channel
channel_by_id [] id = none
channel_by_id (c ∷ cs) id = or_else (channel_by_id cs id) (if str_eq c.id id then some c else none)

abbrev pub handle_of : Option Channel → Text
handle_of none = []
handle_of (some c) = at_handle c.handle

-- A job in a cell: its tone, and the handle of its channel if that is known.
unfoldable pub pill : List Channel → Job → Tone × Text
unfolding job_tone channel_by_id
pill channels j = (job_tone j.status, handle_of (channel_by_id channels j.channel_id))
