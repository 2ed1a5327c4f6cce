-- ===== src/Web/Schedule/Calendar/Behind.antt =====
-- The jobs that the calendar's query asks for behind the days that the screen shows.
use postal.Prelude.{
  ◌+◌, ◌≡◌, ◌≢◌, refl, sym, ap, ◌∙◌, String, Option, none, some, List, [], ◌∷◌, map, false, All,
  arith,
}
use mathlib.Core.List.Perm
use postal.Schema.{Job}
use postal.Query.{Key, text, window}
use postal.Web.Data.Schedule.{use_calendar}
use postal.Web.Schedule.Calendar.{
  DateFns, Laws, Screen, range_end, calendar_query, days, week_rows, nothing_this_week,
}
use postal.Web.Schedule.Calendar.Days.{joined, day_of, in_range, days-in_range}

-- Where the window of a query ends.
abbrev end_of : Key → Option String
end_of (text root ∷ text ws ∷ text name ∷ window from to ∷ []) = to
end_of _ = none

some-injective : {a b : String} → some a ≡ some b → a ≡ b
some-injective h = cc h

module _ {Date : Type 0} (f : DateFns Date) (laws : Laws f) where
  query-end :
      (s : Screen Date) (ws : Option String) (from to : String)
      → (calendar_query f ws s).key ≡ (use_calendar ws (some from) (some to)).key
      → f.iso (f.add_day (range_end f s)) ≡ to
  unfolding calendar_query use_calendar
  query-end s ws from to h = some-injective (ap end_of h)

  outside :
      (s : Screen Date) (jobs : List Job)
      → All (λ j. day_of f laws j ≡ laws.day (range_end f s) + 1) jobs
      → in_range f laws s jobs ≡ []
  outside s [] h = refl
  outside s (j ∷ jobs) (h, k) = ground (arith, outside s jobs k)

  -- The jobs of the day at which the query's window ends are asked for and shown nowhere: a week with no
  -- other jobs has no job in its rows, and does not say that nothing is scheduled.
  pub week_rows-behind :
      (s : Screen Date) (ws : Option String) (from to : String) (jobs : List Job)
      → (calendar_query f ws s).key ≡ (use_calendar ws (some from) (some to)).key
      → (let end = f.add_day (range_end f s) in laws.day (f.date (f.iso end)) ≡ laws.day end)
      → jobs ≢ []
      → All (λ j. day_of f laws j ≡ laws.day (f.date to)) jobs
      → (joined (map (λ r. r.1) (week_rows f (some jobs) (days f s))) ≡ [])
        × (nothing_this_week jobs ≡ false)
  unfolding nothing_this_week
  week_rows-behind s ws from to jobs asks reads some_jobs on_end =
      let ends : laws.day (f.date to) ≡ laws.day (range_end f s) + 1 =
        ap (λ t. laws.day (f.date t)) (sym (query-end s ws from to asks))
        ∙ reads
        ∙ laws.add_day-day (range_end f s) in
      let (cells, all_days, rows, perm) = days-in_range f laws s jobs in
      let empty = outside s jobs (rw ends at on_end) in
      (Perm.eq-nil (rw empty at perm), nonempty jobs some_jobs)
    where
      nonempty : (l : List Job) → l ≢ [] → nothing_this_week l ≡ false
      nonempty [] n = absurd (n refl)
      nonempty (j ∷ l) n = ground arith
