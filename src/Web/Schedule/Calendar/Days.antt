-- ===== src/Web/Schedule/Calendar/Days.antt =====
-- Every job of the shown days is shown or counted once, on its day.
use postal.Prelude.{
  ℕ, zero, suc, ◌+◌, ◌-◌, ◌≤◌, ◌≡◌, refl, sym, ap, ◌∙◌, some, List, [], ◌∷◌, ◌++◌, map, Bool, true,
  false, ◌&&◌, leb, ltb, ◌==◌, length, take, filter, value_or, All, arith, Bool-cases, inl, inr,
}
use mathlib.Core.List.{Perm, perm_middle}
use mathlib.Core.List.Perm
use postal.Schema.{Job}
use postal.Web.Schedule.Calendar.{
  View, month, week, DateFns, Laws, span, Screen, Cell, first_of, last_of, range_start, range_end,
  days, jobs_on, more_than, cell, with_jobs, week_rows,
}

abbrev pub joined : List (List Job) → List Job
joined [] = []
joined (js ∷ rest) = js ++ joined rest

abbrev pub within : ℕ → ℕ → ℕ → Bool
within first last n = leb first n && leb n last

module _ (d : Job → ℕ) where
  abbrev pub on : List Job → ℕ → List Job
  on jobs k = filter (λ j. d j == k) jobs

  abbrev from : List Job → ℕ → ℕ → List Job
  from jobs first n = filter (λ j. leb first (d j) && ltb (d j) (first + n)) jobs

  from-none : (jobs : List Job) (first : ℕ) → from jobs first 0 ≡ []
  from-none [] first = refl
  from-none (j ∷ jobs) first = ground (arith, from-none jobs first)

  from-within :
      (jobs : List Job) (first last : ℕ)
      → first ≤ last
      → from jobs first (last + 1 - first) ≡ filter (λ j. within first last (d j)) jobs
  from-within [] first last h = refl
  from-within (j ∷ jobs) first last h = ground (arith, from-within jobs first last h)

  on-from :
      (jobs : List Job) (first n : ℕ)
      → Perm (on jobs first ++ from jobs (first + 1) n) (from jobs first (suc n))
  on-from [] first n = Perm.refl []
  on-from (j ∷ jobs) first n =
      let rest = on-from jobs first n in
      let later = leb (first + 1) (d j) && ltb (d j) (first + 1 + n) in
      let inside = leb first (d j) && ltb (d j) (first + suc n) in
      elim (Bool-cases (d j == first)) [
        | inl h ↦
            let p : later ≡ false = ground arith in
            let q : inside ≡ true = ground arith in rw (h, p, q) (Perm.cons j rest)
        | inr h ↦
            let same : inside ≡ later = ground arith in
            elim (Bool-cases later) [
              | inl k ↦
                  rw (h, same, k)
                    (Perm.trans (perm_middle (on jobs first) (from jobs (first + 1) n))
                      (Perm.cons j rest))
              | inr k ↦ rw (h, same, k) rest
            ]
      ]

  joined-span :
      (jobs : List Job) (first n : ℕ)
      → Perm (joined (map (on jobs) (span first n))) (from jobs first n)
  joined-span jobs first zero = rw (from-none jobs first) (Perm.refl [])
  joined-span jobs first (suc n) =
      Perm.trans (Perm.append_left (on jobs first) (joined-span jobs (first + 1) n))
        (on-from jobs first n)

-- A cell of a day with these jobs: it shows the first ones, two at most, and counts the others.
abbrev pub ShowsJobs : {Date : Type 0} → List Job → Cell Date → Type 0
ShowsJobs js c =
    (others : List Job) × (js ≡ c.shown ++ others)
    × (length c.shown ≤ 2)
    × (value_or c.more 0 ≡ length others)

cell-ShowsJobs :
    {Date : Type 0} (d : Date) (js : List Job)
    → ShowsJobs js (record { day = d; shown = take 2 js; more = more_than (length js) })
cell-ShowsJobs d [] = ([], refl, omega arith, refl)
cell-ShowsJobs d (a ∷ []) = ([], refl, omega arith, refl)
cell-ShowsJobs d (a ∷ b ∷ []) = ([], refl, omega arith, refl)
cell-ShowsJobs d (a ∷ b ∷ c ∷ js) = (c ∷ js, refl, omega arith, ground arith)

module _ {Date : Type 0} (f : DateFns Date) (laws : Laws f) where
  abbrev pub day_of : Job → ℕ
  day_of j = laws.day (f.date j.run_at)

  -- The jobs of the days that a screen shows.
  abbrev pub in_range : Screen Date → List Job → List Job
  in_range s jobs =
      filter (λ j. within (laws.day (range_start f s)) (laws.day (range_end f s)) (day_of j)) jobs

  ordered : (v : View) (c : Date) → laws.day (first_of f v c) ≤ laws.day (last_of f v c)
  ordered month c = omega (
    arith,
    laws.start_of_week-day (f.start_of_month c),
    laws.start_of_month-day c,
    laws.end_of_month-day c,
    laws.end_of_week-day (f.end_of_month c),
  )
  ordered week c = omega (arith, laws.start_of_week-day c, laws.end_of_week-day c)

  jobs_on-day : (jobs : List Job) (d : Date) → jobs_on f (some jobs) d ≡ on day_of jobs (laws.day d)
  unfolding jobs_on
  jobs_on-day [] d = refl
  jobs_on-day (j ∷ jobs) d =
      rw (laws.is_same_day-day (f.date j.run_at) d) (ground (arith, jobs_on-day jobs d))

  joined-days :
      (jobs : List Job) (ds : List Date)
      → joined (map (λ d. on day_of jobs (laws.day d)) ds)
        ≡ joined (map (on day_of jobs) (map (λ d. laws.day d) ds))
  joined-days jobs [] = refl
  joined-days jobs (d ∷ ds) = ap (λ l. on day_of jobs (laws.day d) ++ l) (joined-days jobs ds)

  days-Perm :
      (s : Screen Date) (jobs : List Job)
      → Perm (joined (map (λ d. on day_of jobs (laws.day d)) (days f s))) (in_range s jobs)
  unfolding days range_start range_end
  days-Perm s jobs =
      let first = first_of f s.view s.cursor in
      let last = last_of f s.view s.cursor in
      let le = ordered s.view s.cursor in
      let numbers = laws.each_day-day first last le in
      let ends = from-within day_of jobs (laws.day first) (laws.day last) le in
      rw (joined-days jobs (f.each_day first last), numbers, sym ends)
        (joined-span day_of jobs (laws.day first) (laws.day last + 1 - laws.day first))

  with_jobs-joined :
      (d : Date) (js : List Job) (rest : List (Date × List Job))
      → joined (map (λ r. r.1) (with_jobs d js rest)) ≡ js ++ joined (map (λ r. r.1) rest)
  with_jobs-joined d [] rest = refl
  with_jobs-joined d (j ∷ js) rest = refl

  week_rows-joined :
      (jobs : List Job) (ds : List Date)
      → joined (map (λ r. r.1) (week_rows f (some jobs) ds))
        ≡ joined (map (λ d. on day_of jobs (laws.day d)) ds)
  unfolding week_rows
  week_rows-joined jobs [] = refl
  week_rows-joined jobs (d ∷ ds) =
      let rest = week_rows f (some jobs) ds in
      with_jobs-joined d (jobs_on f (some jobs) d) rest
      ∙ ap (λ js. js ++ joined (map (λ r. r.1) rest)) (jobs_on-day jobs d)
      ∙ ap (λ l. on day_of jobs (laws.day d) ++ l) (week_rows-joined jobs ds)

  -- Every row stands on its day, and only there.
  with_jobs-All :
      (jobs : List Job) (d : Date) (js : List Job) (rest : List (Date × List Job))
      → js ≡ on day_of jobs (laws.day d)
      → All (λ r. r.1 ≡ on day_of jobs (laws.day r.0)) rest
      → All (λ r. r.1 ≡ on day_of jobs (laws.day r.0)) (with_jobs d js rest)
  with_jobs-All jobs d [] rest e h = h
  with_jobs-All jobs d (j ∷ js) rest e h = (e, h)

  week_rows-All :
      (jobs : List Job) (ds : List Date)
      → All (λ r. r.1 ≡ on day_of jobs (laws.day r.0)) (week_rows f (some jobs) ds)
  unfolding week_rows
  week_rows-All jobs [] = tt
  week_rows-All jobs (d ∷ ds) =
      with_jobs-All jobs d (jobs_on f (some jobs) d) (week_rows f (some jobs) ds)
        (jobs_on-day jobs d) (week_rows-All jobs ds)

  cell-day :
      (jobs : List Job) (d : Date) → ShowsJobs (on day_of jobs (laws.day d)) (cell f (some jobs) d)
  unfolding cell
  cell-day jobs d = rw (sym (jobs_on-day jobs d)) (cell-ShowsJobs d (jobs_on f (some jobs) d))

  -- The cell of each day shows the first jobs of that day, two at most, and counts its other jobs; each row
  -- of a week has the jobs of its day; and the jobs of the shown days, and so those of the rows, are the
  -- jobs between the first and the last day, each once and no other.
  pub days-in_range :
      (s : Screen Date) (jobs : List Job)
      → ((d : Date) → ShowsJobs (on day_of jobs (laws.day d)) (cell f (some jobs) d))
        × Perm (joined (map (λ d. on day_of jobs (laws.day d)) (days f s))) (in_range s jobs)
        × All (λ r. r.1 ≡ on day_of jobs (laws.day r.0)) (week_rows f (some jobs) (days f s))
        × Perm (joined (map (λ r. r.1) (week_rows f (some jobs) (days f s)))) (in_range s jobs)
  days-in_range s jobs = (
    cell-day jobs,
    days-Perm s jobs,
    week_rows-All jobs (days f s),
    rw (week_rows-joined jobs (days f s)) (days-Perm s jobs),
  )
