-- ===== src/Mobile/Calendar.antt =====
-- mobile/src/app/(tabs)/calendar.tsx and mobile/src/features/schedule/job-status.ts. `localeCompare` and
-- `toLocaleDateString` depend on the locale, and are arguments.
pub mod Groups
use postal.Prelude.{
  ℕ, String, Text, Option, none, some, List, [], ◌∷◌, ◌++◌, Bool, true, false, ◌&&◌, if◌then◌else◌,
  str_eq, lookup, value_or, find, insert,
}
use postal.Schema.{Job, JobStatus, scheduled, publishing, published, failed, canceled, Channel}
use postal.Query.{Query}
use postal.Publish.{Clock}
use postal.Mobile.Data.Schedule.{use_calendar}

pub data PillTone : Type 0 where
  neutral accent success warning danger : PillTone

unfoldable pub job_tone : JobStatus → PillTone
job_tone scheduled = accent
job_tone publishing = warning
job_tone published = success
job_tone failed = danger
job_tone canceled = neutral

-- `before` is `a.localeCompare(b) <= 0`; `day_key` is `dayKey`.
pub record Locale : Type 0 where
  pub before : String → String → Bool
  pub day_key : String → String

-- The stable sort, as insertion of each job before the first that is to come later.
unfoldable pub put : Locale → Job → List Job → List Job
put l j [] = j ∷ []
put l j (k ∷ ks) = if l.before j.run_at k.run_at then j ∷ k ∷ ks else k ∷ put l j ks

-- `[...(jobs ?? [])].sort((a, b) => a.run_at.localeCompare(b.run_at))`
unfoldable pub sorted : Locale → List Job → List Job
sorted l [] = []
sorted l (j ∷ js) = put l j (sorted l js)

-- `(groups[dayKey(j.run_at)] ??= []).push(j)`
abbrev pub push : Locale → Job → List (String × List Job) → List (String × List Job)
push l j groups =
    let day = l.day_key j.run_at in insert day (value_or (lookup day groups) [] ++ j ∷ []) groups

unfoldable pub grouped : Locale → List Job → List (String × List Job) → List (String × List Job)
grouped l [] groups = groups
grouped l (j ∷ js) groups = grouped l js (push l j groups)

unfoldable pub groups : Locale → Option (List Job) → List (String × List Job)
unfolding grouped sorted
groups l jobs = grouped l (sorted l (value_or jobs [])) []

-- `channels.find((c) => c.id === channelId)?.handle`, or nothing where the channel's id stands for it.
abbrev pub handle_of : Option Channel → Option Text
handle_of none = none
handle_of (some c) = some c.handle

unfoldable pub handle_for : List Channel → String → Option Text
handle_for channels id = handle_of (find (λ c. str_eq c.id id) channels)

abbrev pub is_scheduled : JobStatus → Bool
is_scheduled scheduled = true
is_scheduled _ = false

-- The row has a button to cancel the job.
unfoldable pub can_cancel : Job → Bool
can_cancel j = is_scheduled j.status
