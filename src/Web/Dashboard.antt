-- ===== src/Web/Dashboard.antt =====
-- web/src/features/dashboard/overview-widgets.tsx. `localeCompare` and the dates are arguments.
use postal.Prelude.{
  ℕ, String, Option, some, List, [], ◌∷◌, Bool, true, false, not, if◌then◌else◌, str_eq, filter,
  take, length, value_or,
}
use postal.Schema.{
  Job, JobStatus, scheduled, Post, Channel, ChannelStatus, active, expired, revoked,
}
use postal.Query.{Query}
use postal.Web.Data.Schedule.{use_calendar}

-- The week from the moment that the page was mounted; `add_days` is date-fns's.
unfoldable pub upcoming_query {ℓ} :
    {Date : Type ℓ}
    → (Date → String)
    → (Date → ℕ → Date)
    → Date
    → Option String
    → Query (Option (List Job)) (List Job)
upcoming_query iso add_days now ws = use_calendar ws (some (iso now)) (some (iso (add_days now 7)))

abbrev pub is_scheduled : JobStatus → Bool
is_scheduled scheduled = true
is_scheduled _ = false

-- The stable sort by `run_at`; `before` is `a.localeCompare(b) <= 0`.
abbrev pub put : (String → String → Bool) → Job → List Job → List Job
put before j [] = j ∷ []
put before j (k ∷ ks) = if before j.run_at k.run_at then j ∷ k ∷ ks else k ∷ put before j ks

abbrev pub sort : (String → String → Bool) → List Job → List Job
sort before [] = []
sort before (j ∷ js) = put before j (sort before js)

unfoldable pub upcoming : (String → String → Bool) → Option (List Job) → List Job
upcoming before jobs = take 5 (sort before (filter (λ j. is_scheduled j.status) (value_or jobs [])))

unfoldable pub drafts : Option (List Post) → List Post
drafts posts = take 5 (filter (λ p. str_eq p.status "draft") (value_or posts []))

abbrev pub is_active : ChannelStatus → Bool
is_active active = true
is_active expired = false
is_active revoked = false

unfoldable pub needs_attention : Option (List Channel) → List Channel
needs_attention channels = filter (λ c. not (is_active c.status)) (value_or channels [])

-- The count of channels and of those that need attention, and the first four of them.
unfoldable pub channel_widget : Option (List Channel) → ℕ × ℕ × List Channel
unfolding needs_attention
channel_widget channels =
    let cs = value_or channels [] in (length cs, length (needs_attention channels), take 4 cs)
