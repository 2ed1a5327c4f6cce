-- ===== src/Publish.antt =====
-- The shape that web/src/features/schedule/schedule-dialog.tsx and
-- mobile/src/features/schedule/publish-sheet.tsx share: how a saved draft is published, what their
-- users see of it, and the phases that publishing is meant to go through.
use postal.Prelude.{
  ℕ, ◌≡◌, String, Option, none, some, List, Bool, true, false, ◌==◌, if◌then◌else◌, str_eq, length,
}
use postal.ApiError.{NormalizedError}
use postal.Schema.{Job}
use postal.Query.{Result, ok, thrown, type_error}

pub data Mode : Type 0 where
  now slots time : Mode

-- The dates of the environment: `Date.now()`, `toISOString` of a time value, and the time value of
-- a text of the local time zone, which is missing where the text is no date.
pub record Clock : Type 0 where
  pub now : ℕ
  pub iso : ℕ → String
  pub local : String → Option ℕ

-- What the catch of `submit` is given: the mutation's error, or an error of the language.
pub data Failure : Type 0 where
  refused : NormalizedError → Failure
  range_error reply_error : Failure

-- What an awaited answer gives: the jobs that were created, or what is thrown.
pub data Outcome : Type 0 where
  created : ℕ → Outcome
  failed_with : Failure → Outcome

abbrev pub outcome : Result (List Job) → Outcome
outcome (ok jobs) = created (length jobs)
outcome (thrown (err, _)) = failed_with (refused err)
outcome type_error = failed_with reply_error

-- `error.code === "insufficient_credits"`: the way to the wallet is shown.
abbrev pub wants_credits : Failure → Bool
wants_credits (refused err) = str_eq err.code "insufficient_credits"
wants_credits range_error = false
wants_credits reply_error = false

pub data JobCount : Type 0 where
  one_job : JobCount
  jobs : ℕ → JobCount

-- `{scheduled} job{scheduled === 1 ? "" : "s"} created.`
abbrev pub job_count : ℕ → JobCount
job_count n = if n == 1 then one_job else jobs n

-- "Working…" where the button shows that it waits.
pub data Label : Type 0 where
  publish_now schedule working : Label

abbrev pub mode_label : Mode → Label
mode_label now = publish_now
mode_label slots = schedule
mode_label time = schedule

-- The promise: a form, one request, then its failure or the number of jobs.
pub data Phase : Type 0 where
  form sending : Phase
  failed : Failure → Phase
  done : ℕ → Phase

-- From one phase to the next; closing never takes a request back.
pub data Moves : Phase → Phase → Type 0 where
  stays : {p : Phase} → Moves p p
  sends : Moves form sending
  resends : {f : Failure} → Moves (failed f) sending
  refuses_time : Moves form (failed range_error)
  refuses_again : {f : Failure} → Moves (failed f) (failed range_error)
  fails : {f : Failure} → Moves sending (failed f)
  creates : {n : ℕ} → Moves sending (done n)
  forgets : {f : Failure} → Moves (failed f) form
  closes : {n : ℕ} → Moves (done n) form

pub data Runs (p : Phase) : Phase → Type 0 where
  starts : Runs p p
  moves : {q r : Phase} → Runs p q → Moves q r → Runs p r

-- The state that a phase stands for: whether a request is in flight, what failed, and how many jobs
-- were created.
abbrev pub Shows : Bool → Option Failure → Option ℕ → Phase → Type 0
Shows pending error scheduled form = (pending ≡ false) × (error ≡ none) × (scheduled ≡ none)
Shows pending error scheduled sending = (pending ≡ true) × (error ≡ none) × (scheduled ≡ none)
Shows pending error scheduled (failed f) = (pending ≡ false) × (error ≡ some f) × (scheduled ≡ none)
Shows pending error scheduled (done n) = (pending ≡ false) × (error ≡ none) × (scheduled ≡ some n)

-- How many requests a phase has sent that are not answered.
abbrev pub unanswered : Phase → ℕ
unanswered form = 0
unanswered sending = 1
unanswered (failed f) = 0
unanswered (done n) = 0
