-- ===== src/Web/Schedule/JobItem.antt =====
-- web/src/features/schedule/job-item.tsx
use postal.Prelude.{String, Text, Option, none, some, Bool, true, false, if◌then◌else◌, str_eq}
use postal.Schema.{Job, JobStatus, scheduled, publishing, published, failed, canceled, Channel}
use postal.Query.{Result, awaited}
use postal.Web.Format.{at_handle}

pub data Tone : Type 0 where
  neutral accent success warning danger : Tone

unfoldable pub job_tone : JobStatus → Tone
job_tone scheduled = accent
job_tone publishing = warning
job_tone published = success
job_tone failed = danger
job_tone canceled = neutral

-- The dialog that confirms a cancellation; `pending` is the mutation's `isPending`.
pub record Item : Type 0 where
  pub is_open : Bool
  pub error : Option String
  pub pending : Bool

unfoldable pub mounted : Item
mounted = record { is_open = false; error = none; pending = false }

-- `onCancel` up to its await, with the job that is canceled.
unfoldable pub on_cancel : Job → Item → Item × String
on_cancel job i = (record i { error = none; pending = true }, job.id)

-- `onCancel` behind its await.
unfoldable pub answered : String → Result (Unit {0}) → Item → Item
answered unknown r i =
    awaited unknown r (λ _. record i { is_open = false; pending = false })
      (λ message. record i { error = some message; pending = false })

unfoldable pub open_change : Bool → Item → Item
open_change next i =
    if next then record i { is_open = next } else record i { is_open = next; error = none }

abbrev pub is_scheduled : JobStatus → Bool
is_scheduled scheduled = true
is_scheduled _ = false

-- The item has a button to cancel the job.
unfoldable pub can_cancel : Job → Bool
can_cancel job = is_scheduled job.status

-- The account's handle, or the channel's id, of which the first eight characters are shown.
pub data Where : Type 0 where
  handle : Text → Where
  channel_id : String → Where

unfoldable pub place : Option Channel → Job → Where
place none job = channel_id job.channel_id
place (some c) job = handle (at_handle c.handle)

abbrev pub given : Option String → Option String
given none = none
given (some e) = if str_eq e "" then none else some e

abbrev pub reason_of : JobStatus → Option String → Option String
reason_of failed last_error = given last_error
reason_of _ last_error = none

-- `job.status === "failed" && job.last_error`
unfoldable pub reason : Job → Option String
reason job = reason_of job.status job.last_error
