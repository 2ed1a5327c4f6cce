-- ===== src/Web/Schedule/Dialog.antt =====
-- web/src/features/schedule/schedule-dialog.tsx
pub mod Refines
use postal.Prelude.{
  ℕ, ◌+◌, String, Option, none, some, Bool, true, false, not, ◌&&◌, ◌||◌, str_eq, is_some,
  if◌then◌else◌, List,
}
use postal.Schema.{Job}
use postal.Query.{Result}
use postal.Publish.{
  Mode, now, slots, time, Clock, Failure, range_error, Outcome, created, failed_with, outcome,
  Label, working, mode_label,
}
use postal.Web.Data.Schedule.{ScheduleInput}

-- `pending` is the mutation's `isPending`.
pub record Dialog : Type 0 where
  pub is_open : Bool
  pub mode : Mode
  pub when : String
  pub error : Option Failure
  pub scheduled : Option ℕ
  pub pending : Bool

unfoldable pub mounted : Dialog
mounted = record {
  is_open = false;
  mode = now;
  when = "";
  error = none;
  scheduled = none;
  pending = false;
}

unfoldable pub reset : Dialog → Dialog
reset d = record d { mode = now; when = ""; error = none; scheduled = none }

abbrev pub at_time : String → Option ℕ → Clock → Option ScheduleInput
at_time post_id none clock = none
at_time post_id (some t) clock =
    some (record { post_id = post_id; run_at = some (clock.iso t); to_slots = none })

-- The input of the mutation; it is missing where `toISOString` throws a RangeError.
unfoldable pub input_of : Clock → String → Mode → String → Option ScheduleInput
input_of clock post_id now when = at_time post_id (some (clock.now + 3000)) clock
input_of clock post_id slots when =
    some (record { post_id = post_id; run_at = none; to_slots = some true })
input_of clock post_id time when = at_time post_id (clock.local when) clock

-- `submit` up to its await: the dialog, and the input that is sent.
abbrev pub sent : Option ScheduleInput → Dialog → Dialog
sent none d = record d { error = some range_error }
sent (some i) d = record d { pending = true }

unfoldable pub submit : Clock → String → Dialog → Dialog × Option ScheduleInput
unfolding input_of
submit clock post_id d =
    let input = input_of clock post_id d.mode d.when in
    (sent input (record d { error = none }), input)

abbrev pub settled : Outcome → Dialog → Dialog
settled (created n) d = record d { pending = false; scheduled = some n }
settled (failed_with f) d = record d { pending = false; error = some f }

-- `submit` behind its await.
unfoldable pub answered : Result (List Job) → Dialog → Dialog
answered r d = settled (outcome r) d

-- `onOpenChange`: the trigger, the close buttons, the escape key and a click beside the dialog.
unfoldable pub open_change : Bool → Dialog → Dialog
unfolding reset
open_change next d =
    if next then record d { is_open = next } else reset (record d { is_open = next })

unfoldable pub choose : Mode → Dialog → Dialog
choose mode d = record d { mode = mode }

unfoldable pub type_when : String → Dialog → Dialog
type_when when d = record d { when = when }

-- The form, not the number of jobs.
unfoldable pub shows_form : Dialog → Bool
shows_form d = not (is_some d.scheduled)

abbrev pub is_time : Mode → Bool
is_time now = false
is_time slots = false
is_time time = true

unfoldable pub can_submit : Dialog → Bool
can_submit d = not (d.pending || (is_time d.mode && str_eq d.when ""))

unfoldable pub can_cancel : Dialog → Bool
can_cancel d = not d.pending

unfoldable pub submit_label : Dialog → Label
submit_label d = if d.pending then working else mode_label d.mode
