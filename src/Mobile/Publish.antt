-- ===== src/Mobile/Publish.antt =====
-- mobile/src/features/schedule/publish-sheet.tsx
pub mod Refines
use postal.Prelude.{ℕ, ◌+◌, ◌*◌, String, Option, none, some, Bool, true, false, not, is_some, List}
use postal.Schema.{Job}
use postal.Query.{Result}
use postal.Publish.{
  Mode, now, slots, time, Clock, Failure, Outcome, created, failed_with, outcome, Label, mode_label,
}
use postal.Mobile.Data.Schedule.{ScheduleInput}

pub data Picker : Type 0 where
  date_picker time_picker : Picker

-- `pending` is the mutation's `isPending`; `when` is a time value. Whether the sheet is visible is its
-- parent's.
pub record Sheet : Type 0 where
  pub mode : Mode
  pub when : ℕ
  pub picker : Option Picker
  pub error : Option Failure
  pub scheduled : Option ℕ
  pub pending : Bool

-- An hour from now.
unfoldable pub mounted : Clock → Sheet
mounted clock = record {
  mode = now;
  when = clock.now + 60 * 60 * 1000;
  picker = none;
  error = none;
  scheduled = none;
  pending = false;
}

unfoldable pub reset : Sheet → Sheet
reset s = record s { mode = now; error = none; scheduled = none; picker = none }

unfoldable pub input_of : Clock → String → Mode → ℕ → ScheduleInput
input_of clock post_id now when = record {
  post_id = post_id;
  run_at = some (clock.iso (clock.now + 3000));
  to_slots = none;
}
input_of clock post_id slots when = record {
  post_id = post_id;
  run_at = none;
  to_slots = some true;
}
input_of clock post_id time when = record {
  post_id = post_id;
  run_at = some (clock.iso when);
  to_slots = none;
}

-- `submit` up to its await: the sheet, and the input that is sent.
unfoldable pub submit : Clock → String → Sheet → Sheet × ScheduleInput
unfolding input_of
submit clock post_id s =
    (record s { error = none; pending = true }, input_of clock post_id s.mode s.when)

abbrev pub settled : Outcome → Sheet → Sheet
settled (created n) s = record s { pending = false; scheduled = some n }
settled (failed_with f) s = record s { pending = false; error = some f }

-- `submit` behind its await.
unfoldable pub answered : Result (List Job) → Sheet → Sheet
answered r s = settled (outcome r) s

unfoldable pub choose : Mode → Sheet → Sheet
choose mode s = record s { mode = mode }

unfoldable pub pick : Picker → Sheet → Sheet
pick picker s = record s { picker = some picker }

abbrev pub kept : Option ℕ → ℕ → ℕ
kept none when = when
kept (some t) when = t

-- `onChange` of the picker, which gives no time where it is dismissed.
unfoldable pub picked : Option ℕ → Sheet → Sheet
picked d s = record s { picker = none; when = kept d s.when }

-- The form, not the number of jobs.
unfoldable pub shows_form : Sheet → Bool
shows_form s = not (is_some s.scheduled)

-- A button that loads is disabled.
unfoldable pub can_submit : Sheet → Bool
can_submit s = not s.pending

unfoldable pub submit_label : Sheet → Label
submit_label s = mode_label s.mode
