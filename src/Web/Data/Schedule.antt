-- ===== src/Web/Data/Schedule.antt =====
-- web/src/data/schedule.ts
use postal.Prelude.{Option, List, [], ◌∷◌, Bool, ◌&&◌, String, value_or}
use postal.Schema.{Job, Slot, SlotRequest}
use postal.Query.{
  opt_str, opt_bool, workspace_call, Key, text, window, in_workspace, get, post, delete, str, num,
  ok, is_given, or_empty, with_envelope, with_data, invalidate, Query, Mutation,
}
use postal.Web.ApiError.{normalize_error}

abbrev pub calendar_key : String → Option String → Option String → Key
calendar_key ws from to = in_workspace ws (text "calendar" ∷ window from to ∷ [])

abbrev pub slots_key : String → String → Key
slots_key ws channel = in_workspace ws (text "slots" ∷ text channel ∷ [])

abbrev pub all_calendars : String → Key
all_calendars ws = in_workspace ws (text "calendar" ∷ [])

pub record ScheduleInput : Type 0 where
  pub post_id : String
  pub run_at : Option String
  pub to_slots : Option Bool

unfoldable pub use_schedule_post : String → Mutation ScheduleInput (Option (List Job)) (List Job)
use_schedule_post ws = record {
  call = λ i. workspace_call post "/api/v1/workspaces/{workspaceID}/schedule" ws [] [] (
      ("post_id", str i.post_id)
      ∷ ("run_at", opt_str i.run_at)
      ∷ ("to_slots", opt_bool i.to_slots)
      ∷ []);
  select = with_data normalize_error or_empty;
  on_success =
      λ _ _. invalidate (all_calendars ws) ∷ invalidate (in_workspace ws (text "posts" ∷ [])) ∷ [];
}

unfoldable pub use_calendar :
    Option String → Option String → Option String → Query (Option (List Job)) (List Job)
use_calendar ws from to = record {
  key = calendar_key (value_or ws "") from to;
  enabled = is_given ws;
  call =
      workspace_call get "/api/v1/workspaces/{workspaceID}/calendar" (value_or ws "") []
        (("from", opt_str from) ∷ ("to", opt_str to) ∷ []) [];
  select = with_data normalize_error or_empty;
}

unfoldable pub use_cancel_job : String → Mutation String (Unit {0}) (Unit {0})
use_cancel_job ws = record {
  call = λ id.
      workspace_call delete "/api/v1/workspaces/{workspaceID}/scheduled-jobs/{jobID}" ws
        (("jobID", id) ∷ []) [] [];
  select = with_envelope normalize_error (λ _. ok tt);
  on_success = λ _ _. invalidate (all_calendars ws) ∷ [];
}

unfoldable pub use_slots : Option String → Option String → Query (List Slot) (List Slot)
use_slots ws channel = record {
  key = slots_key (value_or ws "") (value_or channel "");
  enabled = is_given ws && is_given channel;
  call =
      workspace_call get "/api/v1/workspaces/{workspaceID}/slots/" (value_or ws "") []
        (("channel_id", str (value_or channel "")) ∷ []) [];
  select = with_envelope normalize_error or_empty;
}

unfoldable pub use_create_slot : String → Mutation SlotRequest Slot Slot
use_create_slot ws = record {
  call = λ b. workspace_call post "/api/v1/workspaces/{workspaceID}/slots/" ws [] [] (
      ("channel_id", str b.channel_id)
      ∷ ("day_of_week", num b.day_of_week)
      ∷ ("time_of_day", str b.time_of_day)
      ∷ ("timezone", str b.timezone)
      ∷ []);
  select = with_data normalize_error ok;
  on_success = λ slot _. invalidate (slots_key ws slot.channel_id) ∷ [];
}

-- The input is the slot and its channel.
unfoldable pub use_delete_slot : String → Mutation (String × String) (Unit {0}) (Unit {0})
use_delete_slot ws = record {
  call = λ i.
      workspace_call delete "/api/v1/workspaces/{workspaceID}/slots/{slotID}" ws
        (("slotID", i.0) ∷ []) (("channel_id", str i.1) ∷ []) [];
  select = with_envelope normalize_error (λ _. ok tt);
  on_success = λ _ i. invalidate (slots_key ws i.1) ∷ [];
}
