-- ===== src/Mobile/Data/Schedule.antt =====
-- mobile/src/data/schedule.ts
use postal.Prelude.{Option, List, [], ◌∷◌, Bool, String, value_or}
use postal.Schema.{Job}
use postal.Query.{
  opt_str, opt_bool, workspace_call, Key, text, window, in_workspace, get, post, delete, str, ok,
  is_given, or_empty, with_envelope, with_data, invalidate, Query, Mutation,
}
use postal.Mobile.ApiError.{normalize_error}

abbrev pub calendar_key : String → Option String → Option String → Key
calendar_key ws from to = in_workspace ws (text "calendar" ∷ window from to ∷ [])

abbrev pub slots_key : String → String → Key
slots_key ws channel = in_workspace ws (text "slots" ∷ text channel ∷ [])

abbrev pub all_calendars : String → Key
all_calendars ws = in_workspace ws (text "calendar" ∷ [])

pub record ScheduleInput : Type 0 where
  pub post_id : String
  pub run_at : Option String
  pub to_slots : Option Bool

unfoldable pub use_schedule_post : String → Mutation ScheduleInput (Option (List Job)) (List Job)
use_schedule_post ws = record {
  call = λ i. workspace_call post "/api/v1/workspaces/{workspaceID}/schedule" ws [] [] (
      ("post_id", str i.post_id)
      ∷ ("run_at", opt_str i.run_at)
      ∷ ("to_slots", opt_bool i.to_slots)
      ∷ []);
  select = with_data normalize_error or_empty;
  on_success =
      λ _ _. invalidate (all_calendars ws) ∷ invalidate (in_workspace ws (text "posts" ∷ [])) ∷ [];
}

unfoldable pub use_calendar :
    Option String → Option String → Option String → Query (Option (List Job)) (List Job)
use_calendar ws from to = record {
  key = calendar_key (value_or ws "") from to;
  enabled = is_given ws;
  call =
      workspace_call get "/api/v1/workspaces/{workspaceID}/calendar" (value_or ws "") []
        (("from", opt_str from) ∷ ("to", opt_str to) ∷ []) [];
  select = with_data normalize_error or_empty;
}

unfoldable pub use_cancel_job : String → Mutation String (Unit {0}) (Unit {0})
use_cancel_job ws = record {
  call = λ id.
      workspace_call delete "/api/v1/workspaces/{workspaceID}/scheduled-jobs/{jobID}" ws
        (("jobID", id) ∷ []) [] [];
  select = with_envelope normalize_error (λ _. ok tt);
  on_success = λ _ _. invalidate (all_calendars ws) ∷ [];
}
