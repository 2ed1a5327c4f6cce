-- ===== src/Mobile/Data/Governance.antt =====
-- mobile/src/data/governance.ts
use postal.Prelude.{Option, none, some, List, [], ◌∷◌, Bool, ◌&&◌, if◌then◌else◌, String, value_or}
use postal.ApiError.{is_ok}
use postal.Schema.{ChannelAccess, ActivityEntry}
use postal.Query.{
  Key, text, in_workspace, get, put, bool, strs, Reply, Result, ok, thrown, is_given,
  workspace_call, invalidate, Query, Mutation,
}
use postal.Mobile.ApiError.{normalize_error}

abbrev pub member_channels_key : String → String → Key
member_channels_key ws user = in_workspace ws (text "member-channels" ∷ text user ∷ [])

abbrev pub activity_key : String → Key
activity_key ws = in_workspace ws (text "activity" ∷ [])

-- What `(body?.data ?? body)` is: `undefined` where the body was no JSON, the whole body where it has
-- no `data`, or the data.
pub data Loaded {ℓ} (D : Type ℓ) : Type ℓ where
  nothing whole : Loaded D
  inner : D → Loaded D

abbrev pub data_or_body {ℓ} : {D : Type ℓ} → Option (Option D) → Loaded D
data_or_body none = nothing
data_or_body (some none) = whole
data_or_body (some (some d)) = inner d

-- `authedJSON`, behind the fetch
abbrev pub authed_json {ℓ} : {D : Type ℓ} → Reply D → Result (Loaded D)
authed_json r =
    if is_ok r.status
    then ok (data_or_body r.data_field)
    else thrown (normalize_error r.status r.error)

unfoldable pub use_member_channels : String → String → Query ChannelAccess (Loaded ChannelAccess)
use_member_channels ws user = record {
  key = member_channels_key ws user;
  enabled = is_given (some ws) && is_given (some user);
  call =
      workspace_call get "/api/v1/workspaces/{workspaceID}/members/{userID}/channels" ws
        (("userID", user) ∷ []) [] [];
  select = authed_json;
}

-- The input is whether the member is restricted, and the channels that are allowed.
unfoldable pub use_set_member_channels :
    String → String → Mutation (Bool × List String) ChannelAccess (Loaded ChannelAccess)
use_set_member_channels ws user = record {
  call = λ i.
      workspace_call put "/api/v1/workspaces/{workspaceID}/members/{userID}/channels" ws
        (("userID", user) ∷ []) [] (("restricted", bool i.0) ∷ ("channel_ids", strs i.1) ∷ []);
  select = authed_json;
  on_success = λ _ _. invalidate (member_channels_key ws user) ∷ [];
}

unfoldable pub use_activity :
    Option String → Query (List ActivityEntry) (Loaded (List ActivityEntry))
use_activity ws = record {
  key = activity_key (value_or ws "");
  enabled = is_given ws;
  call = workspace_call get "/api/v1/workspaces/{workspaceID}/activity" (value_or ws "") [] [] [];
  select = authed_json;
}
