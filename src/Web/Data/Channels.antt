-- ===== src/Web/Data/Channels.antt =====
-- web/src/data/channels.ts
use postal.Prelude.{Option, none, some, List, [], ◌∷◌, String, Text, value_or}
use postal.Schema.{Channel}
use postal.Query.{
  Key, text, in_workspace, get, post, delete, str, txt, texts_of, Reply, Result, ok, thrown,
  is_given, or_empty, workspace_call, with_envelope, with_data, when_ok, invalidate, Query,
  Mutation,
}
use postal.Web.ApiError.{normalize_error}

abbrev pub channel_list : String → Key
channel_list ws = in_workspace ws (text "channels" ∷ [])

unfoldable pub use_channels : Option String → Query (List Channel) (List Channel)
use_channels ws = record {
  key = channel_list (value_or ws "");
  enabled = is_given ws;
  call = workspace_call get "/api/v1/workspaces/{workspaceID}/channels/" (value_or ws "") [] [] [];
  select = with_envelope normalize_error or_empty;
}

-- `!data?.data?.authorize_url`: a missing or empty URL is refused.
abbrev pub url_of : Reply (Option Text) → Option Text → Result Text
url_of r none = thrown (normalize_error r.status r.error)
url_of r (some []) = thrown (normalize_error r.status r.error)
url_of r (some (c ∷ url)) = ok (c ∷ url)

abbrev pub with_url : Reply (Option Text) → Result Text
with_url r = with_data normalize_error (url_of r) r

unfoldable pub use_connect_channel : String → Mutation String (Option Text) Text
use_connect_channel ws = record {
  call = λ platform.
      workspace_call post "/api/v1/workspaces/{workspaceID}/channels/connect" ws [] []
        (("platform", str platform) ∷ []);
  select = with_url;
  on_success = λ _ _. [];
}

-- The input is the state and the code that the identity provider sent back.
unfoldable pub use_complete_oauth : Mutation (Text × Text) Channel Channel
use_complete_oauth = record {
  call = λ i. record {
    method = get;
    path = "/api/v1/channels/oauth/callback";
    path_params = [];
    query = ("state", txt i.0) ∷ ("code", txt i.1) ∷ [];
    body = [];
  };
  select = with_data normalize_error ok;
  on_success = λ _ _. invalidate (text "workspaces" ∷ []) ∷ [];
}

unfoldable pub use_connect_manual :
    String → Mutation (String × List (String × Text)) (Unit {0}) (Unit {0})
use_connect_manual ws = record {
  call = λ i.
      workspace_call post "/api/v1/workspaces/{workspaceID}/channels/connect-manual" ws [] []
        (("platform", str i.0) ∷ ("credentials", texts_of i.1) ∷ []);
  select = when_ok normalize_error;
  on_success = λ _ _. invalidate (channel_list ws) ∷ [];
}

unfoldable pub use_disconnect_channel : String → Mutation String (Unit {0}) (Unit {0})
use_disconnect_channel ws = record {
  call = λ id.
      workspace_call delete "/api/v1/workspaces/{workspaceID}/channels/{channelID}" ws
        (("channelID", id) ∷ []) [] [];
  select = with_envelope normalize_error (λ _. ok tt);
  on_success = λ _ _. invalidate (channel_list ws) ∷ [];
}
