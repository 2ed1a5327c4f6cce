-- ===== src/Mobile/Data/Members.antt =====
-- mobile/src/data/members.ts
use postal.Prelude.{Option, Text, List, [], ◌∷◌, String, value_or}
use postal.Schema.{Member}
use postal.Query.{
  Key, text, in_workspace, get, post, str, txt, ok, is_given, or_empty, workspace_call,
  with_envelope, with_data, invalidate, Query, Mutation,
}
use postal.Mobile.ApiError.{normalize_error}

abbrev pub member_list : String → Key
member_list ws = in_workspace ws (text "members" ∷ [])

unfoldable pub use_members : Option String → Query (List Member) (List Member)
use_members ws = record {
  key = member_list (value_or ws "");
  enabled = is_given ws;
  call = workspace_call get "/api/v1/workspaces/{workspaceID}/members" (value_or ws "") [] [] [];
  select = with_envelope normalize_error or_empty;
}

pub data AssignableRole : Type 0 where
  admin editor viewer : AssignableRole

abbrev pub assignable_name : AssignableRole → String
assignable_name admin = "admin"
assignable_name editor = "editor"
assignable_name viewer = "viewer"

unfoldable pub use_add_member : String → Mutation (Text × AssignableRole) Member Member
use_add_member ws = record {
  call = λ i.
      workspace_call post "/api/v1/workspaces/{workspaceID}/members" ws [] []
        (("email", txt i.0) ∷ ("role", str (assignable_name i.1)) ∷ []);
  select = with_data normalize_error ok;
  on_success = λ _ _. invalidate (member_list ws) ∷ [];
}
