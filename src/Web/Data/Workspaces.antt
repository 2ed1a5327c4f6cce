-- ===== src/Web/Data/Workspaces.antt =====
-- web/src/data/workspaces.ts
use postal.Prelude.{Option, none, some, List, [], ◌∷◌, true, String, value_or, map}
use postal.Schema.{Workspace, Member, Role, Capability}
use postal.Query.{
  Key, text, in_workspace, get, post, patch, Field, str, strs, undefined, ok, is_given, or_empty,
  workspace_call, with_envelope, invalidate, Query, Mutation,
}
use postal.Web.ApiError.{normalize_error}

abbrev pub workspace_list : Key
workspace_list = text "workspaces" ∷ []

abbrev pub member_list : String → Key
member_list ws = in_workspace ws (text "members" ∷ [])

unfoldable pub use_workspaces : Query (List Workspace) (List Workspace)
use_workspaces = record {
  key = workspace_list;
  enabled = true;
  call = record {
    method = get;
    path = "/api/v1/workspaces/";
    path_params = [];
    query = [];
    body = [];
  };
  select = with_envelope normalize_error or_empty;
}

unfoldable pub use_members : Option String → Query (List Member) (List Member)
use_members ws = record {
  key = member_list (value_or ws "");
  enabled = is_given ws;
  call = workspace_call get "/api/v1/workspaces/{workspaceID}/members" (value_or ws "") [] [] [];
  select = with_envelope normalize_error or_empty;
}

abbrev pub role_name : Role → String
role_name Role.owner = "owner"
role_name Role.admin = "admin"
role_name Role.editor = "editor"
role_name Role.viewer = "viewer"
role_name Role.custom = "custom"

abbrev pub capability_name : Capability → String
capability_name Capability.read = "read"
capability_name Capability.create = "create"
capability_name Capability.update = "update"
capability_name Capability.delete = "delete"
capability_name Capability.upload = "upload"
capability_name Capability.publish = "publish"
capability_name Capability.manage_channels = "manage_channels"
capability_name Capability.manage_members = "manage_members"
capability_name Capability.manage_workspace = "manage_workspace"

abbrev pub role_field : Option Role → Field
role_field none = undefined
role_field (some r) = str (role_name r)

abbrev pub capabilities_field : Option (List Capability) → Field
capabilities_field none = undefined
capabilities_field (some cs) = strs (map capability_name cs)

-- The permissions of a member who is added or changed, with the email or the user id.
pub record MemberInput : Type 0 where
  pub who : String
  pub role : Option Role
  pub capabilities : Option (List Capability)

unfoldable pub use_add_member : String → Mutation MemberInput Member (Option Member)
use_add_member ws = record {
  call = λ i. workspace_call post "/api/v1/workspaces/{workspaceID}/members" ws [] [] (
      ("email", str i.who)
      ∷ ("role", role_field i.role)
      ∷ ("capabilities", capabilities_field i.capabilities)
      ∷ []);
  select = with_envelope normalize_error ok;
  on_success = λ _ _. invalidate (member_list ws) ∷ [];
}

unfoldable pub use_update_capabilities : String → Mutation MemberInput Member (Option Member)
use_update_capabilities ws = record {
  call = λ i.
      workspace_call patch "/api/v1/workspaces/{workspaceID}/members/{userID}/capabilities" ws
        (("userID", i.who) ∷ []) []
        (("role", role_field i.role) ∷ ("capabilities", capabilities_field i.capabilities) ∷ []);
  select = with_envelope normalize_error ok;
  on_success = λ _ _. invalidate (member_list ws) ∷ [];
}
