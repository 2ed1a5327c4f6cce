-- ===== src/Mobile/Data/Workspaces.antt =====
-- mobile/src/data/workspaces.ts
use postal.Prelude.{List, [], ◌∷◌, true}
use postal.Schema.{Workspace}
use postal.Query.{Key, text, get, or_empty, with_envelope, Query}
use postal.Mobile.ApiError.{normalize_error}

abbrev pub workspace_list : Key
workspace_list = text "workspaces" ∷ []

unfoldable pub use_workspaces : Query (List Workspace) (List Workspace)
use_workspaces = record {
  key = workspace_list;
  enabled = true;
  call = record {
    method = get;
    path = "/api/v1/workspaces/";
    path_params = [];
    query = [];
    body = [];
  };
  select = with_envelope normalize_error or_empty;
}
