-- ===== src/Mobile/Workspace.antt =====
-- mobile/src/stores/workspace.ts and mobile/src/features/workspace/use-active-workspace.ts: the workspace
-- that the screens show.
use postal.Prelude.{
  String, Option, none, some, List, [], Bool, find, head?, or_else, str_eq, value_or,
}
use postal.Schema.{Workspace}

-- The store.
pub record WorkspaceState : Type 0 where
  pub active_id : Option String

unfoldable pub set_active : String → WorkspaceState → WorkspaceState
set_active id s = record { active_id = some id }

abbrev pub has_id : Option String → Workspace → Bool
has_id none w = Bool.false
has_id (some id) w = str_eq w.id id

abbrev pub workspaces : Option (List Workspace) → List Workspace
workspaces given = value_or given []

-- `workspaces.find((w) => w.id === activeId) ?? workspaces[0]`
unfoldable pub active : WorkspaceState → Option (List Workspace) → Option Workspace
active s given = or_else (find (has_id s.active_id) (workspaces given)) (head? (workspaces given))
