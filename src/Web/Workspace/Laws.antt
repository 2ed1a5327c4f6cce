-- ===== src/Web/Workspace/Laws.antt =====
-- Which workspace is active.
use postal.Prelude.{
  String, ◌≡◌, refl, ap, Option, none, some, List, [], ◌∷◌, true, false, any, find, head?, or_else,
  str_eq, value_or, arith, eq_iff, Bool-cases, inl, inr, if◌then◌else◌,
}
use postal.Schema.{Workspace}
use postal.Web.Workspace.{WorkspaceState, set_active, has_id, workspaces, active}

abbrev pub id_of : Option Workspace → Option String
id_of none = none
id_of (some w) = some w.id

found :
    (id : String) (d : Option Workspace) (ws : List Workspace)
    → any (has_id (some id)) ws ≡ true
    → id_of (or_else (find (has_id (some id)) ws) d) ≡ some id
found id d [] h = cc h
found id d (w ∷ ws) h = elim (Bool-cases (str_eq w.id id)) [
  | inl e ↦ rw e (ap (λ x. some x) ((eq_iff w.id id).0 e))
  | inr e ↦ rw e (found id d ws (ground arith))
]

missing :
    (id : Option String) (d : Option Workspace) (ws : List Workspace)
    → any (has_id id) ws ≡ false
    → or_else (find (has_id id) ws) d ≡ d
missing id d [] h = refl
missing id d (w ∷ ws) h =
    let other : has_id id w ≡ false = ground arith in rw other (missing id d ws (ground arith))

-- The workspace that was chosen is the active one as long as it is listed; otherwise, as with no choice,
-- it is the first of the list, or none where the list is empty or not loaded.
pub set_active-active :
    (id : String) (s : WorkspaceState) (given : Option (List Workspace))
    → id_of (active (set_active id s) given) ≡ (
        if any (has_id (some id)) (value_or given [])
        then some id
        else id_of (head? (value_or given [])))
unfolding active set_active
set_active-active id s given =
    let ws = workspaces given in
    elim (Bool-cases (any (has_id (some id)) ws)) [
      | inl h ↦ rw h (found id (head? ws) ws h)
      | inr h ↦ rw h (ap (λ w. id_of w) (missing (some id) (head? ws) ws h))
    ]
