-- ===== src/Tests/Teams.antt =====
-- The workspaces, the members' channels and the connect flow.
use postal.Prelude.{
  str_eq, false, String, ◌≡◌, refl, none, some, List, [], ◌∷◌, map, true, not, codes, has,
  if◌then◌else◌, any, head?, ◌↔◌, lookup, set_of,
}
use postal.Schema.{ChannelAccess, Workspace, Channel, active}
use postal.Query.{ok}
use postal.Web.Workspace.{WorkspaceState, set_active}
use postal.Web.Workspace as Stored
use postal.Web.Workspace.Laws.{id_of, set_active-active}
use postal.Web.Data.Governance.{nothing}
use postal.Web.Members.Access as Access
use postal.Web.Members.Access.Laws as AccessLaws
use postal.Mobile.Members.Access as PhoneAccess
use postal.Mobile.Members.Access.Same as Same
use postal.Mobile.Channels.Connect as Connect
use postal.Mobile.Channels.Connect.Laws.{Connects, run-Connects}

abbrev channel : Channel
channel = record {
  id = "x";
  platform = "twitter";
  platform_account_id = "1";
  handle = codes "ada";
  display_name = codes "Ada";
  status = active;
  connected_by = none;
  created_at = "";
}

abbrev workspace : String → Workspace
workspace id = record { id = id; name = id; owner_user_id = "u"; plan = "free"; created_at = "" }

abbrev store : WorkspaceState
store = record { active_id = none }

set_active-active_at :
    id_of (Stored.active (set_active "b" store) (some (workspace "a" ∷ workspace "b" ∷ []))) ≡ (
      if any (Stored.has_id (some "b")) (workspace "a" ∷ workspace "b" ∷ [])
      then some "b"
      else id_of (head? (workspace "a" ∷ workspace "b" ∷ [])))
set_active-active_at = set_active-active "b" store (some (workspace "a" ∷ workspace "b" ∷ []))

abbrev access : ChannelAccess
access = record { restricted = true; allowed_channel_ids = "a" ∷ "b" ∷ "a" ∷ [] }

abbrev edits : List AccessLaws.Action
edits =
    AccessLaws.toggles "b"
    ∷ AccessLaws.toggles "c"
    ∷ AccessLaws.saves
    ∷ AccessLaws.hears "" (ok nothing)
    ∷ []

run-Refines_example :
    AccessLaws.Refines
      (AccessLaws.run edits (Access.mounted access))
      (AccessLaws.allow_all edits (λ j. has j ("a" ∷ "b" ∷ "a" ∷ [])))
run-Refines_example = AccessLaws.run-Refines access edits

edited : (AccessLaws.run edits (Access.mounted access)).selected ≡ "a" ∷ "c" ∷ []
unfolding AccessLaws.run Access.mounted Access.toggle Access.on_save Access.answered set_of
edited = refl

limited : (Access.mounted access).restricted ≡ true
unfolding Access.mounted
limited = refl

toggle-saved_example :
    let (pending, sent) = Access.on_save (Access.mounted access) in
    let shown = Access.answered "" (ok nothing) (Access.toggle "c" pending) in
    (shown.saved ≡ true)
    × (has "c" shown.selected ≡ not (has "c" sent.1))
    × ((j : String) → str_eq "c" j ≡ false → has j shown.selected ≡ has j sent.1)
toggle-saved_example = AccessLaws.toggle-saved "" nothing "c" (Access.mounted access) limited

abbrev phone_edits : List Same.Action
phone_edits = Same.toggles "b" ∷ Same.saves ∷ []

run-on_web_example :
    (Same.on_web (Same.run phone_edits (PhoneAccess.mounted access))
      ≡ AccessLaws.run (map Same.action_on_web phone_edits) (Access.mounted access))
    × (PhoneAccess.input (Same.run phone_edits (PhoneAccess.mounted access))
        ≡ Access.input
            (AccessLaws.run (map Same.action_on_web phone_edits) (Access.mounted access)))
run-on_web_example = Same.run-on_web access phone_edits

abbrev flow : Connect.Flow
flow = record {
  connect = λ p. ok (codes "https://x.example/auth");
  open_auth_session = λ url back. Connect.success (codes "postal://oauth-callback?state=s&code=c");
  parse = λ url. some (("state", Connect.one (codes "s")) ∷ ("code", Connect.one (codes "c")) ∷ []);
  complete = λ i. ok channel;
  unknown = "";
}

run-Connects_example :
    (Connect.run flow "twitter" ≡ Connect.connected channel) ↔ Connects flow "twitter" channel
run-Connects_example = run-Connects flow "twitter" channel

connected : Connect.run flow "twitter" ≡ Connect.connected channel
unfolding Connect.run Connect.param lookup
connected = refl
