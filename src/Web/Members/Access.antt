-- ===== src/Web/Members/Access.antt =====
-- web/src/features/members/member-channel-access.tsx: which channels a member may publish to.
pub mod Laws
use postal.Prelude.{
  String, Option, none, some, List, [], Bool, true, false, not, has, add, delete_from, set_of,
  if◌then◌else◌,
}
use postal.Schema.{ChannelAccess}
use postal.Query.{Result, awaited}
use postal.Web.Data.Governance.{Loaded}

-- `pending` is the mutation's `isPending`.
pub record Editor : Type 0 where
  pub restricted : Bool
  pub selected : List String
  pub error : Option String
  pub saved : Bool
  pub pending : Bool

unfoldable pub mounted : ChannelAccess → Editor
mounted initial = record {
  restricted = initial.restricted;
  selected = set_of initial.allowed_channel_ids;
  error = none;
  saved = false;
  pending = false;
}

-- `if (next.has(id)) next.delete(id); else next.add(id);`
abbrev pub flipped : String → List String → List String
flipped id cur = if has id cur then delete_from id cur else add id cur

unfoldable pub toggle : String → Editor → Editor
toggle id e = record e { saved = false; selected = flipped id e.selected }

unfoldable pub restrict : Bool → Editor → Editor
restrict checked e = record e { restricted = checked; saved = false }

-- What is sent: no channel where the member is not restricted.
unfoldable pub input : Editor → Bool × List String
input e = (e.restricted, if e.restricted then e.selected else [])

-- `onSave` up to its await.
unfoldable pub on_save : Editor → Editor × (Bool × List String)
unfolding input
on_save e =
    let cleared = record e { error = none; saved = false; pending = true } in (cleared, input e)

-- `onSave` behind its await.
unfoldable pub answered : String → Result (Loaded ChannelAccess) → Editor → Editor
answered unknown r e =
    awaited unknown r (λ _. record e { saved = true; pending = false })
      (λ message. record e { error = some message; pending = false })

unfoldable pub can_save : Editor → Bool
can_save e = not e.pending
