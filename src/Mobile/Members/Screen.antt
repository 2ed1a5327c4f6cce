-- ===== src/Mobile/Members/Screen.antt =====
-- mobile/src/app/(tabs)/more/members.tsx
pub mod Laws
use postal.Prelude.{
  ℕ, String, Text, Option, none, some, List, Bool, true, false, not, ◌&&◌, ◌||◌, find, str_eq,
  length, is_some, trim, is_empty, [],
}
use postal.Schema.{Member, Role, owner, admin, editor, viewer, custom, User}
use postal.Query.{Result, awaited}
use postal.Mobile.Data.Members.{AssignableRole}

pub data Tone : Type 0 where
  accent success neutral : Tone

unfoldable pub role_tone : Role → Tone
role_tone owner = accent
role_tone admin = success
role_tone editor = neutral
role_tone viewer = neutral
role_tone custom = neutral

abbrev pub is_owner : Role → Bool
is_owner owner = true
is_owner _ = false

abbrev pub is_admin : Role → Bool
is_admin admin = true
is_admin _ = false

-- `pending` is the mutation's `isPending`; the e-mail is what was typed.
pub record Screen : Type 0 where
  pub email : Text
  pub role : AssignableRole
  pub error : Option String
  pub sent : Bool
  pub pending : Bool

unfoldable pub mounted : Screen
mounted = record {
  email = [];
  role = AssignableRole.editor;
  error = none;
  sent = false;
  pending = false;
}

-- `m.user_id === me?.id`
abbrev pub is_you : Option User → Member → Bool
is_you none m = false
is_you (some me) m = str_eq m.user_id me.id

abbrev pub found : Option User → Option (List Member) → Option Member
found me none = none
found me (some members) = find (is_you me) members

abbrev pub manages : Option Member → Bool
manages none = false
manages (some m) = is_owner m.role || is_admin m.role

-- `canManage`
unfoldable pub can_manage : Option User → Option (List Member) → Bool
can_manage me members = manages (found me members)

-- The row of a member offers its channels.
unfoldable pub shows_access : Bool → Member → Bool
shows_access managed m = managed && not (is_owner m.role)

-- `submit` up to its await, with what is sent; `trim` is `String.prototype.trim`.
unfoldable pub submit : Screen → Screen × (Text × AssignableRole)
unfolding trim
submit s = (record s { error = none; sent = false; pending = true }, (trim s.email, s.role))

-- `submit` behind its await.
unfoldable pub answered : String → Result Member → Screen → Screen
answered unknown r s =
    awaited unknown r (λ _. record s { email = []; sent = true; pending = false })
      (λ message. record s { error = some message; pending = false })

-- The button is enabled: neither loading nor disabled.
unfoldable pub can_submit : Screen → Bool
can_submit s = not (s.pending || is_empty (trim s.email))

unfoldable pub shows_added : Screen → Bool
shows_added s = s.sent && not (is_some s.error)
