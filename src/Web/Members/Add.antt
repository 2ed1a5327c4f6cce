-- ===== src/Web/Members/Add.antt =====
-- web/src/features/members/add-member-form.tsx and capability-checkboxes.tsx, with the labels of
-- activity-feed.tsx. React Hook Form calls the handler with an e-mail that the schema accepts.
pub mod Laws
use postal.Prelude.{
  ℕ, String, Option, none, some, List, [], ◌∷◌, ◌++◌, Bool, true, false, not, ◌||◌, any, filter,
  if◌then◌else◌, str_eq, lookup, value_or,
}
use postal.ApiError.{NormalizedError}
use postal.Schema.{Role, owner, admin, editor, viewer, custom, Capability, Member, ActivityEntry}
use postal.Query.{Result, ok, thrown, type_error}
use postal.Web.Data.Workspaces.{MemberInput, capability_name}

abbrev pub has_capability : Capability → List Capability → Bool
has_capability c cs = any (λ d. str_eq (capability_name d) (capability_name c)) cs

-- `toggle` on the set of `value`, given back as a list.
unfoldable pub toggle_capability : Capability → List Capability → List Capability
toggle_capability c cs =
    if has_capability c cs
    then filter (λ d. not (str_eq (capability_name d) (capability_name c))) cs
    else cs ++ c ∷ []

pub record Form : Type 0 where
  pub role : Role
  pub caps : List Capability
  pub custom : Bool
  pub form_error : Option String
  pub email_error : Option String
  pub rejected : Bool  -- the handler itself throws
  pub submitting : Bool

unfoldable pub mounted : Form
mounted = record {
  role = editor;
  caps = [];
  custom = false;
  form_error = none;
  email_error = none;
  rejected = false;
  submitting = false;
}

unfoldable pub set_role : Role → Form → Form
set_role r f = record f { role = r }

-- "Customize permissions" and "Use a role instead"
unfoldable pub toggle_custom : Form → Form
toggle_custom f = record f { custom = not f.custom }

unfoldable pub change_caps : Capability → Form → Form
unfolding toggle_capability
change_caps c f = record f { caps = toggle_capability c f.caps }

-- `onSubmit` up to its await, with what is sent.
unfoldable pub on_submit : String → Form → Form × MemberInput
on_submit email f = (
  record f { form_error = none; email_error = none; submitting = true },
  record {
    who = email;
    role = if f.custom then none else some f.role;
    capabilities = if f.custom then some f.caps else none;
  },
)

-- `err.fieldErrors.email` that is neither missing nor empty.
abbrev pub given : Option String → Option String
given none = none
given (some m) = if str_eq m "" then none else some m

abbrev pub refused : NormalizedError → Option String → Form → Form
refused err (some m) f = record f { email_error = some m; submitting = false }
refused err none f = record f { form_error = some err.message; submitting = false }

-- `onSubmit` behind its await. A `TypeError` has no `fieldErrors`, and reading `.email` throws again.
unfoldable pub answered {ℓ} : {A : Type ℓ} → Result A → Form → Form
answered (ok m) f = record f { caps = []; custom = false; submitting = false }
answered (thrown (err, _)) f = refused err (given (lookup "email" err.field_errors)) f
answered type_error f = record f { rejected = true; submitting = false }

abbrev pub action_labels : List (String × String)
action_labels =
    ("user.login", "signed in")
    ∷ ("user.signup", "signed up")
    ∷ ("user.password_reset_requested", "requested a password reset")
    ∷ ("user.email_verified", "verified their email")
    ∷ ("post.schedule", "scheduled a post")
    ∷ ("post.schedule_slots", "queued a post to slots")
    ∷ ("channel.connected", "connected a channel")
    ∷ ("channel.disconnected", "disconnected a channel")
    ∷ ("member.added", "added a member")
    ∷ ("member.capabilities_updated", "changed a member's permissions")
    ∷ []

-- `ACTION_LABELS[action]`, or the action with its separators tidied up.
pub data Label : Type 0 where
  known tidied : String → Label

abbrev pub label_of : String → Option String → Label
label_of action none = tidied action
label_of action (some l) = known l

unfoldable pub label : String → Label
label action = label_of action (lookup action action_labels)

-- `entry.actor_email || "System"`
unfoldable pub actor : ActivityEntry → String
actor e = if str_eq e.actor_email "" then "System" else e.actor_email
