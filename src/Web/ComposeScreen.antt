-- ===== src/Web/ComposeScreen.antt =====
-- web/src/features/composer/compose-screen.tsx: which draft the composer opens with, and
-- web/src/features/composer/utm-preview.tsx.
pub mod Lost
use postal.Prelude.{
  String, Text, Option, none, some, List, [], ◌∷◌, ◌++◌, Bool, true, false, not, ◌&&◌, ◌||◌,
  is_some, if◌then◌else◌, str_eq, trim, is_empty,
}
use postal.Schema.{Post, Channel}
use postal.Query.{Query, Result, awaited, is_given}
use postal.Web.Data.Posts.{use_post}
use postal.Web.Composer.{Editor, open_editor}

pub record Screen : Type 0 where
  pub editing_id : Option String

unfoldable pub edit : Post → Screen → Screen
edit p s = record { editing_id = some p.id }

-- "New post"
unfoldable pub new_post : Screen → Screen
new_post s = record { editing_id = none }

unfoldable pub detail_query : Option String → Screen → Query Post Post
detail_query ws s = use_post ws s.editing_id

-- The query of the post's detail: `isPending`, and `data`, which stays undefined where the query failed.
pub record Detail : Type 0 where
  pub is_pending : Bool
  pub post : Option Post

pub data Shown : Type 0 where
  loading_composer connect_first loading_draft : Shown
  composer : String → Editor → Shown  -- with its key

-- `initial={editingId ? detail.data : undefined}`
abbrev pub initial : Option String → Detail → Option Post
initial id d = if is_given id then d.post else none

abbrev pub key : Option String → String
key none = "new"
key (some id) = id

abbrev pub with_channels : Option (List Channel) → Shown → Shown
with_channels none rest = connect_first
with_channels (some []) rest = connect_first
with_channels (some (c ∷ cs)) rest = rest

unfoldable pub shown : Bool → Bool → Option (List Channel) → Detail → Screen → Shown
unfolding open_editor
shown active is_pending channels d s =
    if not active || is_pending
    then loading_composer
    else with_channels channels (
        if is_given s.editing_id && d.is_pending
        then loading_draft
        else composer (key s.editing_id) (open_editor (initial s.editing_id d)))

-- "Editing a saved draft."
unfoldable pub says_editing : Screen → Bool
says_editing s = is_given s.editing_id

-- The preview of tagged links; `pending` is the mutation's `isPending`.
pub record Utm : Type 0 where
  pub source : String
  pub campaign : String
  pub result : Option Text
  pub error : Option String
  pub pending : Bool

unfoldable pub utm_mounted : Utm
utm_mounted = record {
  source = "postal";
  campaign = "";
  result = none;
  error = none;
  pending = false;
}

abbrev pub tag : String → String → List (String × String)
tag name value = if str_eq value "" then [] else (name, value) ∷ []

-- `run` up to its await, with the parameters that are sent.
unfoldable pub utm_run : Utm → Utm × List (String × String)
utm_run u = (
  record u { error = none; pending = true },
  tag "utm_source" u.source ++ tag "utm_campaign" u.campaign,
)

-- `run` behind its await.
unfoldable pub utm_answered : String → Result Text → Utm → Utm
utm_answered unknown r u =
    awaited unknown r (λ t. record u { result = some t; pending = false })
      (λ m. record u { error = some m; pending = false })

unfoldable pub utm_can_run : Text → Utm → Bool
utm_can_run text u = not (u.pending || is_empty (trim text))
