-- ===== src/Web/Composer.antt =====
-- web/src/features/composer: the compose-once editor (composer.tsx), its text field
-- (variant-editor.tsx), its media (media-attach.tsx) and its channel chips (channel-picker.tsx).
-- The server's part of a save, the three mutations, is an argument of `save`.
pub mod Drafts
pub mod Selection
pub mod Saving
pub mod Session
pub mod Shorten
use postal.Prelude.{
  is_space, Text, ℕ, ◌-◌, String, Option, none, some, List, [], ◌∷◌, ◌++◌, map, Bool, true, false,
  not, ◌&&◌, ◌||◌, leb, ltb, if◌then◌else◌, any, all, filter, find, head?, length, lookup, insert,
  remove, str_eq, text_eq, value_or, is_some, ◌==◌, or_else,
}
use postal.Schema.{
  Post, Variant, VariantInput, MediaMeta, Asset, Channel, ChannelStatus, VariantValidation, Wallet,
}
use postal.Query.{Result, ok, thrown, type_error}
use postal.Web.Platforms.{platform_info}
use postal.Web.Links.{first_url}

pub record ComposerState : Type 0 where
  pub selected : List String
  pub master_body : Text
  pub overrides : List (String × Text)
  pub media : List MediaMeta

abbrev pub override_from : Text → Variant → List (String × Text) → List (String × Text)
override_from master v overrides =
    if text_eq v.body master then overrides else insert v.channel_id v.body overrides

-- `for (const v of variants) if (v.body !== master) overrides[v.channel_id] = v.body;`
unfoldable pub collect : Text → List Variant → List (String × Text) → List (String × Text)
collect master [] overrides = overrides
collect master (v ∷ vs) overrides = collect master vs (override_from master v overrides)

abbrev pub body_of : Option Variant → Text
body_of none = []
body_of (some v) = v.body

abbrev pub media_of : Option Variant → List MediaMeta
media_of none = []
media_of (some v) = value_or v.media []

abbrev pub from_variants : List Variant → ComposerState
from_variants vs = record {
  selected = map (λ v. v.channel_id) vs;
  master_body = body_of (head? vs);
  overrides = collect (body_of (head? vs)) vs [];
  media = media_of (head? vs);
}

abbrev pub variants_of : Option Post → List Variant
variants_of none = []
variants_of (some p) = value_or p.variants []

unfoldable pub from_post : Option Post → ComposerState
unfolding collect
from_post post = from_variants (variants_of post)

-- The tab that is open: all channels, or one.
pub data Tab : Type 0 where
  all_channels : Tab
  channel : String → Tab

pub record Editor : Type 0 where
  pub state : ComposerState
  pub post_id : Option String
  pub tab : Tab
  pub error : Option String
  pub verdicts : Option (List VariantValidation)

unfoldable pub open_editor : Option Post → Editor
unfolding from_post
open_editor initial = record {
  state = from_post initial;
  post_id = elim initial [ none ↦ none | some p ↦ some p.id ];
  tab = all_channels;
  error = none;
  verdicts = none;
}

unfoldable pub body_for : ComposerState → String → Text
body_for s id = value_or (lookup id s.overrides) s.master_body

abbrev pub is_selected : ComposerState → String → Bool
is_selected s id = any (λ c. str_eq c id) s.selected

abbrev pub toggled : String → List String → List String
toggled id selected =
    if any (λ c. str_eq c id) selected
    then filter (λ c. not (str_eq c id)) selected
    else selected ++ id ∷ []

abbrev pub leave_tab : String → Tab → Tab
leave_tab id all_channels = all_channels
leave_tab id (channel c) = if str_eq c id then all_channels else channel c

unfoldable pub toggle_channel : String → Editor → Editor
toggle_channel id e = record e {
  verdicts = none;
  state = record e.state { selected = toggled id e.state.selected };
  tab = leave_tab id e.tab;
}

-- A click on one of the tabs `["all", ...state.selected]`; there are no others.
unfoldable pub open_tab : Tab → Editor → Editor
open_tab tab e = record e { tab = tab }

abbrev pub typed : Tab → Text → ComposerState → ComposerState
typed all_channels body s = record s { master_body = body }
typed (channel id) body s = record s { overrides = insert id body s.overrides }

-- Typing in the open tab's field.
unfoldable pub type_body : Text → Editor → Editor
type_body body e = record e { state = typed e.tab body e.state }

-- The text that "Shorten links" puts into the tab that was open when it was clicked.
unfoldable pub put_shortened : Tab → Text → Editor → Editor
put_shortened tab text e = record e { state = typed tab text e.state }

-- "Reset to master text"
abbrev pub reset_by : Tab → ComposerState → ComposerState
reset_by all_channels s = s
reset_by (channel id) s = record s { overrides = remove id s.overrides }

unfoldable pub reset_override : Editor → Editor
reset_override e = record e { state = reset_by e.tab e.state }

unfoldable pub to_meta : Asset → MediaMeta
to_meta a = record { media_id = a.id; kind = a.kind; mime = a.mime; bytes = a.bytes }

-- `pick` of the media dialog: an asset is attached once.
unfoldable pub attach : Asset → Editor → Editor
unfolding to_meta
attach a e = record e {
  state = record e.state {
    media =
        if any (λ m. str_eq m.media_id a.id) e.state.media
        then e.state.media
        else e.state.media ++ to_meta a ∷ [];
  };
}

unfoldable pub detach : String → Editor → Editor
detach id e = record e {
  state = record e.state { media = filter (λ m. not (str_eq m.media_id id)) e.state.media };
}

-- `state.media.length > 0 ? state.media : undefined`
abbrev pub some_media : List MediaMeta → Option (List MediaMeta)
some_media [] = none
some_media (m ∷ ms) = some (m ∷ ms)

unfoldable pub inputs : ComposerState → List VariantInput
unfolding body_for
inputs s =
    map (λ id. record { channel_id = id; body = some (body_for s id); media = some_media s.media })
      s.selected

-- What the catch of `save` shows, and what the verdicts are. `unknown` is the message of a
-- `TypeError`.
abbrev pub verdict_shown : String → Result (List VariantValidation) → Editor → Editor
verdict_shown unknown (ok vs) e = record e { verdicts = some vs }
verdict_shown unknown (thrown (err, _)) e = record e { error = some err.message }
verdict_shown unknown type_error e = record e { error = some unknown }

-- The draft's part of the server: the mutations of `useCreatePost`, `useUpdatePost` and
-- `useValidatePost`.
pub record Server : Type 0 where
  pub create : List VariantInput → Result Post
  pub update : String → List VariantInput → Result Post
  pub validate : String → Result (List VariantValidation)
  pub unknown : String

abbrev pub after_upsert : Server → Result Post → Editor → Editor
after_upsert server (ok p) e =
    verdict_shown server.unknown (server.validate p.id) (record e { post_id = some p.id })
after_upsert server (thrown (err, _)) e = record e { error = some err.message }
after_upsert server type_error e = record e { error = some server.unknown }

-- `postId ? update : create`
abbrev pub upsert : Server → Option String → List VariantInput → Result Post
upsert server none vs = server.create vs
upsert server (some id) vs = if str_eq id "" then server.create vs else server.update id vs

unfoldable pub save : Server → Editor → Editor
unfolding inputs
save server e =
    after_upsert server (upsert server e.post_id (inputs e.state))
      (record e { error = none; verdicts = none })

-- `!text.trim()`
abbrev pub is_blank : Text → Bool
is_blank t = all is_space t

-- The save button is enabled.
unfoldable pub can_save : Bool → Editor → Bool
can_save saving e = not (saving || (length e.state.selected == 0 || is_blank e.state.master_body))
