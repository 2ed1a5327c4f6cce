-- ===== src/Mobile/Compose.antt =====
-- mobile/src/features/compose/compose-screen.tsx: the editor of one text for all selected channels,
-- and what a tap on a listed post loads into it. The mutations of a save are an argument.
pub mod Laws
use postal.Prelude.{
  is_space, Text, String, Option, none, some, List, [], ◌∷◌, ◌++◌, map, Bool, not, ◌&&◌, ◌||◌,
  if◌then◌else◌, any, all, filter, head?, length, str_eq, ◌==◌, value_or, or_else,
}
use postal.Schema.{Post, Variant, VariantInput, MediaMeta, Asset, Channel, VariantValidation}
use postal.Query.{Result, ok, thrown, type_error}
use postal.Mobile.Platforms.{platform_info}

pub record Editor : Type 0 where
  pub selected : List String
  pub body : Text
  pub media : List MediaMeta
  pub post_id : Option String
  pub verdicts : Option (List VariantValidation)
  pub error : Option String

-- A new post, and `reset`
abbrev pub blank : Editor
blank = record {
  selected = [];
  body = [];
  media = [];
  post_id = none;
  verdicts = none;
  error = none;
}

abbrev pub toggled : String → List String → List String
toggled id selected =
    if any (λ c. str_eq c id) selected
    then filter (λ c. not (str_eq c id)) selected
    else selected ++ id ∷ []

unfoldable pub toggle : String → Editor → Editor
toggle id e = record e { verdicts = none; selected = toggled id e.selected }

unfoldable pub type_body : Text → Editor → Editor
type_body body e = record e { body = body; verdicts = none }

abbrev pub to_meta : Asset → MediaMeta
to_meta a = record { media_id = a.id; kind = a.kind; mime = a.mime; bytes = a.bytes }

-- `attach`: nothing was picked, or the upload of the file ended. `unknown` is the message of a
-- `TypeError`.
unfoldable pub attach : String → Option (Result Asset) → Editor → Editor
attach unknown none e = record e { error = none }
attach unknown (some (ok asset)) e = record e {
  error = none;
  media = e.media ++ to_meta asset ∷ [];
}
attach unknown (some (thrown (err, _))) e = record e { error = some err.message }
attach unknown (some type_error) e = record e { error = some unknown }

unfoldable pub detach : String → Editor → Editor
detach id e = record e { media = filter (λ m. not (str_eq m.media_id id)) e.media }

abbrev pub some_media : List MediaMeta → Option (List MediaMeta)
some_media [] = none
some_media (m ∷ ms) = some (m ∷ ms)

unfoldable pub inputs : Editor → List VariantInput
inputs e =
    map (λ id. record { channel_id = id; body = some e.body; media = some_media e.media })
      e.selected

pub record Server : Type 0 where
  pub create : List VariantInput → Result Post
  pub update : String → List VariantInput → Result Post
  pub validate : String → Result (List VariantValidation)
  pub unknown : String

abbrev pub verdict_shown : String → Result (List VariantValidation) → Editor → Editor
verdict_shown unknown (ok vs) e = record e { verdicts = some vs }
verdict_shown unknown (thrown (err, _)) e = record e { error = some err.message }
verdict_shown unknown type_error e = record e { error = some unknown }

abbrev pub after_upsert : Server → Result Post → Editor → Editor
after_upsert server (ok p) e =
    verdict_shown server.unknown (server.validate p.id) (record e { post_id = some p.id })
after_upsert server (thrown (err, _)) e = record e { error = some err.message }
after_upsert server type_error e = record e { error = some server.unknown }

abbrev pub upsert : Server → Option String → List VariantInput → Result Post
upsert server none vs = server.create vs
upsert server (some id) vs = if str_eq id "" then server.create vs else server.update id vs

unfoldable pub save : Server → Editor → Editor
unfolding inputs
save server e =
    after_upsert server (upsert server e.post_id (inputs e))
      (record e { error = none; verdicts = none })

abbrev pub variants_of : Post → List Variant
variants_of p = value_or p.variants []

abbrev pub body_of : Option Variant → Text
body_of none = []
body_of (some v) = v.body

abbrev pub media_of : Option Variant → List MediaMeta
media_of none = []
media_of (some v) = value_or v.media []

-- `onEdit`, with a post of the list
unfoldable pub edit : Post → Editor → Editor
edit p e = record e {
  post_id = some p.id;
  body = body_of (head? (variants_of p));
  selected = map (λ v. v.channel_id) (variants_of p);
  media = media_of (head? (variants_of p));
  verdicts = none;
}

-- `new Map(channels.map((c) => [c.id, c])).get(id)`: the last one wins.
abbrev pub by_id : List Channel → String → Option Channel
by_id [] id = none
by_id (c ∷ cs) id = or_else (by_id cs id) (if str_eq c.id id then some c else none)

-- `selected.map((id) => byId.get(id)).filter(Boolean)`
abbrev pub known : Option Channel → List Channel → List Channel
known none cs = cs
known (some c) cs = c ∷ cs

unfoldable pub selected_channels : List Channel → List String → List Channel
selected_channels channels [] = []
selected_channels channels (id ∷ ids) = known (by_id channels id) (selected_channels channels ids)

unfoldable pub missing_media : List Channel → Editor → Bool
unfolding selected_channels
missing_media channels e =
    any (λ c. (platform_info c.platform).requires_media) (selected_channels channels e.selected)
    && length e.media == 0

-- `!body.trim()`
abbrev pub is_blank : Text → Bool
is_blank t = all is_space t

-- The save button is enabled: neither disabled nor loading.
unfoldable pub can_save : Bool → List Channel → Editor → Bool
unfolding missing_media
can_save saving channels e =
    not (saving || (length e.selected == 0 || (is_blank e.body || missing_media channels e)))
