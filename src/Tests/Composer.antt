-- ===== src/Tests/Composer.antt =====
-- web/src/features/composer with two channels and a small draft.
use postal.Prelude.{
  is_space, Text, String, ◌≡◌, ◌≤◌, ◌≢◌, refl, none, some, List, [], ◌∷◌, map, true, false, not,
  All, length, codes, if◌then◌else◌, str_eq, eq_iff, lookup, head?, ◌↔◌, IsUnique, merge,
}
use postal.Schema.{Post, Variant, Channel, active}
use postal.Query.{ok}
use postal.Web.Platforms.{platform_info}
use postal.Web.Composer.{
  open_editor, Editor, channel, Server, variants_of, from_post, inputs, some_media, media_of,
  body_for, is_selected, toggle_channel, open_tab, save, upsert, can_save, is_blank,
}
use postal.Web.Composer.Drafts.{pairs, input_of, inputs-from_post}
use postal.Web.Composer.Selection.{
  toggle_channel_lem, IsConsistent, here, next, toggles, opens, Reach-IsConsistent,
  open_editor-IsConsistent,
}
use postal.Web.Composer.Saving.{IsSettled, save-IsSettled, save_created_once}
use postal.Web.Hints.{master_limit, counter, missing_media, channel_limit}
use postal.Web.Hints.Limits.{IsCalm, counter-IsCalm_iff, can_save-missing_media}
use postal.Web.Logger.{info, LogFields, Logger, with_fields, emit}
use postal.Web.Logger.Laws.{field_of, emit-with_fields}

abbrev variant : String → Text → Variant
variant id body = record { id = id; channel_id = id; body = body; media = none }

abbrev draft : Post
draft = record {
  id = "p";
  workspace_id = "w";
  author_user_id = none;
  status = "draft";
  created_at = "";
  variants = some (variant "x" (codes "hello") ∷ variant "insta" (codes "hi") ∷ []);
}

draft-IsUnique : IsUnique (pairs (variants_of (some draft)))
unfolding lookup
draft-IsUnique = (refl, (refl, tt))

inputs-from_post_example :
    inputs (from_post (some draft))
    ≡ map
        (λ v.
          input_of (some_media (media_of (head? (variants_of (some draft))))) v.channel_id v.body)
        (variants_of (some draft))
inputs-from_post_example = inputs-from_post draft draft-IsUnique

open_editor-IsConsistent_at : IsConsistent (open_editor (some draft))
open_editor-IsConsistent_at = open_editor-IsConsistent (some draft) draft-IsUnique

abbrev editor : Editor
editor = record {
  state = record {
    selected = "x" ∷ "insta" ∷ [];
    master_body = codes "hello";
    overrides = ("insta", codes "hi") ∷ [];
    media = [];
  };
  post_id = none;
  tab = channel "insta";
  error = none;
  verdicts = none;
}

editor-IsConsistent : IsConsistent editor
editor-IsConsistent = record { once = (refl, (refl, tt)); shown = refl }

Reach-IsConsistent_example : IsConsistent (toggle_channel "insta" (open_tab (channel "x") editor))
Reach-IsConsistent_example =
    Reach-IsConsistent editor-IsConsistent
      (next (next here (opens (channel "x") refl)) (toggles "insta"))

toggle_channel_lem_at :
    (is_selected (toggle_channel "insta" editor).state "insta" ≡ (
      if str_eq "insta" "insta"
      then not (is_selected editor.state "insta")
      else is_selected editor.state "insta"))
    × (body_for (toggle_channel "insta" editor).state "insta" ≡ body_for editor.state "insta")
    × ((toggle_channel "insta" editor).verdicts ≡ none)
toggle_channel_lem_at = toggle_channel_lem "insta" "insta" editor

abbrev server : Server
server = record {
  create = λ vs. ok draft;
  update = λ id vs. ok draft;
  validate = λ id. ok [];
  unknown = "TypeError";
}

save-IsSettled_at : IsSettled (save server editor) × ((save server editor).state ≡ editor.state)
save-IsSettled_at = save-IsSettled server editor

named : ◌≢◌ {A = String} "p" ""
named e = let differ : false ≡ true = (eq_iff "p" "").1 e in cc

save_created_once_at :
    ((save server editor).post_id ≡ some "p")
    × (upsert server (save server editor).post_id (inputs (save server editor).state)
        ≡ server.update "p" (inputs editor.state))
save_created_once_at = save_created_once server server editor draft refl refl named

abbrev account : String → String → Channel
account id platform = record {
  id = id;
  platform = platform;
  platform_account_id = id;
  handle = [];
  display_name = [];
  status = active;
  connected_by = none;
  created_at = "";
}

abbrev accounts : List Channel
accounts = account "x" "twitter" ∷ account "insta" "instagram" ∷ []

counter-IsCalm_iff_example :
    IsCalm (counter (master_limit accounts) (codes "hello"))
    ↔ All (λ c. length (codes "hello") ≤ channel_limit c) accounts
counter-IsCalm_iff_example = counter-IsCalm_iff accounts (codes "hello")

not_blank : is_blank editor.state.master_body ≡ false
unfolding is_space
not_blank = refl

needs_media : (platform_info "instagram").requires_media ≡ true
unfolding platform_info
needs_media = refl

can_save-missing_media_at : (missing_media accounts editor ≡ true) × (can_save false editor ≡ true)
can_save-missing_media_at =
    can_save-missing_media accounts editor "insta" (account "insta" "instagram") refl needs_media
      refl refl not_blank

abbrev log : Logger
log = record { min_weight = 20; base = ("app", "web") ∷ [] }

abbrev given : LogFields
given = ("requestId", "r") ∷ []

alone : (k v : String) → IsUnique ((k, v) ∷ [])
unfolding lookup
alone k v = (refl, tt)

emit-with_fields_at :
    field_of "requestId" (emit "now" info "api error" [] (with_fields given log))
    ≡ field_of "requestId" (emit "now" info "api error" (merge given []) log)
emit-with_fields_at =
    emit-with_fields "requestId" "now" "api error" info given [] log (alone "app" "web")
      (alone "requestId" "r")
