-- ===== src/Tests/Compose.antt =====
-- mobile/src/features/compose/compose-screen.tsx with a post of two channels.
use postal.Prelude.{
  String, ◌≡◌, ◌≢◌, ◌↔◌, refl, none, some, [], ◌∷◌, true, false, head?, codes, eq_iff,
}
use postal.Schema.{Post}
use postal.Query.{ok}
use postal.Mobile.Compose.{
  Editor, Server, blank, inputs, edit, media_of, body_of, variants_of, missing_media, is_blank,
  can_save, upsert, save,
}
use postal.Mobile.Compose.Laws.{flat, inputs-edit, can_save-edit, can_save_iff, save_updates_next}

abbrev two : Post
two = record {
  id = "p";
  workspace_id = "w";
  author_user_id = none;
  status = "draft";
  created_at = "";
  variants = some (
      record { id = "1"; channel_id = "x"; body = codes "hello"; media = none }
      ∷ record { id = "2"; channel_id = "insta"; body = codes "hi"; media = none }
      ∷ []);
}

abbrev listed : Post
listed = record two { variants = none }

inputs-edit_at :
    ((edit two blank).post_id ≡ some "p")
    × (inputs (edit two blank)
        ≡ flat
            (variants_of two)
            (body_of (head? (variants_of two)))
            (media_of (head? (variants_of two))))
inputs-edit_at = inputs-edit two blank

can_save-edit_example :
    (inputs (edit listed blank) ≡ [])
    × ((edit listed blank).body ≡ [])
    × ((edit listed blank).media ≡ [])
    × (can_save false [] (edit listed blank) ≡ false)
can_save-edit_example = can_save-edit listed blank false [] refl

abbrev written : Editor
written = record blank { selected = "x" ∷ []; body = codes "hello" }

can_save_iff_at : (can_save false [] written ≡ true) ↔ (
    (false ≡ false)
    × (written.selected ≢ [])
    × (is_blank written.body ≡ false)
    × (missing_media [] written ≡ false))
can_save_iff_at = can_save_iff false [] written

abbrev server : Server
server = record {
  create = λ vs. ok two;
  update = λ id vs. ok two;
  validate = λ id. ok [];
  unknown = "TypeError";
}

named : ◌≢◌ {A = String} "p" ""
named e = let differ : false ≡ true = (eq_iff "p" "").1 e in cc

save_updates_next_at :
    ((save server written).post_id ≡ some "p")
    × (upsert server (save server written).post_id (inputs (save server written))
        ≡ server.update "p" (inputs written))
save_updates_next_at = save_updates_next server server written two refl refl named
