-- ===== src/Mobile/Compose/Laws.antt =====
-- What saving on the phone sends, for a new post and for one of the list.
use postal.Prelude.{
  Text, String, ◌≡◌, ◌≢◌, ◌↔◌, refl, ap, ◌∙◌, Option, none, some, List, [], ◌∷◌, map, Bool, true,
  false, arith, head?, eq_iff, Bool-cases, ◌⊎◌, inl, inr, not, ◌||◌, length, ◌==◌,
}
use postal.Schema.{Post, Variant, VariantInput, MediaMeta, Channel, VariantValidation}
use postal.Query.{Result, ok, thrown, type_error}
use postal.Mobile.Compose.{
  Editor, Server, inputs, edit, some_media, media_of, body_of, variants_of, missing_media, is_blank,
  can_save, verdict_shown, after_upsert, upsert, save,
}

abbrev pub flat : List Variant → Text → List MediaMeta → List VariantInput
flat vs body media =
    map (λ v. record { channel_id = v.channel_id; body = some body; media = some_media media }) vs

input_of : Text → List MediaMeta → String → VariantInput
input_of body media id = record { channel_id = id; body = some body; media = some_media media }

map-channels :
    (body : Text) (media : List MediaMeta) (vs : List Variant)
    → map (input_of body media) (map (λ v. v.channel_id) vs) ≡ flat vs body media
unfolding input_of
map-channels body media [] = refl
map-channels body media (v ∷ vs) = cc (map-channels body media vs)

-- Saving a loaded post unchanged updates that post, and sends every channel of it the text and the
-- media of its first variant, whatever the channel's own were.
pub inputs-edit :
    (p : Post) (e : Editor)
    → ((edit p e).post_id ≡ some p.id)
      × (inputs (edit p e)
          ≡ flat
              (variants_of p)
              (body_of (head? (variants_of p)))
              (media_of (head? (variants_of p))))
unfolding inputs edit input_of
inputs-edit p e = (
  refl,
  map-channels (body_of (head? (variants_of p))) (media_of (head? (variants_of p))) (variants_of p),
)

enabled_iff :
    (saving b m : Bool) (l : List String)
    → (not (saving || (length l == 0 || (b || m))) ≡ true)
      ↔ ((saving ≡ false) × (l ≢ []) × (b ≡ false) × (m ≡ false))
enabled_iff saving b m [] = ground arith
enabled_iff saving b m (c ∷ l) =
    ((λ h. (ground arith, (λ e. cc), ground arith, ground arith)), λ h. ground arith)

-- The save button is enabled exactly where nothing is being saved, a channel is selected, the text is
-- not blank, and no selected platform lacks the media that it requires.
pub can_save_iff :
    (saving : Bool) (channels : List Channel) (e : Editor)
    → (can_save saving channels e ≡ true) ↔ (
        (saving ≡ false)
        × (e.selected ≢ [])
        × (is_blank e.body ≡ false)
        × (missing_media channels e ≡ false))
unfolding can_save
can_save_iff saving channels e =
    enabled_iff saving (is_blank e.body) (missing_media channels e) e.selected

-- A post that comes without its variants loads no channel, no text and no media, so nothing would be
-- sent, and the save button is disabled.
pub can_save-edit :
    (p : Post) (e : Editor) (saving : Bool) (channels : List Channel)
    → p.variants ≡ none
    → (inputs (edit p e) ≡ [])
      × ((edit p e).body ≡ [])
      × ((edit p e).media ≡ [])
      × (can_save saving channels (edit p e) ≡ false)
unfolding inputs edit
can_save-edit p e saving channels h =
    (rw h refl, rw h refl, rw h refl, unselected (Bool-cases (can_save saving channels (edit p e))))
  where
    unselected :
        (can_save saving channels (edit p e) ≡ true) ⊎ (can_save saving channels (edit p e) ≡ false)
        → can_save saving channels (edit p e) ≡ false
    unselected (inl t) = absurd (((can_save_iff saving channels (edit p e)).0 t).1 (rw h refl))
    unselected (inr f) = f

upsert-named :
    (server : Server) (id : String) (vs : List VariantInput)
    → id ≢ ""
    → upsert server (some id) vs ≡ server.update id vs
upsert-named server id vs n = ground (arith, eq_iff id "")

verdict_shown-inputs :
    (unknown : String) (r : Result (List VariantValidation)) (e : Editor)
    → (inputs (verdict_shown unknown r e) ≡ inputs e)
      × ((verdict_shown unknown r e).post_id ≡ e.post_id)
unfolding inputs
verdict_shown-inputs unknown (ok vs) e = (refl, refl)
verdict_shown-inputs unknown (thrown x) e = (refl, refl)
verdict_shown-inputs unknown type_error e = (refl, refl)

inputs-apart :
    (e : Editor) (id : Option String)
    → inputs (record e { post_id = id; verdicts = none; error = none }) ≡ inputs e
unfolding inputs
inputs-apart e id = refl

-- Once a save on the phone has created a post with a nonempty id, whatever its validation answered,
-- the next save updates that post with the same variants, with any server, and creates none.
pub save_updates_next :
    (server later : Server) (e : Editor) (p : Post)
    → e.post_id ≡ none
    → server.create (inputs e) ≡ ok p
    → p.id ≢ ""
    → let f = save server e in
      (f.post_id ≡ some p.id) × (upsert later f.post_id (inputs f) ≡ later.update p.id (inputs e))
unfolding save
save_updates_next server later e p h c n =
    let start = record e { error = none; verdicts = none } in
    let created : upsert server e.post_id (inputs e) ≡ ok p =
      ap (λ o. upsert server o (inputs e)) h ∙ c in
    let saved : save server e ≡ after_upsert server (ok p) start =
      ap (λ r. after_upsert server r start) created in
    let (kept, id) =
      verdict_shown-inputs server.unknown (server.validate p.id)
        (record start { post_id = some p.id }) in
    let now : (save server e).post_id ≡ some p.id = ap (λ f. f.post_id) saved ∙ id in
    let same : inputs (save server e) ≡ inputs e =
      ap inputs saved ∙ kept ∙ inputs-apart e (some p.id) in
    (now, rw (now, same) (upsert-named later p.id (inputs e) n))
