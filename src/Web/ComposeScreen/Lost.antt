-- ===== src/Web/ComposeScreen/Lost.antt =====
-- What is opened where a draft cannot be loaded.
use postal.Prelude.{
  if◌then◌else◌, String, ◌≡◌, refl, Option, none, some, List, [], ◌∷◌, Bool, true, false, arith,
  not, ◌||◌,
}
use postal.Schema.{Post, Channel, VariantInput}
use postal.Web.Composer.{Editor, open_editor, Server, upsert}
use postal.Web.ComposeScreen.{
  Screen, Detail, Shown, loading_composer, loading_draft, with_channels, key, composer, shown,
  says_editing,
}

started :
    (b : Bool) (rest : Shown) (k : String) (e : Editor)
    → (if b then loading_composer else rest) ≡ composer k e
    → rest ≡ composer k e
started true rest k e h = ground (arith, h)
started false rest k e h = h

listed :
    (channels : Option (List Channel)) (rest : Shown) (k : String) (e : Editor)
    → with_channels channels rest ≡ composer k e
    → rest ≡ composer k e
listed none rest k e h = ground (arith, h)
listed (some []) rest k e h = ground (arith, h)
listed (some (c ∷ cs)) rest k e h = h

opened :
    (pending : Bool) (k l : String) (e f : Editor)
    → (if pending then loading_draft else composer l f) ≡ composer k e
    → (pending ≡ false) × (k ≡ l) × (e ≡ f)
opened true k l e f h = ground (arith, h)
opened false k l e f h = (refl, cc, cc)

unsaved :
    (post : Option Post) (server : Server) (vs : List VariantInput)
    → post ≡ none
    → upsert server (open_editor post).post_id vs ≡ server.create vs
unfolding open_editor
unsaved none server vs h = refl
unsaved (some p) server vs h = ground (arith, h)

-- Whenever the screen says that it edits a saved draft and shows a composer, the query of that draft
-- has ended, and the composer is that of the draft; but where the draft could not be loaded it is
-- the empty one, and what is then saved goes into a new post.
pub shown-composer :
    (active is_pending : Bool) (channels : Option (List Channel)) (d : Detail) (s : Screen)
    (k : String) (e : Editor) (server : Server) (vs : List VariantInput)
    → says_editing s ≡ true
    → shown active is_pending channels d s ≡ composer k e
    → (d.is_pending ≡ false)
      × (k ≡ key s.editing_id)
      × (e ≡ open_editor d.post)
      × (d.post ≡ none → upsert server e.post_id vs ≡ server.create vs)
unfolding says_editing shown
shown-composer active is_pending channels d s k e server vs editing h =
    let rest = listed channels _ k e (started (not active || is_pending) _ k e h) in
    let (ended, named, same) =
      opened d.is_pending k (key s.editing_id) e (open_editor d.post) (rw editing at rest) in
    (ended, named, same, λ lost. rw same (unsaved d.post server vs lost))
