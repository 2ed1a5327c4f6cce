-- ===== src/Web/Composer/Saving.antt =====
-- Saving a draft: what is shown, and that a draft is created once.
use postal.Prelude.{String, ◌≡◌, ◌≢◌, refl, ◌⊎◌, none, some, List, arith, eq_iff, ap, ◌∙◌}
use postal.Schema.{Post, VariantValidation, VariantInput}
use postal.Query.{Result, ok, thrown, type_error}
use postal.Web.Composer.{Editor, Server, verdict_shown, after_upsert, upsert, inputs, save}

-- The editor shows verdicts and no error, or an error and no verdicts.
abbrev pub IsSettled : Editor → Type 0
IsSettled e = ((e.error ≡ none) × (e.verdicts ≢ none)) ⊎ ((e.error ≢ none) × (e.verdicts ≡ none))

verdict_shown-IsSettled :
    (unknown : String) (r : Result (List VariantValidation)) (e : Editor)
    → e.error ≡ none
    → e.verdicts ≡ none
    → IsSettled (verdict_shown unknown r e)
verdict_shown-IsSettled unknown (ok vs) e p q = ground arith
verdict_shown-IsSettled unknown (thrown x) e p q = ground arith
verdict_shown-IsSettled unknown type_error e p q = ground arith

after_upsert-IsSettled :
    (server : Server) (r : Result Post) (e : Editor)
    → e.error ≡ none
    → e.verdicts ≡ none
    → IsSettled (after_upsert server r e)
after_upsert-IsSettled server (ok post) e p q =
    verdict_shown-IsSettled server.unknown (server.validate post.id)
      (record e { post_id = some post.id }) p q
after_upsert-IsSettled server (thrown x) e p q = ground arith
after_upsert-IsSettled server type_error e p q = ground arith

verdict_shown-same :
    (unknown : String) (r : Result (List VariantValidation)) (e : Editor)
    → ((verdict_shown unknown r e).state ≡ e.state)
      × ((verdict_shown unknown r e).post_id ≡ e.post_id)
verdict_shown-same unknown (ok vs) e = (refl, refl)
verdict_shown-same unknown (thrown x) e = (refl, refl)
verdict_shown-same unknown type_error e = (refl, refl)

after_upsert-same :
    (server : Server) (r : Result Post) (e : Editor) → (after_upsert server r e).state ≡ e.state
after_upsert-same server (ok p) e =
    (verdict_shown-same server.unknown (server.validate p.id) (record e { post_id = some p.id })).0
after_upsert-same server (thrown x) e = refl
after_upsert-same server type_error e = refl

-- A save ends with verdicts and no error or with an error and no verdicts, and keeps the draft's
-- contents.
pub save-IsSettled :
    (server : Server) (e : Editor) → IsSettled (save server e) × ((save server e).state ≡ e.state)
unfolding save
save-IsSettled server e =
    let start = record e { error = none; verdicts = none } in
    let r = upsert server e.post_id (inputs e.state) in
    (after_upsert-IsSettled server r start refl refl, after_upsert-same server r start)

upsert-nonempty :
    (server : Server) (id : String) (vs : List VariantInput)
    → id ≢ ""
    → upsert server (some id) vs ≡ server.update id vs
upsert-nonempty server id vs n = ground (arith, eq_iff id "")

-- Once a save has created a post with a nonempty id, whatever its validation answered, the next save
-- updates that post, with any server, and creates none.
pub save_created_once :
    (server later : Server) (e : Editor) (p : Post)
    → e.post_id ≡ none
    → server.create (inputs e.state) ≡ ok p
    → p.id ≢ ""
    → let f = save server e in
      (f.post_id ≡ some p.id)
      × (upsert later f.post_id (inputs f.state) ≡ later.update p.id (inputs e.state))
unfolding save
save_created_once server later e p h c n =
    let start = record e { error = none; verdicts = none } in
    let created : upsert server e.post_id (inputs e.state) ≡ ok p =
      ap (λ o. upsert server o (inputs e.state)) h ∙ c in
    let saved : after_upsert server (upsert server e.post_id (inputs e.state)) start
        ≡ after_upsert server (ok p) start =
      ap (λ r. after_upsert server r start) created in
    let (state, id) =
      verdict_shown-same server.unknown (server.validate p.id)
        (record start { post_id = some p.id }) in
    let now : (save server e).post_id ≡ some p.id = ap (λ f. f.post_id) saved ∙ id in
    let kept : (save server e).state ≡ e.state = ap (λ f. f.state) saved ∙ state in
    (now, rw (now, kept) (upsert-nonempty later p.id (inputs e.state) n))
