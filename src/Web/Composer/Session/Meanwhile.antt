-- ===== src/Web/Composer/Session/Meanwhile.antt =====
-- What is edited while a save is in flight.
use postal.Prelude.{
  String, Option, none, some, List, [], ◌∷◌, ◌++◌, map, true, ◌≡◌, refl, sym, ap, ◌∙◌, false,
  str_eq, Bool-cases, inl, inr,
}
use postal.Schema.{Post, VariantInput, VariantValidation}
use postal.Query.{Result, ok, thrown, type_error}
use postal.Web.Composer.{
  Editor, toggle_channel, open_tab, type_body, put_shortened, reset_override, attach, detach,
  can_save, inputs, Server, verdict_shown, after_upsert, upsert, save,
}
use postal.Web.Composer.Session.{
  Edit, toggles, opens, types, shortens, resets, attaches, detaches, edited, all_edited, Request,
  creates, updates, validates, Session, request_of, click, begun, created, upserted, answer_to,
  answer_by, answer, Action, edits, clicks, answers, run,
}

-- The contents and the tab of the one with the post and the messages of the other.
abbrev pub with_edits : Editor → Editor → Editor
with_edits drawn e = record e { state = drawn.state; tab = drawn.tab }

edited-with_edits :
    (x : Edit) (drawn e : Editor)
    → e.verdicts ≡ none
    → edited x (with_edits drawn e) ≡ with_edits (edited x drawn) e
unfolding toggle_channel open_tab type_body put_shortened reset_override attach detach
edited-with_edits (toggles id) drawn e h =
    ap (λ v. record (with_edits (toggle_channel id drawn) e) { verdicts = v }) (sym h)
edited-with_edits (opens tab) drawn e h = refl
edited-with_edits (types body) drawn e h = refl
edited-with_edits (shortens tab text) drawn e h = refl
edited-with_edits resets drawn e h = refl
edited-with_edits (attaches a) drawn e h = refl
edited-with_edits (detaches id) drawn e h = refl

all_edited-with_edits :
    (l : List Edit) (drawn e : Editor)
    → e.verdicts ≡ none
    → all_edited l (with_edits drawn e) ≡ with_edits (all_edited l drawn) e
all_edited-with_edits [] drawn e h = refl
all_edited-with_edits (x ∷ l) drawn e h =
    ap (all_edited l) (edited-with_edits x drawn e h) ∙ all_edited-with_edits l (edited x drawn) e h

all_edited-append :
    (l m : List Edit) (e : Editor) → all_edited (l ++ m) e ≡ all_edited m (all_edited l e)
all_edited-append [] m e = refl
all_edited-append (x ∷ l) m e = all_edited-append l m (edited x e)

run-edits :
    (l : List Edit) (rest : List Action) (s : Session)
    → run (map edits l ++ rest) s ≡ run rest (record s { editor = all_edited l s.editor })
run-edits [] rest s = refl
run-edits (x ∷ l) rest s = run-edits l rest (record s { editor = edited x s.editor })

abbrev pub over : Editor → Session → Session
over drawn s = record s { editor = with_edits drawn s.editor }

run-over :
    (l : List Edit) (rest : List Action) (drawn : Editor) (s : Session)
    → s.editor.verdicts ≡ none
    → run (map edits l ++ rest) (over drawn s) ≡ run rest (over (all_edited l drawn) s)
run-over l rest drawn s h =
    run-edits l rest (over drawn s)
    ∙ ap (λ e. run rest (record s { editor = e })) (all_edited-with_edits l drawn s.editor h)

upserted-over :
    (unknown : String) (targets : List String) (r : Result Post) (drawn : Editor) (s : Session)
    → upserted unknown targets r (over drawn s) ≡ over drawn (upserted unknown targets r s)
upserted-over unknown targets (ok p) drawn s = refl
upserted-over unknown targets (thrown (err, x)) drawn s = refl
upserted-over unknown targets type_error drawn s = refl

verdict_shown-with_edits :
    (unknown : String) (r : Result (List VariantValidation)) (drawn e : Editor)
    → verdict_shown unknown r (with_edits drawn e) ≡ with_edits drawn (verdict_shown unknown r e)
verdict_shown-with_edits unknown (ok vs) drawn e = refl
verdict_shown-with_edits unknown (thrown (err, x)) drawn e = refl
verdict_shown-with_edits unknown type_error drawn e = refl

answer_by-over :
    (server : Server) (pending : Option Request) (drawn : Editor) (s : Session)
    → answer_by server pending (over drawn s) ≡ over drawn (answer_by server pending s)
answer_by-over server none drawn s = refl
answer_by-over server (some (creates vs)) drawn s =
    upserted-over server.unknown (created (server.create vs) s.targets) (server.create vs) drawn s
answer_by-over server (some (updates id vs)) drawn s =
    upserted-over server.unknown s.targets (server.update id vs) drawn s
answer_by-over server (some (validates id)) drawn s =
    ap (λ e. record s { editor = e; pending = none })
      (verdict_shown-with_edits server.unknown (server.validate id) drawn s.editor)

answer-over :
    (server : Server) (drawn : Editor) (s : Session)
    → answer server (over drawn s) ≡ over drawn (answer server s)
unfolding answer
answer-over server drawn s = answer_by-over server s.pending drawn s

-- The two answers to a save, without an edit.
answered_twice :
    (server : Server) (targets : List String) (r : Result Post) (s : Session)
    → let t = upserted server.unknown targets r s in
      (t.editor.verdicts ≡ s.editor.verdicts)
      × ((answer server t).editor ≡ after_upsert server r s.editor)
      × ((answer server t).pending ≡ none)
unfolding answer
answered_twice server targets (ok p) s = (refl, refl, refl)
answered_twice server targets (thrown (err, x)) s = (refl, refl, refl)
answered_twice server targets type_error s = (refl, refl, refl)

answer_to-upsert :
    (server : Server) (post_id : Option String) (vs : List VariantInput) (s : Session)
    → let t = answer_to server (request_of post_id vs) s in
      (t.editor.verdicts ≡ s.editor.verdicts)
      × ((answer server t).editor ≡ after_upsert server (upsert server post_id vs) s.editor)
      × ((answer server t).pending ≡ none)
answer_to-upsert server none vs s =
    answered_twice server (created (server.create vs) s.targets) (server.create vs) s
answer_to-upsert server (some id) vs s = elim (Bool-cases (str_eq id "")) [
  | inl p ↦ rw p (answered_twice server (created (server.create vs) s.targets) (server.create vs) s)
  | inr p ↦ rw p (answered_twice server s.targets (server.update id vs) s)
]

-- A save of what can be saved, with edits of the draft before its first answer and before its second,
-- ends with no mutation pending and with what `save` shows without them, its messages and its post,
-- over the edited draft; and it has sent the same requests.
pub run-save :
    (server : Server) (s : Session) (l m : List Edit)
    → s.pending ≡ none
    → can_save false s.editor ≡ true
    → let meanwhile =
        run (clicks ∷ map edits l ++ (answers server ∷ map edits m ++ answers server ∷ [])) s in
      (meanwhile.editor ≡ with_edits (all_edited (l ++ m) s.editor) (save server s.editor))
      × (meanwhile.pending ≡ none)
      × (meanwhile.sent ≡ (run (clicks ∷ answers server ∷ answers server ∷ []) s).sent)
unfolding click save answer
run-save server s l m idle can =
    let r = request_of s.editor.post_id (inputs s.editor.state) in
    let clicked : click s ≡ begun r s = rw (idle, can) refl in
    let (quiet, ended, rest) =
      answer_to-upsert server s.editor.post_id (inputs s.editor.state) (begun r s) in
    let d = all_edited l s.editor in
    let last = answers server ∷ [] in
    let steps : run (map edits l ++ (answers server ∷ map edits m ++ last)) (begun r s)
        ≡ over (all_edited m d) (answer server (answer_to server r (begun r s))) =
      run-over l (answers server ∷ map edits m ++ last) s.editor (begun r s) refl
      ∙ ap (run (map edits m ++ last)) (answer-over server d (begun r s))
      ∙ run-over m last d (answer_to server r (begun r s)) quiet
      ∙ answer-over server (all_edited m d) (answer_to server r (begun r s)) in
    let whole = ap (run (map edits l ++ (answers server ∷ map edits m ++ last))) clicked ∙ steps in
    let plain = ap (run (answers server ∷ last)) clicked in
    let joined = ap (λ e. with_edits e (save server s.editor)) (all_edited-append l m s.editor) in
    (
      ap (λ t. t.editor) whole ∙ ap (with_edits (all_edited m d)) ended ∙ sym joined,
      ap (λ t. t.pending) whole ∙ rest,
      ap (λ t. t.sent) whole ∙ sym (ap (λ t. t.sent) plain),
    )
