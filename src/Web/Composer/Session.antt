-- ===== src/Web/Composer/Session.antt =====
-- web/src/features/composer/composer.tsx: the editor with its save in flight. `save` is cut at its
-- awaits, so that edits come between the click and the answers.
pub mod Meanwhile
pub mod OnePost
use postal.Prelude.{Text, String, Option, none, some, List, [], ◌∷◌, str_eq, if◌then◌else◌, is_some}
use postal.Schema.{Post, VariantInput, VariantValidation, Asset}
use postal.Query.{Result, ok, thrown, type_error}
use postal.Web.Composer.{
  Editor, Tab, open_editor, toggle_channel, open_tab, type_body, put_shortened, reset_override,
  attach, detach, inputs, Server, verdict_shown, can_save,
}

pub data Edit : Type 0 where
  toggles : String → Edit
  opens : Tab → Edit
  types : Text → Edit
  shortens : Tab → Text → Edit
  resets : Edit
  attaches : Asset → Edit
  detaches : String → Edit

abbrev pub edited : Edit → Editor → Editor
edited (toggles id) e = toggle_channel id e
edited (opens tab) e = open_tab tab e
edited (types body) e = type_body body e
edited (shortens tab text) e = put_shortened tab text e
edited resets e = reset_override e
edited (attaches a) e = attach a e
edited (detaches id) e = detach id e

abbrev pub all_edited : List Edit → Editor → Editor
all_edited [] e = e
all_edited (x ∷ xs) e = all_edited xs (edited x e)

-- What a save sends.
pub data Request : Type 0 where
  creates : List VariantInput → Request
  updates : String → List VariantInput → Request
  validates : String → Request

-- `pending` is the mutation that is in flight, `sent` are all requests, the last first, and
-- `targets` are the posts that the editor has been opened with or has created.
pub record Session : Type 0 where
  pub editor : Editor
  pub pending : Option Request
  pub sent : List Request
  pub targets : List String

abbrev pub target_of : Option Post → List String
target_of none = []
target_of (some p) = p.id ∷ []

unfoldable pub mounted : Option Post → Session
mounted initial = record {
  editor = open_editor initial;
  pending = none;
  sent = [];
  targets = target_of initial;
}

-- `postId ? update : create`
abbrev pub request_of : Option String → List VariantInput → Request
request_of none vs = creates vs
request_of (some id) vs = if str_eq id "" then creates vs else updates id vs

-- `save` up to its first await.
abbrev pub begun : Request → Session → Session
begun r s = record s {
  editor = record s.editor { error = none; verdicts = none };
  pending = some r;
  sent = r ∷ s.sent;
}

-- A click on the save button, which is disabled while a mutation is pending.
unfoldable pub click : Session → Session
unfolding inputs can_save
click s =
    if can_save (is_some s.pending) s.editor
    then begun (request_of s.editor.post_id (inputs s.editor.state)) s
    else s

abbrev pub failed : String → Session → Session
failed message s = record s { editor = record s.editor { error = some message }; pending = none }

-- From the first await to the second; the mutation that validates is pending before the next render.
abbrev pub upserted : String → List String → Result Post → Session → Session
upserted unknown targets (ok p) s = record s {
  editor = record s.editor { post_id = some p.id };
  pending = some (validates p.id);
  sent = validates p.id ∷ s.sent;
  targets = targets;
}
upserted unknown targets (thrown (err, _)) s = failed err.message s
upserted unknown targets type_error s = failed unknown s

abbrev pub created : Result Post → List String → List String
created (ok p) targets = p.id ∷ targets
created (thrown x) targets = targets
created type_error targets = targets

-- What follows the await of a request that the server answers.
abbrev pub answer_to : Server → Request → Session → Session
answer_to server (creates vs) s =
    upserted server.unknown (created (server.create vs) s.targets) (server.create vs) s
answer_to server (updates id vs) s = upserted server.unknown s.targets (server.update id vs) s
answer_to server (validates id) s = record s {
  editor = verdict_shown server.unknown (server.validate id) s.editor;
  pending = none;
}

abbrev pub answer_by : Server → Option Request → Session → Session
answer_by server none s = s
answer_by server (some r) s = answer_to server r s

unfoldable pub answer : Server → Session → Session
answer server s = answer_by server s.pending s

pub data Action : Type 0 where
  edits : Edit → Action
  clicks : Action
  answers : Server → Action

abbrev pub act : Action → Session → Session
act (edits x) s = record s { editor = edited x s.editor }
act clicks s = click s
act (answers server) s = answer server s

abbrev pub run : List Action → Session → Session
run [] s = s
run (a ∷ l) s = run l (act a s)
