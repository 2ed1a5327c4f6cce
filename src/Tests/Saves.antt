-- ===== src/Tests/Saves.antt =====
-- A draft for one channel that is edited while its save is in flight.
use postal.Prelude.{
  String, ◌≡◌, ◌≢◌, ◌≤◌, refl, sym, ap, ◌∙◌, lookup, Text, none, some, List, [], ◌∷◌, ◌++◌, map,
  false, true, All, arith, length, codes, is_space, eq_iff,
}
use postal.Schema.{Post, VariantInput}
use postal.Query.{Result, ok}
use postal.Web.Composer.{
  Editor, all_channels, inputs, body_for, toggle_channel, Server, open_editor, from_post, can_save,
  save, type_body,
}
use postal.Web.Composer.Session.{
  Session, mounted, click, answer, creates, updates, validates, types, toggles, edits, clicks,
  answers, all_edited, Action, Edit, run, target_of,
}
use postal.Web.Composer.Session.Meanwhile.{with_edits, run-save}
use postal.Web.Composer.Shorten.{is_offered, answer-type_body}
use postal.Web.Composer.Shorten.{mounted as idle, answer as answer_short, click as click_short}
use postal.Web.Links.{first_url, url_chars}
use postal.Web.Composer.Session.OnePost.{IsNaming, IsFor, run-IsFor}

abbrev reply : String → Post
reply id = record {
  id = id;
  workspace_id = "w";
  author_user_id = none;
  status = "draft";
  created_at = "";
  variants = none;
}

abbrev backend : Server
backend = record {
  create = λ vs. ok (reply "p");
  update = λ id vs. ok (reply id);
  validate = λ id. ok [];
  unknown = "TypeError";
}

abbrev id_of : Result Post → String
id_of (ok p) = p.id
id_of _ = ""

named : ◌≢◌ {A = String} "p" ""
named e = let differ : false ≡ true = (eq_iff "p" "").1 e in cc

backend-IsNaming : IsNaming backend
backend-IsNaming = record {
  create_named = λ vs p e k. named (ap id_of e ∙ k);
  update_same = λ id vs p e. ap id_of (sym e);
}

abbrev drawn : Session
drawn = record {
  editor = record {
    state = record { selected = "x" ∷ []; master_body = codes "hello"; overrides = []; media = [] };
    post_id = none;
    tab = all_channels;
    error = none;
    verdicts = none;
  };
  pending = none;
  sent = [];
  targets = [];
}

drawn-can_save : can_save false drawn.editor ≡ true
unfolding can_save is_space
drawn-can_save = refl

abbrev before : List Edit
before = types (codes "hello all") ∷ []

abbrev behind : List Edit
behind = toggles "insta" ∷ []

run-save_example :
    let meanwhile =
      run
        (clicks ∷ map edits before ++ (answers backend ∷ map edits behind ++ answers backend ∷ []))
        drawn in
    (meanwhile.editor
      ≡ with_edits (all_edited (before ++ behind) drawn.editor) (save backend drawn.editor))
    × (meanwhile.pending ≡ none)
    × (meanwhile.sent ≡ (run (clicks ∷ answers backend ∷ answers backend ∷ []) drawn).sent)
run-save_example = run-save backend drawn before behind refl drawn-can_save

abbrev draft_inputs : List VariantInput
draft_inputs = record { channel_id = "x"; body = some (codes "hello"); media = none } ∷ []

abbrev two_saves : List Action
two_saves =
    edits (toggles "x")
    ∷ edits (types (codes "hello"))
    ∷ clicks
    ∷ answers backend
    ∷ clicks
    ∷ answers backend
    ∷ clicks
    ∷ answers backend
    ∷ []

nothing_opened : ¬ (target_of none ≡ "" ∷ [])
nothing_opened e = ground (arith, e)

run-IsFor_example :
    (length (run two_saves (mounted none)).targets ≤ 1)
    × All (IsFor (run two_saves (mounted none)).targets) (run two_saves (mounted none)).sent
run-IsFor_example =
    run-IsFor none two_saves nothing_opened
      (tt, (tt, (tt, (backend-IsNaming, (tt, (backend-IsNaming, (tt, (backend-IsNaming, tt))))))))

-- The second click comes while the first save is in flight, and sends nothing.
two_saves-sent :
    (run two_saves (mounted none)).sent
    ≡ validates "p" ∷ updates "p" draft_inputs ∷ validates "p" ∷ creates draft_inputs ∷ []
unfolding mounted click answer open_editor from_post toggle_channel type_body inputs body_for
    can_save is_space lookup
two_saves-sent = refl

abbrev linked : Editor
linked = record drawn.editor {
  state = record drawn.editor.state { master_body = codes "see https://a.b/c" };
}

linked-is_offered : is_offered linked ≡ true
unfolding is_offered first_url is_space url_chars
linked-is_offered = refl

abbrev short : Text
short = codes "see https://s/1"

answer-type_body_at :
    answer_short "TypeError"
      (λ t. ok short)
      (type_body (codes "see nothing") linked, click_short linked idle)
    ≡ answer_short "TypeError" (λ t. ok short) (linked, click_short linked idle)
answer-type_body_at =
    answer-type_body "TypeError" (λ t. ok short) linked idle (codes "see nothing") short refl
      linked-is_offered refl
