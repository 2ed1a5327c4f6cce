-- ===== src/Web/Composer/Shorten.antt =====
-- web/src/features/composer/composer.tsx: the button "Shorten links", and the texts beside a saved
-- draft.
use postal.Prelude.{
  Text, String, Option, none, some, List, [], ◌∷◌, Bool, true, false, not, ◌&&◌, all, head?, str_eq,
  is_some, value_or, if◌then◌else◌, ◌≡◌, refl, ap, arith, eq_iff, insert,
}
use postal.Schema.{Channel, VariantValidation}
use postal.ApiError.{NormalizedError}
use postal.Query.{Result, ok, thrown, type_error}
use postal.Web.Links.{first_url}
use postal.Web.Hints.{by_id, selected_channels}
use postal.Web.Composer.{
  ComposerState, Editor, Tab, all_channels, channel, body_for, typed, type_body, put_shortened,
}

-- What the catch stores: the server's error, or one of the language, with its message.
pub data ShortenError : Type 0 where
  refused : NormalizedError → ShortenError
  broken : String → ShortenError

-- `pending` is the tab and the text of the click whose mutation is in flight.
pub record Shortener : Type 0 where
  pub pending : Option (Tab × Text)
  pub error : Option ShortenError

abbrev pub mounted : Shortener
mounted = record { pending = none; error = none }

unfoldable pub editing_body : Editor → Text
unfolding body_for
editing_body e = elim e.tab [
  | all_channels ↦ e.state.master_body
  | channel id ↦ body_for e.state id
]

-- The button is shown, and the error beside it.
unfoldable pub is_offered : Editor → Bool
unfolding editing_body
is_offered e = is_some (first_url (editing_body e))

-- `apply` up to its await; the button is disabled while the mutation is pending.
unfoldable pub click : Editor → Shortener → Shortener
unfolding editing_body is_offered
click e s =
    if is_offered e && not (is_some s.pending)
    then record { pending = some (e.tab, editing_body e); error = none }
    else s

abbrev pub settled : Tab → String → Result Text → Editor × Shortener → Editor × Shortener
settled tab unknown (ok text) (e, s) = (put_shortened tab text e, record s { pending = none })
settled tab unknown (thrown (err, _)) (e, s) =
    (e, record { pending = none; error = some (refused err) })
settled tab unknown type_error (e, s) =
    (e, record { pending = none; error = some (broken unknown) })

abbrev pub answer_by :
    Option (Tab × Text) → String → (Text → Result Text) → Editor × Shortener → Editor × Shortener
answer_by none unknown shorten (e, s) = (e, s)
answer_by (some (tab, body)) unknown shorten (e, s) = settled tab unknown (shorten body) (e, s)

-- `apply` behind its await; the server's part is an argument.
unfoldable pub answer : String → (Text → Result Text) → Editor × Shortener → Editor × Shortener
answer unknown shorten (e, s) = answer_by s.pending unknown shorten (e, s)

-- "Open Integrations"
unfoldable pub links_to_integrations : Shortener → Bool
links_to_integrations s = elim s.error [
  | none ↦ false
  | some (refused err) ↦ str_eq err.code "integration_not_configured"
  | some (broken message) ↦ false
]

-- What stands behind "Draft saved. "
unfoldable pub verdicts_note : List VariantValidation → String
verdicts_note vs = if all (λ v. v.valid) vs then "All channels look good." else ""

-- The label of the save button.
unfoldable pub save_label : Bool → Option String → String
save_label saving post_id =
    if saving
    then "Saving…"
    else if is_some post_id && not (str_eq (value_or post_id "") "")
    then "Update draft"
    else "Save draft"

-- The channel whose preview is shown.
unfoldable pub preview_channel : List Channel → Editor → Option Channel
unfolding selected_channels
preview_channel channels e = elim e.tab [
  | all_channels ↦ head? (selected_channels channels e.state.selected)
  | channel id ↦ by_id channels id
]

insert-insert :
    (id : String) (a b : Text) (l : List (String × Text))
    → insert id a (insert id b l) ≡ insert id a l
unfolding insert
insert-insert id a b [] = ground (arith, eq_iff id id)
insert-insert id a b ((j, t) ∷ l) =
    ground (arith, eq_iff j id, eq_iff id id, insert-insert id a b l)

typed-typed :
    (tab : Tab) (a b : Text) (s : ComposerState) → typed tab a (typed tab b s) ≡ typed tab a s
typed-typed all_channels a b s = refl
typed-typed (channel id) a b s =
    ap (λ o. record s { overrides = o }) (insert-insert id a b s.overrides)

-- What is typed into the tab while its links are being shortened is lost: behind an answer with a
-- text, the editor is the one that nothing was typed into.
pub answer-type_body :
    (unknown : String) (shorten : Text → Result Text) (e : Editor) (s : Shortener)
    (body text : Text)
    → s.pending ≡ none
    → is_offered e ≡ true
    → shorten (editing_body e) ≡ ok text
    → answer unknown shorten (type_body body e, click e s) ≡ answer unknown shorten (e, click e s)
unfolding answer click type_body put_shortened
answer-type_body unknown shorten e s body text idle offered h =
    rw (idle, offered, h)
      (ap (λ state. (record e { state = state }, record { pending = none; error = none }))
        (typed-typed e.tab text body e.state))
