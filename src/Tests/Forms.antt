-- ===== src/Tests/Forms.antt =====
-- The forms of the accounts, the page that connects, the composer's screen and the phone's calendar.
use postal.Prelude.{
  String, ◌≡◌, refl, Option, none, some, List, [], ◌∷◌, true, false, not, codes, str_eq, ltb, ◌||◌,
  lookup, value_or, arith,
}
use mathlib.Core.List.{Perm}
use postal.ApiError.{NormalizedError}
use postal.Schema.{Post, Channel, active, Job, scheduled, User}
use postal.Query.{ok, thrown}
use postal.Web.Composer.{open_editor, Server, upsert}
use postal.Web.ComposeScreen.{Screen, Detail, key, composer, shown, says_editing}
use postal.Web.ComposeScreen.Lost.{shown-composer}
use postal.Web.Channels.Callback.{mounted}
use postal.Web.Channels.Callback.Once.{Happening, runs, hears, history, wanted, history-wanted}
use postal.Web.Auth.Forms as Forms
use postal.Web.Auth.Resend as Resend
use postal.Web.Auth.Resend.Cooldown.{ticks, ticks-answered}
use postal.Mobile.Calendar as Calendar
use postal.Mobile.Calendar.Groups.{IsSorted, on_day, groups-days}

abbrev channel : Channel
channel = record {
  id = "x";
  platform = "twitter";
  platform_account_id = "1";
  handle = codes "ada";
  display_name = codes "Ada";
  status = active;
  connected_by = none;
  created_at = "";
}

abbrev post : Post
post = record {
  id = "new";
  workspace_id = "w";
  author_user_id = none;
  status = "draft";
  created_at = "";
  variants = none;
}

abbrev server : Server
server = record {
  create = λ vs. ok post;
  update = λ id vs. ok post;
  validate = λ id. ok [];
  unknown = "";
}

abbrev lost : Detail
lost = record { is_pending = false; post = none }

abbrev editing : Screen
editing = record { editing_id = some "p" }

says : says_editing editing ≡ true
unfolding says_editing
says = refl

empty_composer :
    shown true false (some (channel ∷ [])) lost editing ≡ composer "p" (open_editor none)
unfolding shown
empty_composer = refl

shown-composer_example :
    (lost.is_pending ≡ false)
    × ("p" ≡ key editing.editing_id)
    × (open_editor none ≡ open_editor lost.post)
    × (lost.post ≡ none → upsert server (open_editor none).post_id [] ≡ server.create [])
shown-composer_example =
    shown-composer true false (some (channel ∷ [])) lost editing "p" (open_editor none) server []
      says empty_composer

-- The effect runs twice more, around an answer.
abbrev again : List Happening
again = runs ∷ hears "" (ok channel) ∷ runs ∷ []

history-wanted_example :
    (history (runs ∷ again) (mounted (some (codes "s")) (some (codes "c")))).sent
    ≡ wanted (some (codes "s")) (some (codes "c"))
history-wanted_example = history-wanted (some (codes "s")) (some (codes "c")) again

abbrev refusal : NormalizedError
refusal = record {
  code = "invalid_credentials";
  message = "Wrong password.";
  field_errors = [];
  request_id = none;
  status = 401;
}

abbrev refused : Forms.Settled (Option User)
refused = Forms.replied (
    thrown (
      refusal,
      record { title = ""; request_id = none; code = some "invalid_credentials"; status = 401 },
    ))

addressed : str_eq (Resend.mounted "a@b.c").email "" ≡ false
unfolding Resend.mounted
addressed = refl

ticks-answered_example :
    Resend.can_click (ticks 60 (Resend.answered "" (ok tt) (Resend.mounted "a@b.c")))
    ≡ not (ltb 60 60)
ticks-answered_example = ticks-answered "" (ok tt) (Resend.mounted "a@b.c") 60 addressed

-- A locale in which only "1" and "2" are told apart, and a day is named by its text.
abbrev locale : Calendar.Locale
locale = record { before = λ a b. not (str_eq a "2") || str_eq b "2"; day_key = λ s. s }

locale_total :
    (a b : String)
    → (not (str_eq a "2") || str_eq b "2") ≡ false
    → (not (str_eq b "2") || str_eq a "2") ≡ true
locale_total a b h = ground arith

abbrev job : String → Job
job at = record {
  id = at;
  post_id = "p";
  channel_id = "x";
  run_at = at;
  status = scheduled;
  attempts = 0;
  last_error = none;
  created_at = "";
}

abbrev listed : List Job
listed = job "2" ∷ job "1" ∷ job "2" ∷ []

groups-days_example :
    IsSorted locale (Calendar.sorted locale listed)
    × Perm (Calendar.sorted locale listed) listed
    × (value_or (lookup "2" (Calendar.groups locale (some listed))) []
        ≡ on_day locale "2" (Calendar.sorted locale listed))
groups-days_example = groups-days locale locale_total listed "2"
