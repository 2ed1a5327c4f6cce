-- ===== src/Tests/Publish.antt =====
-- Publishing a draft from both apps.
use postal.Prelude.{◌≡◌, refl, none, some, [], ◌∷◌, true, false}
use postal.Schema.{Post, Job, scheduled}
use postal.Query.{ok}
use postal.Publish.{Clock, slots, Phase, form, Runs, unanswered}
use postal.Web.Schedule.Dialog as Web
use postal.Web.Schedule.Dialog.Refines as WebRefines
use postal.Mobile.Publish as Phone
use postal.Mobile.Publish.Refines as PhoneRefines
use postal.Mobile.Drafts.{publish, close, in_flight, submit_sheet}
use postal.Mobile.Drafts.Laws.{sheet_enabled, publish-twice}

-- Noon, in a time zone that reads no text.
abbrev pub clock : Clock
clock = record { now = 43200000; iso = λ t. "1970-01-01T12:00:03.000Z"; local = λ s. none }

abbrev job : Job
job = record {
  id = "j";
  post_id = "p";
  channel_id = "x";
  run_at = "1970-01-01T12:00:03.000Z";
  status = scheduled;
  attempts = 0;
  last_error = none;
  created_at = "";
}

-- Opened, switched to slots, sent, closed, answered and opened again.
abbrev opened : Web.Dialog
opened = Web.open_change true Web.mounted

abbrev sent : Web.Dialog
sent = (Web.submit clock "p" (Web.choose slots opened)).0

abbrev reopened : Web.Dialog
reopened = Web.open_change true (Web.answered (ok (job ∷ [])) (Web.open_change false sent))

clicks : WebRefines.Reach 0 Web.mounted 0 reopened
unfolding Web.mounted Web.open_change Web.submit Web.choose Web.answered Web.shows_form
    Web.can_submit Web.reset Web.input_of
clicks =
    WebRefines.next
      (WebRefines.next
        (WebRefines.next
          (WebRefines.next
            (WebRefines.next (WebRefines.next WebRefines.here (WebRefines.changes true))
              (WebRefines.chooses slots refl))
            (WebRefines.submits clock "p" refl refl))
          (WebRefines.changes false))
        (WebRefines.hears (ok (job ∷ []))))
      (WebRefines.changes true)

mounted-ShowsPhase : WebRefines.ShowsPhase Web.mounted form
unfolding Web.mounted
mounted-ShowsPhase = (refl, refl, refl)

dialog-Runs_example :
    (q : Phase) × Runs form q × WebRefines.ShowsPhase reopened q × (0 ≡ unanswered q)
dialog-Runs_example = WebRefines.dialog-Runs form mounted-ShowsPhase clicks

abbrev sheet_sent : Phone.Sheet
sheet_sent = (Phone.submit clock "p" (Phone.mounted clock)).0

presses : PhoneRefines.Reach 0 (Phone.mounted clock) 0 (Phone.answered (ok (job ∷ [])) sheet_sent)
unfolding Phone.mounted Phone.submit Phone.shows_form Phone.can_submit
presses =
    PhoneRefines.next
      (PhoneRefines.next PhoneRefines.here (PhoneRefines.submits clock "p" refl refl))
      (PhoneRefines.hears (ok (job ∷ [])))

sheet-ShowsPhase : PhoneRefines.ShowsPhase (Phone.mounted clock) form
unfolding Phone.mounted
sheet-ShowsPhase = (refl, refl, refl)

sheet-Runs_example :
    (q : Phase) × Runs form q
    × PhoneRefines.ShowsPhase (Phone.answered (ok (job ∷ [])) sheet_sent) q
    × (0 ≡ unanswered q)
sheet-Runs_example = PhoneRefines.sheet-Runs form sheet-ShowsPhase presses

-- The sheet counts the job that was created.
counted : (Phone.answered (ok (job ∷ [])) sheet_sent).scheduled ≡ some 1
unfolding Phone.answered Phone.submit Phone.mounted
counted = refl

abbrev post : Post
post = record {
  id = "p";
  workspace_id = "w";
  author_user_id = none;
  status = "draft";
  created_at = "";
  variants = none;
}

sheet_sent-pending : sheet_sent.pending ≡ true
unfolding Phone.submit
sheet_sent-pending = refl

publish-twice_example :
    let reopened =
      publish clock post
        (close (record { publishing = some ("p", sheet_sent); open_requests = 0 })) in
    (in_flight reopened ≡ 1)
    × (sheet_enabled reopened.publishing ≡ true)
    × (in_flight (submit_sheet clock reopened) ≡ 2)
publish-twice_example = publish-twice clock post sheet_sent 0 sheet_sent-pending
