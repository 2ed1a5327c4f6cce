-- ===== src/Web/Schedule/Dialog/Refines.antt =====
-- The dialog goes through the phases of publishing, whenever it is closed and opened.
use postal.Prelude.{
  ℕ, suc, ◌+◌, String, ◌≡◌, refl, Option, none, some, List, Bool, true, false, arith,
}
use postal.Schema.{Job}
use postal.Query.{Result}
use postal.Publish.{
  Mode, Clock, range_error, Outcome, created, failed_with, outcome, Phase, form, sending, failed,
  done, Moves, stays, sends, resends, refuses_time, refuses_again, fails, creates, forgets, closes,
  Runs, starts, moves, Shows, unanswered,
}
use postal.Web.Data.Schedule.{ScheduleInput}
use postal.Web.Schedule.Dialog.{
  Dialog, reset, input_of, sent, submit, settled, answered, open_change, choose, type_when,
  shows_form, can_submit,
}

abbrev pub requests : Option ScheduleInput → ℕ
requests none = 0
requests (some i) = 1

-- What happens to the dialog, between the numbers of requests that are sent and not answered: the
-- buttons that are enabled, and an answer to one of these requests.
pub data Step : ℕ → Dialog → ℕ → Dialog → Type 0 where
  submits :
      {n : ℕ} {d : Dialog} (clock : Clock) (post_id : String)
      → shows_form d ≡ true
      → can_submit d ≡ true
      → Step n d (requests (submit clock post_id d).1 + n) (submit clock post_id d).0
  hears : {n : ℕ} {d : Dialog} (r : Result (List Job)) → Step (suc n) d n (answered r d)
  changes : {n : ℕ} {d : Dialog} (next : Bool) → Step n d n (open_change next d)
  chooses : {n : ℕ} {d : Dialog} (mode : Mode) → shows_form d ≡ true → Step n d n (choose mode d)
  types : {n : ℕ} {d : Dialog} (when : String) → shows_form d ≡ true → Step n d n (type_when when d)

pub data Reach (m : ℕ) (d : Dialog) : ℕ → Dialog → Type 0 where
  here : Reach m d m d
  next : {n k : ℕ} {e f : Dialog} → Reach m d n e → Step n e k f → Reach m d k f

abbrev pub ShowsPhase : Dialog → Phase → Type 0
ShowsPhase d p = Shows d.pending d.error d.scheduled p

-- The phase that follows and the move to it, with that many requests unanswered.
abbrev Followed : ℕ → Dialog → Phase → Type 0
Followed n d p = (q : Phase) × Moves p q × ShowsPhase d q × (n ≡ unanswered q)

sent-Followed :
    (i : Option ScheduleInput) (d : Dialog) (p : Phase)
    → ShowsPhase d p
    → d.pending ≡ false
    → d.scheduled ≡ none
    → Followed (requests i + unanswered p) (sent i (record d { error = none })) p
sent-Followed none d form s p c = (failed range_error, refuses_time, (p, refl, c), refl)
sent-Followed none d sending (q, e, s) p c = ground arith
sent-Followed none d (failed f) s p c = (failed range_error, refuses_again, (p, refl, c), refl)
sent-Followed none d (done n) (q, e, s) p c = ground arith
sent-Followed (some i) d form s p c = (sending, sends, (refl, refl, c), refl)
sent-Followed (some i) d sending (q, e, s) p c = ground arith
sent-Followed (some i) d (failed f) s p c = (sending, resends, (refl, refl, c), refl)
sent-Followed (some i) d (done n) (q, e, s) p c = ground arith

settled-Followed :
    (o : Outcome) (n : ℕ) (d : Dialog) (p : Phase)
    → ShowsPhase d p
    → suc n ≡ unanswered p
    → Followed n (settled o d) p
settled-Followed (created m) n d sending (p, e, s) h =
    (done m, creates, (refl, e, refl), omega (arith, h))
settled-Followed (failed_with f) n d sending (p, e, s) h =
    (failed f, fails, (refl, refl, s), omega (arith, h))
settled-Followed o n d form s h = ground (arith, h)
settled-Followed o n d (failed f) s h = ground (arith, h)
settled-Followed o n d (done m) s h = ground (arith, h)

reset-Followed :
    (d : Dialog) (p : Phase)
    → ShowsPhase d p
    → Followed (unanswered p) (reset (record d { is_open = false })) p
unfolding reset
reset-Followed d form (p, e, s) = (form, stays, (p, refl, refl), refl)
reset-Followed d sending (p, e, s) = (sending, stays, (p, refl, refl), refl)
reset-Followed d (failed f) (p, e, s) = (form, forgets, (p, refl, refl), refl)
reset-Followed d (done n) (p, e, s) = (form, closes, (p, refl, refl), refl)

open_change-Followed :
    (next : Bool) (d : Dialog) (p : Phase)
    → ShowsPhase d p
    → Followed (unanswered p) (open_change next d) p
unfolding open_change
open_change-Followed true d p s = (p, stays, s, refl)
open_change-Followed false d p s = reset-Followed d p s

Step-Followed :
    {m : ℕ} {d : Dialog} {n : ℕ} {e : Dialog} (p : Phase)
    → ShowsPhase d p
    → m ≡ unanswered p
    → Step m d n e
    → Followed n e p
unfolding submit answered choose type_when shows_form can_submit
Step-Followed p s h (submits {d = d} clock post_id shown enabled) =
    let input = input_of clock post_id d.mode d.when in
    rw h (sent-Followed input d p s (ground arith) (ground arith))
Step-Followed p s h (hears {n = n} {d = d} r) = settled-Followed (outcome r) n d p s h
Step-Followed p s h (changes {d = d} opened) = rw h (open_change-Followed opened d p s)
Step-Followed p s h (chooses mode shown) = (p, stays, s, h)
Step-Followed p s h (types when shown) = (p, stays, s, h)

-- From a dialog that shows a phase of publishing, whatever is clicked, typed, closed and answered, the
-- dialog shows a phase that publishing reaches from there, and the requests that were sent and not
-- answered are those of that phase: one while it is sending, and none else. So a failure and a
-- number of jobs are never shown together, and no request is sent while one is in flight.
pub dialog-Runs :
    (p : Phase) {d : Dialog} {n : ℕ} {e : Dialog}
    → ShowsPhase d p
    → Reach (unanswered p) d n e
    → (q : Phase) × Runs p q × ShowsPhase e q × (n ≡ unanswered q)
dialog-Runs p s here = (p, starts, s, refl)
dialog-Runs p s (next r step) =
    let (q, runs, t, h) = dialog-Runs p s r in
    let (q', move, u, k) = Step-Followed q t h step in (q', moves runs move, u, k)

-- A dialog that is closed while its request is in flight and opened again shows the answer's number of
-- jobs in place of the form.
pub answered-reopened :
    (jobs : List Job) (d : Dialog)
    → d.pending ≡ true
    → shows_form (open_change true (answered (Result.ok jobs) (open_change false d))) ≡ false
unfolding shows_form open_change answered
answered-reopened jobs d h = refl
