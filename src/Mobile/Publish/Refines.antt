-- ===== src/Mobile/Publish/Refines.antt =====
-- The sheet goes through the phases of publishing that the web app's dialog goes through.
use postal.Prelude.{ℕ, suc, String, ◌≡◌, refl, Option, none, List, true, false, arith}
use postal.Schema.{Job}
use postal.Query.{Result}
use postal.Publish.{
  Mode, Clock, Outcome, created, failed_with, outcome, Phase, form, sending, failed, done, Moves,
  stays, sends, resends, fails, creates, forgets, closes, Runs, starts, moves, Shows, unanswered,
}
use postal.Mobile.Publish.{
  Picker, Sheet, reset, submit, settled, answered, choose, pick, picked, shows_form, can_submit,
}

-- What happens to the sheet, between the numbers of requests that are sent and not answered: the
-- buttons that are enabled, and an answer to one of these requests.
pub data Step : ℕ → Sheet → ℕ → Sheet → Type 0 where
  submits :
      {n : ℕ} {s : Sheet} (clock : Clock) (post_id : String)
      → shows_form s ≡ true
      → can_submit s ≡ true
      → Step n s (suc n) (submit clock post_id s).0
  hears : {n : ℕ} {s : Sheet} (r : Result (List Job)) → Step (suc n) s n (answered r s)
  resets : {n : ℕ} {s : Sheet} → Step n s n (reset s)
  chooses : {n : ℕ} {s : Sheet} (mode : Mode) → shows_form s ≡ true → Step n s n (choose mode s)
  opens : {n : ℕ} {s : Sheet} (picker : Picker) → shows_form s ≡ true → Step n s n (pick picker s)
  picks : {n : ℕ} {s : Sheet} (d : Option ℕ) → Step n s n (picked d s)

pub data Reach (m : ℕ) (s : Sheet) : ℕ → Sheet → Type 0 where
  here : Reach m s m s
  next : {n k : ℕ} {t u : Sheet} → Reach m s n t → Step n t k u → Reach m s k u

abbrev pub ShowsPhase : Sheet → Phase → Type 0
ShowsPhase s p = Shows s.pending s.error s.scheduled p

-- The phase that follows and the move to it, with that many requests unanswered.
abbrev Followed : ℕ → Sheet → Phase → Type 0
Followed n s p = (q : Phase) × Moves p q × ShowsPhase s q × (n ≡ unanswered q)

submit-Followed :
    (clock : Clock) (post_id : String) (s : Sheet) (p : Phase)
    → ShowsPhase s p
    → s.pending ≡ false
    → s.scheduled ≡ none
    → Followed (suc (unanswered p)) (submit clock post_id s).0 p
unfolding submit
submit-Followed clock post_id s form (h, e, c) p n = (sending, sends, (refl, refl, n), refl)
submit-Followed clock post_id s sending (h, e, c) p n = ground arith
submit-Followed clock post_id s (failed f) (h, e, c) p n = (sending, resends, (refl, refl, n), refl)
submit-Followed clock post_id s (done m) (h, e, c) p n = ground arith

settled-Followed :
    (o : Outcome) (n : ℕ) (s : Sheet) (p : Phase)
    → ShowsPhase s p
    → suc n ≡ unanswered p
    → Followed n (settled o s) p
settled-Followed (created m) n s sending (p, e, c) h =
    (done m, creates, (refl, e, refl), omega (arith, h))
settled-Followed (failed_with f) n s sending (p, e, c) h =
    (failed f, fails, (refl, refl, c), omega (arith, h))
settled-Followed o n s form c h = ground (arith, h)
settled-Followed o n s (failed f) c h = ground (arith, h)
settled-Followed o n s (done m) c h = ground (arith, h)

reset-Followed : (s : Sheet) (p : Phase) → ShowsPhase s p → Followed (unanswered p) (reset s) p
unfolding reset
reset-Followed s form (p, e, c) = (form, stays, (p, refl, refl), refl)
reset-Followed s sending (p, e, c) = (sending, stays, (p, refl, refl), refl)
reset-Followed s (failed f) (p, e, c) = (form, forgets, (p, refl, refl), refl)
reset-Followed s (done n) (p, e, c) = (form, closes, (p, refl, refl), refl)

Step-Followed :
    {m : ℕ} {s : Sheet} {n : ℕ} {t : Sheet} (p : Phase)
    → ShowsPhase s p
    → m ≡ unanswered p
    → Step m s n t
    → Followed n t p
unfolding answered choose pick picked shows_form can_submit
Step-Followed p h k (submits {s = s} clock post_id shown enabled) =
    rw k (submit-Followed clock post_id s p h (ground arith) (ground arith))
Step-Followed p h k (hears {n = n} {s = s} r) = settled-Followed (outcome r) n s p h k
Step-Followed p h k (resets {s = s}) = rw k (reset-Followed s p h)
Step-Followed p h k (chooses mode shown) = (p, stays, h, k)
Step-Followed p h k (opens picker shown) = (p, stays, h, k)
Step-Followed p h k (picks d) = (p, stays, h, k)

-- From a sheet that shows a phase of publishing, whatever is pressed, picked, reset and answered, the
-- sheet shows a phase that publishing reaches from there, and the requests that were sent and not
-- answered are those of that phase: one while it is sending, and none else. So a failure and a
-- number of jobs are never shown together, and no request is sent while one is in flight.
pub sheet-Runs :
    (p : Phase) {s : Sheet} {n : ℕ} {t : Sheet}
    → ShowsPhase s p
    → Reach (unanswered p) s n t
    → (q : Phase) × Runs p q × ShowsPhase t q × (n ≡ unanswered q)
sheet-Runs p h here = (p, starts, h, refl)
sheet-Runs p h (next r step) =
    let (q, runs, k, e) = sheet-Runs p h r in
    let (q', move, l, i) = Step-Followed q k e step in (q', moves runs move, l, i)
