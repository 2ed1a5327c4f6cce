-- ===== src/Mobile/Drafts/Laws.antt =====
-- Two requests for one post.
use postal.Prelude.{ℕ, ◌+◌, String, ◌≡◌, refl, Option, none, some, Bool, true, false, arith}
use postal.Schema.{Post}
use postal.Publish.{Clock}
use postal.Mobile.Publish.{Sheet, mounted, submit, can_submit}
use postal.Mobile.Drafts.{publish, close, submit_sheet, in_flight}

-- The button of the sheet is enabled.
abbrev pub sheet_enabled : Option (String × Sheet) → Bool
sheet_enabled none = false
sheet_enabled (some (id, s)) = can_submit s

-- A post whose sheet is closed while its request is in flight, and opened again, is offered for
-- publishing again: a second request goes out beside the first.
pub publish-twice :
    (clock : Clock) (p : Post) (s : Sheet) (n : ℕ)
    → s.pending ≡ true
    → let reopened =
        publish clock p (close (record { publishing = some (p.id, s); open_requests = n })) in
      (in_flight reopened ≡ n + 1)
      × (sheet_enabled reopened.publishing ≡ true)
      × (in_flight (submit_sheet clock reopened) ≡ n + 2)
unfolding in_flight publish close mounted submit_sheet submit can_submit
publish-twice clock p s n h = rw h (omega arith, refl, omega arith)
