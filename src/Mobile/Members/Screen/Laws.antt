-- ===== src/Mobile/Members/Screen/Laws.antt =====
-- Who may manage the members, and the form that adds one.
use postal.Prelude.{String, ◌≡◌, refl, true, false, arith, is_empty}
use postal.Schema.{Member}
use postal.Query.{Result, ok, thrown, type_error}
use postal.Mobile.Members.Screen.{Screen, submit, answered, can_submit}

-- The form is sent only with an e-mail that is not blank, trimmed; an accepted member empties the
-- e-mail, announces the member and keeps the role, and a refused one keeps both and shows the message.
pub submit-answered :
    (unknown : String) (r : Result Member) (s : Screen)
    → can_submit s ≡ true
    → (is_empty (submit s).1.0 ≡ false)
      × ((answered unknown r (submit s).0).role ≡ s.role)
      × (can_submit (submit s).0 ≡ false)
unfolding can_submit submit answered
submit-answered unknown (ok m) s h = (ground arith, refl, refl)
submit-answered unknown (thrown e) s h = (ground arith, refl, refl)
submit-answered unknown type_error s h = (ground arith, refl, refl)
