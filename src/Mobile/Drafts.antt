-- ===== src/Mobile/Drafts.antt =====
-- mobile/src/features/compose/compose-screen.tsx: the saved posts (DraftsCard), with the sheet that
-- publishes one of them. A sheet is mounted while its post is being published; the answer to a
-- request whose sheet is gone is dropped.
pub mod Laws
use postal.Prelude.{
  ℕ, ◌+◌, ◌-◌, String, ◌≡◌, refl, Option, none, some, List, [], ◌∷◌, Bool, true, false, str_eq,
  head?, if◌then◌else◌, Text, value_or,
}
use postal.Schema.{Post, Job, Variant}
use postal.Query.{Result}
use postal.Publish.{Clock, now}
use postal.Mobile.Publish.{Sheet, mounted, reset, submit, answered, shows_form, can_submit}

-- `open_requests` counts the requests of sheets that are gone.
pub record Card : Type 0 where
  pub publishing : Option (String × Sheet)
  pub open_requests : ℕ

-- `p.status === "draft"`: the post has a "Publish" button.
unfoldable pub can_publish : Post → Bool
can_publish p = str_eq p.status "draft"

-- `p.variants?.[0]?.body || "Saved post"`; nothing is the placeholder.
abbrev pub body_or_none : Option Variant → Text
body_or_none none = []
body_or_none (some v) = v.body

unfoldable pub excerpt : Post → Text
excerpt p = body_or_none (head? (value_or p.variants []))

-- `setPublishing(p.id)`: a sheet for another post keeps its state, since no key tells them apart.
abbrev pub sheet_for : Clock → Option (String × Sheet) → Sheet
sheet_for clock none = mounted clock
sheet_for clock (some (id, s)) = s

unfoldable pub publish : Clock → Post → Card → Card
publish clock p c = record c { publishing = some (p.id, sheet_for clock c.publishing) }

abbrev pub request_of : Option (String × Sheet) → ℕ
request_of none = 0
request_of (some (id, s)) = if s.pending then 1 else 0

-- `onClose`, behind the sheet's reset: the sheet is unmounted.
unfoldable pub close : Card → Card
close c = record { publishing = none; open_requests = c.open_requests + request_of c.publishing }

abbrev pub submitted : Clock → Option (String × Sheet) → Option (String × Sheet)
submitted clock none = none
submitted clock (some (id, s)) = some (id, (submit clock id s).0)

unfoldable pub submit_sheet : Clock → Card → Card
submit_sheet clock c = record c { publishing = submitted clock c.publishing }

-- The requests in flight, of the sheet and of those before it.
unfoldable pub in_flight : Card → ℕ
in_flight c = c.open_requests + request_of c.publishing
