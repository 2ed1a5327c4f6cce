-- ===== src/Web/Drafts.antt =====
-- web/src/features/composer/drafts-list.tsx
use postal.Prelude.{
  ℕ, String, Text, Option, none, some, List, [], ◌∷◌, Bool, false, str_eq, head?, length, value_or,
  if◌then◌else◌,
}
use postal.Schema.{Post, Variant}
use postal.Query.{Result, awaited}

-- The dialog that confirms a deletion.
pub record Row : Type 0 where
  pub post : Post
  pub is_open : Bool
  pub error : Option String

abbrev pub body_of : Option Variant → Text
body_of none = []
body_of (some v) = v.body

-- `post.variants?.[0]?.body ?? ""`
unfoldable pub excerpt : Post → Text
excerpt p = body_of (head? (value_or p.variants []))

abbrev pub count_of : Option (List Variant) → Option ℕ
count_of none = none
count_of (some vs) = some (length vs)

-- `post.variants?.length`
unfoldable pub channel_count : Post → Option ℕ
channel_count p = count_of p.variants

-- The row has a dialog that publishes the post.
unfoldable pub shows_publish : Post → Bool
shows_publish p = str_eq p.status "draft"

-- `onDelete`, with the answer of the mutation.
unfoldable pub on_delete : String → Result (Unit {0}) → Row → Row
on_delete unknown r row =
    awaited unknown r (λ _. record row { error = none; is_open = false })
      (λ message. record row { error = some message })

unfoldable pub open_change : Bool → Row → Row
open_change next row =
    if next then record row { is_open = next } else record row { is_open = next; error = none }

-- What the list shows.
pub data Listing : Type 0 where
  loading failed nothing_saved : Listing
  rows : List Post → Listing

-- Behind the tests of `isPending` and `isError`.
abbrev pub listed : Option (List Post) → Listing
listed none = nothing_saved
listed (some []) = nothing_saved
listed (some (p ∷ ps)) = rows (p ∷ ps)

unfoldable pub listing : Bool → Bool → Option (List Post) → Listing
listing is_pending is_error posts =
    if is_pending then loading else if is_error then failed else listed posts
