-- ===== src/Web/Hints.antt =====
-- What web/src/features/composer shows beside the text: the character counter (variant-editor.tsx),
-- the platforms that need media and the price of a post on X (composer.tsx).
pub mod Limits
use postal.Prelude.{
  Text, ℕ, ◌-◌, String, Option, none, some, List, [], ◌∷◌, map, Bool, not, ◌&&◌, ltb, if◌then◌else◌,
  any, find, length, lookup, str_eq, value_or, is_some, ◌==◌, or_else,
}
use postal.Schema.{Channel}
use postal.Web.Platforms.{platform_info}
use postal.Web.Links.{first_url}
use postal.Web.Composer.{ComposerState, Editor}

-- `new Map(channels.map((c) => [c.id, c])).get(id)`: the last one wins.
abbrev pub by_id : List Channel → String → Option Channel
by_id [] id = none
by_id (c ∷ cs) id = or_else (by_id cs id) (if str_eq c.id id then some c else none)

-- `filter(Boolean)`, of one entry
abbrev pub known : Option Channel → List Channel → List Channel
known none cs = cs
known (some c) cs = c ∷ cs

-- `state.selected.map((id) => byId.get(id)).filter(Boolean)`
unfoldable pub selected_channels : List Channel → List String → List Channel
selected_channels channels [] = []
selected_channels channels (id ∷ ids) = known (by_id channels id) (selected_channels channels ids)

abbrev pub max_safe_integer : ℕ
max_safe_integer = 9007199254740991

abbrev pub channel_limit : Channel → ℕ
channel_limit c = value_or (platform_info c.platform).char_limit max_safe_integer

-- `Math.min(...)` over a list that is not empty
unfoldable pub least : ℕ → List ℕ → ℕ
least n [] = n
least n (m ∷ ms) = least (if ltb m n then m else n) ms

-- The limit of the master text: the least of the selected channels'.
unfoldable pub master_limit : List Channel → Option ℕ
unfolding least
master_limit [] = none
master_limit (c ∷ cs) = some (least (channel_limit c) (map channel_limit cs))

-- The counter of the text field: how much is left, or by how much the text is over.
pub data Counter : Type 0 where
  left over : ℕ → Counter

unfoldable pub counter : Option ℕ → Text → Option Counter
counter none body = none
counter (some limit) body =
    some
      (if ltb limit (length body) then over (length body - limit) else left (limit - length body))

-- `missingMedia`, which the component computes and does not use
unfoldable pub missing_media : List Channel → Editor → Bool
unfolding selected_channels
missing_media channels e =
    any (λ c. (platform_info c.platform).requires_media)
      (selected_channels channels e.state.selected)
    && length e.state.media == 0

-- What a post costs on X, and for which tier.
pub data Tier : Type 0 where
  link_posts media_posts plain_posts : Tier

unfoldable pub publish_cost :
    List (String × ℕ) → List Channel → ComposerState → Option (Option ℕ × Tier)
publish_cost costs selected s =
    let plain = lookup "twitter" costs in
    if not (any (λ c. (platform_info c.platform).pay_per_use) selected)
    then none
    else (if is_some (first_url s.master_body)
        then some (or_else (lookup "twitter_url" costs) plain, link_posts)
        else (if ltb 0 (length s.media)
            then some (or_else (lookup "twitter_media" costs) plain, media_posts)
            else some (plain, plain_posts)))
