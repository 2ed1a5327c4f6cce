-- ===== src/Mobile/Channels.antt =====
-- mobile/src/app/(tabs)/channels.tsx: the screen of the connected accounts, and the platforms that
-- can be connected.
pub mod Connect
use postal.Prelude.{
  String, Text, Option, none, some, List, [], ◌∷◌, map, Bool, true, false, not, ◌||◌, any, str_eq,
  trim, codes, add_all, has, if◌then◌else◌,
}
use postal.Schema.{Channel, ChannelStatus, active, expired, revoked}
use postal.Query.{Result, awaited}
use postal.Mobile.Platforms.{PlatformInfo, platforms}

pub data Tone : Type 0 where
  success warning danger : Tone

pub record Status : Type 0 where
  pub label : String
  pub tone : Tone

unfoldable pub status_of : ChannelStatus → Status
status_of active = record { label = "Active"; tone = success }
status_of expired = record { label = "Expired"; tone = warning }
status_of revoked = record { label = "Revoked"; tone = danger }

-- The form that connects with credentials; `pending` is the mutation's `isPending`.
pub record Manual : Type 0 where
  pub is_open : Bool
  pub bot_token : Text
  pub chat_id : Text
  pub error : Option String
  pub pending : Bool

unfoldable pub mounted : Manual
mounted = record { is_open = false; bot_token = []; chat_id = []; error = none; pending = false }

-- `submit` up to its await, with what is sent.
unfoldable pub submit : String → Manual → Manual × (String × List (String × Text))
submit platform_key m = (
  record m { error = none; pending = true },
  (platform_key, ("bot_token", trim m.bot_token) ∷ ("chat_id", trim m.chat_id) ∷ []),
)

-- `submit` behind its await.
unfoldable pub answered : String → Result (Unit {0}) → Manual → Manual
answered unknown r m =
    awaited unknown r
      (λ _. record m { is_open = false; bot_token = []; chat_id = []; pending = false })
      (λ message. record m { error = some message; pending = false })

-- "Connect" and "Cancel"
unfoldable pub set_open : Bool → Manual → Manual
set_open is_open m = record m { is_open = is_open }

unfoldable pub set_bot_token : Text → Manual → Manual
set_bot_token t m = record m { bot_token = t }

unfoldable pub set_chat_id : Text → Manual → Manual
set_chat_id t m = record m { chat_id = t }

-- `new Set((channels ?? []).map((c) => c.platform))`
abbrev pub platforms_of : Option (List Channel) → List String
platforms_of none = []
platforms_of (some cs) = map (λ c. c.platform) cs

unfoldable pub connected_platforms : Option (List Channel) → List String
connected_platforms cs = add_all [] (platforms_of cs)

-- The row of a platform: the form, or the button, which tells whether an account is connected.
pub data Row : Type 0 where
  manual : String → Row
  connect : String → Bool → Row

abbrev pub row_of : List String → PlatformInfo → Row
row_of connected p = if p.manual then manual p.key else connect p.key (has p.key connected)

-- No row without an active workspace.
unfoldable pub rows : Bool → Option (List Channel) → List Row
unfolding connected_platforms
rows is_active channels =
    let connected = connected_platforms channels in
    if is_active then map (λ p. row_of connected p) platforms else []
