-- ===== src/Web/Channels/Callback.antt =====
-- web/src/features/channels/oauth-callback-client.tsx: the exchange of a redirect's state and code. An
-- effect runs again whenever React mounts the page anew or one of its dependencies changes.
pub mod Once
use postal.Prelude.{
  ℕ, ◌+◌, Text, String, Option, none, some, List, [], ◌∷◌, ◌++◌, Bool, true, false, not, ◌||◌,
  is_empty, codes, if◌then◌else◌,
}
use postal.Schema.{Channel}
use postal.Query.{Result, awaited}
use postal.Web.Format.{at_handle}

pub data CallbackResult : Type 0 where
  success : Text → CallbackResult
  error : String → CallbackResult

-- `sent` lists the exchanges that were asked for.
pub record Page : Type 0 where
  pub state : Option Text
  pub code : Option Text
  pub fired : Bool
  pub result : Option CallbackResult
  pub sent : List (Text × Text)

unfoldable pub mounted : Option Text → Option Text → Page
mounted state code = record { state = state; code = code; fired = false; result = none; sent = [] }

-- `!state`
abbrev pub lacks : Option Text → Bool
lacks none = true
lacks (some t) = is_empty t

unfoldable pub missing : Page → Bool
missing p = lacks p.state || lacks p.code

abbrev pub exchanged : Option Text → Option Text → List (Text × Text) → List (Text × Text)
exchanged (some state) (some code) sent = sent ++ (state, code) ∷ []
exchanged _ _ sent = sent

-- One run of the effect.
unfoldable pub effect : Page → Page
unfolding missing
effect p =
    if missing p || p.fired
    then p
    else record p { fired = true; sent = exchanged p.state p.code p.sent }

-- The exchange is answered; behind a success the page goes to the channels.
unfoldable pub answered : String → Result Channel → Page → Page × Bool
answered unknown r p =
    awaited unknown r
      (λ c.
        (record p { result = some (success (at_handle c.handle ++ codes " is connected.")) }, true))
      (λ message. (record p { result = some (error message) }, false))

pub data Shown : Type 0 where
  connecting : Shown
  succeeded : Text → Shown
  failed : String → Shown

abbrev pub shown_result : Option CallbackResult → Shown
shown_result none = connecting
shown_result (some (success t)) = succeeded t
shown_result (some (error m)) = failed m

-- What the page shows.
unfoldable pub shown : Page → Shown
unfolding missing
shown p =
    if missing p
    then failed "This link is missing its authorization details. Try connecting again."
    else shown_result p.result
