-- ===== src/Mobile/Channels/Connect.antt =====
-- mobile/src/features/channels/use-connect-flow.ts, and the row that runs it (ConnectRow of
-- mobile/src/app/(tabs)/channels.tsx). The in-app browser and the parser of links are Expo's, and
-- arguments of the flow, as the two mutations are.
pub mod Laws
use postal.Prelude.{String, Text, Option, none, some, List, lookup, value_or}
use postal.Schema.{Channel}
use postal.Query.{Result, ok, thrown, type_error}
use postal.Mobile.Data.Channels.{oauth_redirect}

pub data ConnectResult : Type 0 where
  connected : Channel → ConnectResult
  cancelled : ConnectResult
  error : String → ConnectResult

-- What the browser ends in: a redirect, another end, or a rejection whose message may be missing.
pub data Session : Type 0 where
  success : Text → Session
  closed : Session
  rejected : Option String → Session

-- A query parameter: a text, or several of them.
pub data QueryParam : Type 0 where
  one : Text → QueryParam
  several : List Text → QueryParam

-- `unknown` is the message of a `TypeError`.
pub record Flow : Type 0 where
  pub connect : String → Result Text
  pub open_auth_session : Text → String → Session
  pub parse : Text → Option (List (String × QueryParam))
  pub complete : Text × Text → Result Channel
  pub unknown : String

-- `typeof value !== "string"`
abbrev pub as_text : Option QueryParam → Option Text
as_text (some (one t)) = some t
as_text _ = none

-- `queryParams?.name`
unfoldable pub param : String → Option (List (String × QueryParam)) → Option Text
param name none = none
param name (some params) = as_text (lookup name params)

abbrev pub completed : String → Result Channel → ConnectResult
completed unknown (ok c) = connected c
completed unknown (thrown (err, _)) = error err.message
completed unknown type_error = error unknown

abbrev pub exchange : Flow → Option Text → Option Text → ConnectResult
exchange f (some state) (some code) = completed f.unknown (f.complete (state, code))
exchange f _ _ = error "The authorization response was incomplete."

abbrev pub redirected : Flow → Session → ConnectResult
redirected f (success url) =
    let params = f.parse url in exchange f (param "state" params) (param "code" params)
redirected f closed = cancelled
redirected f (rejected message) = error (value_or message "Connection failed.")

abbrev pub authorized : Flow → Result Text → ConnectResult
authorized f (ok url) = redirected f (f.open_auth_session url oauth_redirect)
authorized f (thrown (err, _)) = error err.message
authorized f type_error = error f.unknown

unfoldable pub run : Flow → String → ConnectResult
unfolding param
run f platform = authorized f (f.connect platform)

-- What the row shows of a result, behind `setError(null)`.
unfoldable pub shown_error : ConnectResult → Option String
shown_error (connected c) = none
shown_error cancelled = none
shown_error (error message) = some message
