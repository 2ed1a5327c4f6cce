-- ===== src/Tests/Phone.antt =====
-- The mobile client against a server whose access token has expired, and its hooks over the small
-- query cache.
use postal.Prelude.{
  Text, ℕ, suc, String, ◌≡◌, ◌≢◌, refl, Option, none, some, List, [], ◌∷◌, ◌++◌, Bool, false, codes,
  if◌then◌else◌, ◌==◌,
}
use postal.Query.{in_workspace}
use postal.Query.Cache.{run_effects}
use postal.Mobile.Session.{
  holds, truthy, get_refresh_token, clear_session, save_session, set_access_token,
  set_refresh_token,
}
use postal.Mobile.Client.{
  Net, Client, Request, Response, TokenPair, own, send, api_fetch, authed_fetch, logout,
  finish_refresh, warn, is_auth_flow, set_header,
}
use postal.Mobile.Client.Requests.{Traffic}
use postal.Mobile.Client.Traffic.{usable, authed_fetch-Traffic}
use postal.Mobile.Client.Tokens.{IsSignedIn, authed_fetch-IsSignedIn}
use postal.Mobile.Data.Mutations.{effects, canceled_job}
use postal.Mobile.Data.Mutations.Laws.{effects-elsewhere}
use postal.Tests.Data.{cache, warm, calendar, apart}

abbrev pair : TokenPair
pair = record { access = some (codes "new"); refresh = none }

-- The first request finds the token expired, the second is the refresh, the others succeed.
abbrev answer_to : ℕ → Response
answer_to n =
    if n == 0
    then record { status = 401; request_id = none; json = none }
    else record { status = 200; request_id = none; json = some pair }

abbrev server : Net
server = record { World = ℕ; fetch = λ request n. (some (answer_to n), suc n); api_origin = [] }

abbrev phone : Client ℕ
phone = record {
  session = record { access_token = some (codes "old"); keystore = holds (some (codes "long")) };
  world = 0;
  sent = [];
  warnings = [];
}

abbrev request : Request
request = record { method = "GET"; url = codes "/api/v1/workspaces/"; headers = []; body = own "" }

authed_fetch-Traffic_example :
    ((l : List Request) × ((api_fetch server (codes "id") request phone).1.sent ≡ [] ++ l)
      × Traffic server (usable server request.url phone) request l)
    × ((l : List Request) × ((authed_fetch server request phone).1.sent ≡ [] ++ l)
        × Traffic server (truthy (get_refresh_token phone.session)) request l)
authed_fetch-Traffic_example = authed_fetch-Traffic server (codes "id") request phone

-- The refresh and the retry are sent.
three_requests : postal.Prelude.length (authed_fetch server request phone).1.sent ≡ 3
unfolding authed_fetch postal.Mobile.Client.run send postal.Mobile.Client.refresh_session
    get_refresh_token
three_requests = refl

signed_in : IsSignedIn phone.session
unfolding get_refresh_token
signed_in e = cc

authed_fetch-IsSignedIn_example :
    IsSignedIn (api_fetch server (codes "id") request phone).1.session
    × IsSignedIn (authed_fetch server request phone).1.session
authed_fetch-IsSignedIn_example =
    authed_fetch-IsSignedIn server (codes "id") request phone signed_in

abbrev left_phone : Bool × Client ℕ
left_phone = logout server (codes "id") phone

effects-elsewhere_at :
    (cache.fresh
        (in_workspace "w2" calendar)
        (run_effects cache (effects "w1" (canceled_job "j")) warm)
      ≡ cache.fresh (in_workspace "w2" calendar) warm)
    × (cache.value
          (in_workspace "w2" calendar)
          (run_effects cache (effects "w1" (canceled_job "j")) warm)
        ≡ cache.value (in_workspace "w2" calendar) warm)
effects-elsewhere_at = effects-elsewhere cache "w1" "w2" (canceled_job "j") calendar warm apart

abbrev late : Response
late = record {
  status = 200;
  request_id = none;
  json = some (record { access = some (codes "new"); refresh = some (codes "longer") });
}

abbrev resumed : Bool × Client ℕ
resumed = finish_refresh server (some late, left_phone.1)

-- Both tokens are there again.
resumed-signed_in :
    (resumed.1.session.access_token ≡ some (codes "new"))
    × (get_refresh_token resumed.1.session ≡ some (codes "longer"))
unfolding logout api_fetch send clear_session save_session set_access_token set_refresh_token
    get_refresh_token warn is_auth_flow set_header
resumed-signed_in = (refl, refl)
