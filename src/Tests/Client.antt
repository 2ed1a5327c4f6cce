-- ===== src/Tests/Client.antt =====
-- web/src/api/client.ts against a server whose access token has expired, and against a broken cookie.
use postal.Prelude.{
  Text, ℕ, suc, ◌≡◌, ◌≤◌, ◌+◌, refl, none, some, List, [], ◌∷◌, ◌++◌, true, false, All, length,
  lookup, codes, if◌then◌else◌, ◌==◌, text_eq, includes, strip_prefix, to_upper,
}
use mathlib.Core.List.{Memᴰ}
use postal.Web.Cookie.{read_cookie, find_cookie, find_later, until_semicolon}
use postal.Web.Http.{
  Request, Payload, Response, absent, working, is_mutating, is_auth_flow, set_header, set_csrf,
}
use postal.Web.Client.{
  Net, Client, idle, settled, csrf_token, refresh_request, refresh_session, api_fetch,
}
use postal.Web.Client.Requests.{Traffic}
use postal.Web.Client.Traffic.{api_fetch-Traffic}
use postal.Web.Client.Retry.{api_fetch-fresh_token}
use postal.Web.Client.Stuck.{run, refresh_session-stuck}
use postal.Web.Client.SingleFlight.{
  Flights, Reach, here, further, calling, sends, start, call, told, finish,
}
use postal.Web.Client.SingleFlight.Laws.{single_flight, answered_lem}

abbrev token : Text → Payload
token t = record { csrf_token = some t; error_code = none }

-- The first request finds the session expired, the second is the refresh, the others succeed.
abbrev answer_to : ℕ → Response
answer_to n =
    if n == 0
    then record { status = 401; request_id = none; json = none }
    else (if n == 1
        then record { status = 200; request_id = none; json = some (token (codes "new")) }
        else record { status = 201; request_id = some "r"; json = none })

abbrev server : Net
server = record {
  World = ℕ;
  fetch = λ request n. (some (answer_to n), suc n);
  document_cookie = λ n. none;
  decode_uri_component = λ t. some t;
  path_name = λ t. t;
  api_origin = [];
}

abbrev request : Request
request = record { method = codes "POST"; url = codes "/api/v1/workspaces"; headers = [] }

abbrev client : Client ℕ
client = record {
  storage = working (some (codes "old"));
  refreshing = idle;
  world = 0;
  sent = [];
  warnings = [];
}

abbrev first_request : Request
first_request = set_header "X-Request-Id" (codes "id") (set_csrf (some (codes "old")) request)

abbrev retry : Request
retry = set_csrf (some (codes "new")) first_request

api_fetch-Traffic_example :
    (l : List Request) × ((api_fetch server (codes "id") request client).1.sent ≡ client.sent ++ l)
    × Traffic server request l
api_fetch-Traffic_example = api_fetch-Traffic server (codes "id") request client (λ e. cc)

mutates : is_mutating request ≡ true
unfolding is_mutating to_upper text_eq
mutates = refl

no_auth : is_auth_flow request.url ≡ false
unfolding is_auth_flow includes strip_prefix
no_auth = refl

api_fetch-fresh_token_example :
    ((api_fetch server (codes "id") request client).1.sent
      ≡ [] ++ first_request ∷ refresh_request server (some (codes "old")) ∷ retry ∷ [])
    × ((api_fetch server (codes "id") request client).0 ≡ (server.fetch retry 2).0)
    × (lookup "X-CSRF-Token" retry.headers ≡ some (codes "new"))
api_fetch-fresh_token_example =
    api_fetch-fresh_token server (codes "id") request 0 1 2 [] [] b'o' (codes "ld") b'n'
      (codes "ew") none none (answer_to 1) none mutates no_auth refl refl refl refl

-- `document.cookie` is "postal_csrf=%", which `decodeURIComponent` refuses.
abbrev broken : Net
broken = record {
  World = ℕ;
  fetch = λ r n. (some (answer_to 0), suc n);
  document_cookie = λ n. some (codes "postal_csrf=%");
  decode_uri_component = λ t. none;
  path_name = λ t. t;
  api_origin = [];
}

abbrev fresh_tab : Client ℕ
fresh_tab = record { storage = absent; refreshing = idle; world = 0; sent = []; warnings = [] }

broken_cookie : csrf_token broken fresh_tab ≡ postal.Web.Cookie.threw
unfolding csrf_token read_cookie find_cookie strip_prefix until_semicolon
broken_cookie = refl

abbrev reads : List (Text × Request)
reads =
    (codes "1", record { method = codes "GET"; url = codes "/api/v1/auth/me"; headers = [] }) ∷ []

abbrev stuck : Client ℕ
stuck = (refresh_session broken fresh_tab).1

refresh_session-stuck_example :
    ((refresh_session broken fresh_tab).0 ≡ false)
    × (stuck.sent ≡ [])
    × ((run broken reads stuck).refreshing ≡ settled false)
    × (length (run broken reads stuck).sent ≤ length stuck.sent + 1)
refresh_session-stuck_example =
    refresh_session-stuck broken fresh_tab stuck reads refl broken_cookie refl

-- Two calls find the session expired before the refresh is answered.
abbrev two : Flights
two = call 2 sends (call 1 sends start)

two-Reach : Reach two
two-Reach = further (further here (calling 1 sends)) (calling 2 sends)

two_running : two.running ≡ 0 ∷ []
unfolding call
two_running = refl

single_flight_example : (length two.running ≤ 1) × All (λ w. two.running ≡ w.1 ∷ []) two.waiting
single_flight_example = single_flight two-Reach

flight-two : Memᴰ 0 two.running
unfolding call
flight-two = Memᴰ.head refl

answered_lem_example :
    ((finish 0 true two).served ≡ told true two.waiting ++ two.served)
    × ((finish 0 true two).waiting ≡ [])
    × ((finish 0 true two).running ≡ [])
    × ((caller : ℕ) → (call caller sends (finish 0 true two)).running ≡ two.next ∷ [])
answered_lem_example = answered_lem 0 true two-Reach flight-two
