-- ===== src/Mobile/Client.antt =====
-- mobile/src/api/client.ts, and the direct fetches of mobile/src/data/governance.ts, channels.ts and
-- media.ts, where no other call is in flight. What the phone and the server do is the record Net.
pub mod Requests
pub mod Traffic
pub mod Tokens
pub mod Logout
use postal.Prelude.{
  Text, ℕ, String, Option, none, some, List, [], ◌∷◌, ◌++◌, Bool, true, false, not, ◌&&◌, leb, ◌==◌,
  if◌then◌else◌, any, codes, includes, insert, value_or,
}
use postal.ApiError.{is_ok}
use postal.Mobile.Session.{Session, truthy, get_refresh_token, save_session, clear_session}

-- A caller's own body, or that of the refresh.
pub data Body : Type 0 where
  own : String → Body
  refresh_token : Text → Body

pub record Request : Type 0 where
  pub method : String
  pub url : Text
  pub headers : List (String × Text)
  pub body : Body

-- `data.access_token` and `data.refresh_token` of a JSON body.
pub record TokenPair : Type 0 where
  pub access : Option Text
  pub refresh : Option Text

pub record Response : Type 0 where
  pub status : ℕ
  pub request_id : Option String
  pub json : Option TokenPair  -- `none` where `json()` rejects or gives `null`

pub record Net : Type 1 where
  pub World : Type 0
  pub fetch : Request → World → Option Response × World  -- `none` where the promise rejects
  pub api_origin : Text

-- The session, the phone's surroundings, the requests that were sent, and what was logged.
pub record Client (W : Type 0) : Type 0 where
  pub session : Session
  pub world : W
  pub sent : List Request
  pub warnings : List (Option String × ℕ)

unfoldable pub set_header : String → Text → Request → Request
set_header key value request = record request { headers = insert key value request.headers }

abbrev pub auth_paths : List Text
auth_paths = codes "/auth/refresh" ∷ codes "/auth/login" ∷ codes "/auth/logout" ∷ []

unfoldable pub is_auth_flow : Text → Bool
unfolding includes
is_auth_flow url = any (includes url) auth_paths

abbrev pub bearer : Text → Text
bearer token = codes "Bearer " ++ token

-- The header, where there is a token.
abbrev pub authorized : Option Text → Request → Request
authorized none request = request
authorized (some token) request = set_header "Authorization" (bearer token) request

module _ (net : Net) where
  open net use {World, fetch, api_origin}

  -- One call of `fetch`.
  unfoldable pub send : Request → Client World → Option Response × Client World
  send request c =
      let (res, world) = fetch request c.world in
      (res, record c { world = world; sent = c.sent ++ request ∷ [] })

  unfoldable pub refresh_request : Text → Request
  refresh_request token = record {
    method = "POST";
    url = api_origin ++ codes "/api/v1/auth/refresh";
    headers = ("Content-Type", codes "application/json") ∷ [];
    body = refresh_token token;
  }

  -- `if (!body.data?.access_token) return false; await saveSession(…); return true;`
  abbrev pub save_pair : Option Text → Option Text → Client World → Bool × Client World
  save_pair none refresh c = (false, c)
  save_pair (some access) refresh c =
      (true, record c { session = save_session access refresh c.session })

  abbrev pub accept : Option TokenPair → Client World → Bool × Client World
  accept none c = (false, c)
  accept (some pair) c = save_pair (truthy pair.access) pair.refresh c

  abbrev pub finish_refresh : Option Response × Client World → Bool × Client World
  finish_refresh (none, c) = (false, c)
  finish_refresh (some res, c) = if is_ok res.status then accept res.json c else (false, c)

  abbrev pub refresh_with : Option Text → Client World → Bool × Client World
  refresh_with none c = (false, c)
  refresh_with (some token) c = finish_refresh (send (refresh_request token) c)

  unfoldable pub refresh_session : Client World → Bool × Client World
  refresh_session c = refresh_with (truthy (get_refresh_token c.session)) c

  -- ``retry.headers.set("Authorization", `Bearer ${getAccessToken() ?? ""}`)``
  abbrev pub resend : Request → Response → Bool × Client World → Option Response × Client World
  resend retry res (false, c) = (some res, c)
  resend retry res (true, c) =
      send (set_header "Authorization" (bearer (value_or c.session.access_token [])) retry) c

  unfoldable pub warn : Option Response × Client World → Option Response × Client World
  warn (none, c) = (none, c)
  warn (some res, c) = (
    some res,
    if leb 500 res.status
        then record c { warnings = c.warnings ++ (res.request_id, res.status) ∷ [] }
        else c,
  )

  abbrev pub answer : Request → Option Response × Client World → Option Response × Client World
  answer retry (none, c) = (none, c)
  answer retry (some res, c) =
      let refreshed = resend retry res (refresh_session c) in
      warn (if res.status == 401 && not (is_auth_flow retry.url) then refreshed else (some res, c))

  -- `apiFetch`, with the request id that it draws; `none` where it rejects.
  unfoldable pub api_fetch : Text → Request → Client World → Option Response × Client World
  api_fetch id request c =
      let r = set_header "X-Request-Id" id (authorized (truthy c.session.access_token) request) in
      answer r (send r c)

  -- `run`, which reads the access token again each time
  unfoldable pub run : Request → Client World → Option Response × Client World
  run request c = send (authorized (truthy c.session.access_token) request) c

  abbrev pub rerun : Request → Response → Bool × Client World → Option Response × Client World
  rerun request res (false, c) = (some res, c)
  rerun request res (true, c) = run request c

  abbrev pub after_run : Request → Option Response × Client World → Option Response × Client World
  after_run request (none, c) = (none, c)
  after_run request (some res, c) =
      let again = rerun request res (refresh_session c) in
      if res.status == 401 then again else (some res, c)

  -- `authedFetch`, and the sending of `uploadMedia` and `useConnectManual`
  unfoldable pub authed_fetch : Request → Client World → Option Response × Client World
  authed_fetch request c = after_run request (run request c)

  -- `useLogout`: the session is cleared whatever the answer is, but not where the request rejects.
  abbrev pub after_logout : Option Response × Client World → Bool × Client World
  after_logout (none, c) = (false, c)
  after_logout (some res, c) = (true, record c { session = clear_session c.session })

  abbrev pub logout_request : Request
  logout_request = record {
    method = "POST";
    url = api_origin ++ codes "/api/v1/auth/logout";
    headers = [];
    body = own "{}";
  }

  unfoldable pub logout : Text → Client World → Bool × Client World
  logout id c = after_logout (api_fetch id logout_request c)
