-- ===== src/Web/Client.antt =====
-- web/src/api/client.ts: the fetch wrapper with its CSRF token and its refresh-once retry, where no
-- other call is in flight (Web/Client/SingleFlight.antt has the interleavings). What the browser and
-- the server do (`fetch`, `document.cookie`, `decodeURIComponent`, the path of a URL) are the fields
-- of `Net`.
pub mod Requests
pub mod Traffic
pub mod Retry
pub mod Stuck
pub mod SingleFlight
use postal.Prelude.{
  Text, ℕ, String, Option, none, some, List, [], ◌∷◌, ◌++◌, Bool, true, false, not, ◌&&◌, ◌||◌, leb,
  ◌==◌, if◌then◌else◌, codes,
}
use postal.Web.Cookie.{Read, returned, threw, read_cookie}
use postal.ApiError.{is_ok}
use postal.Web.Http.{
  Request, Response, Storage, truthy, is_mutating, is_auth_flow, set_header, set_csrf, stored_token,
  capture_csrf, is_csrf_failure,
}

-- The module variable `refreshing` where no other call is in flight: `null`, or a promise that has
-- settled.
pub data Slot : Type 0 where
  idle : Slot
  settled : Bool → Slot

pub record Net : Type 1 where
  pub World : Type 0
  pub fetch : Request → World → Option Response × World  -- `none` where the promise rejects
  pub document_cookie : World → Option Text
  pub decode_uri_component : Text → Option Text
  pub path_name : Text → Text
  pub api_origin : Text  -- NEXT_PUBLIC_API_BASE, or the empty text

-- The browser's side, the requests that were sent, and the warnings that were logged.
pub record Client (W : Type 0) : Type 0 where
  pub storage : Storage
  pub refreshing : Slot
  pub world : W
  pub sent : List Request
  pub warnings : List (Option String × ℕ × Text)

module _ (net : Net) where
  open net use {World, fetch, document_cookie, decode_uri_component, path_name, api_origin}

  unfoldable pub csrf_token : Client World → Read (Option Text)
  csrf_token c = elim (stored_token c.storage) [
    | none ↦ read_cookie decode_uri_component (codes "postal_csrf") (document_cookie c.world)
    | some token ↦ returned (some token)
  ]

  -- One call of `fetch`.
  unfoldable pub send : Request → Client World → Option Response × Client World
  send request c =
      let (res, world) = fetch request c.world in
      (res, record c { world = world; sent = c.sent ++ request ∷ [] })

  unfoldable pub refresh_request : Option Text → Request
  refresh_request csrf = set_csrf (truthy csrf) (record {
    method = codes "POST";
    url = api_origin ++ codes "/api/v1/auth/refresh";
    headers = [];
  })

  unfoldable pub capture : Response → Text → Client World → Client World
  capture res url c = record c { storage = capture_csrf res url c.storage }

  -- The refresh behind its first `await`: a rejected `fetch` counts as a failure, and `finally`
  -- clears `refreshing`.
  unfoldable pub finish_refresh : Option Response × Client World → Bool × Client World
  finish_refresh (none, c) = (false, record c { refreshing = idle })
  finish_refresh (some res, c) =
      (is_ok res.status, record (capture res (codes "/auth/refresh") c) { refreshing = idle })

  -- `refreshing ??= (async () => { … })()`. A throw before the first `await` runs `finally` at once;
  -- the assignment then stores the promise, which has settled on false.
  unfoldable pub start_refresh : Read (Option Text) → Client World → Bool × Client World
  start_refresh threw c = (false, record c { refreshing = settled false })
  start_refresh (returned csrf) c = finish_refresh (send (refresh_request csrf) c)

  abbrev pub by_slot : Slot → Client World → Bool × Client World
  by_slot idle c = start_refresh (csrf_token c) c
  by_slot (settled r) c = (r, c)

  unfoldable pub refresh_session : Client World → Bool × Client World
  refresh_session c = by_slot c.refreshing c

  -- The token is read only for a mutation; a throw there rejects `apiFetch`.
  unfoldable pub with_csrf : Request → Client World → Read Request
  with_csrf request c =
      if is_mutating request
      then elim (csrf_token c) [
        | threw ↦ threw
        | returned csrf ↦ returned (set_csrf (truthy csrf) request)
      ]
      else returned request

  -- The retry after a refresh: `csrfToken()` is called for every method.
  unfoldable pub resend : Request → Client World → Option Response × Client World
  resend retry c = elim (csrf_token c) [
    | threw ↦ (none, c)
    | returned csrf ↦ send (if is_mutating retry then set_csrf (truthy csrf) retry else retry) c
  ]

  unfoldable pub recoverable : Request → Response → Bool
  recoverable request res =
      (res.status == 401 || (is_mutating request && is_csrf_failure res))
      && not (is_auth_flow request.url)

  abbrev pub if_refreshed :
      Request → Response → Bool × Client World → Option Response × Client World
  if_refreshed retry res (false, c) = (some res, c)
  if_refreshed retry res (true, c) = resend retry c

  unfoldable pub recover : Request → Response → Client World → Option Response × Client World
  recover retry res c =
      if recoverable retry res then if_refreshed retry res (refresh_session c) else (some res, c)

  unfoldable pub warn : Text → Option Response × Client World → Option Response × Client World
  warn url (none, c) = (none, c)
  warn url (some res, c) = (
    some res,
    if leb 500 res.status
        then record c { warnings = c.warnings ++ (res.request_id, res.status, path_name url) ∷ [] }
        else c,
  )

  abbrev pub answer : Request → Option Response × Client World → Option Response × Client World
  answer request (none, c) = (none, c)
  answer request (some res, c) = warn request.url (recover request res (capture res request.url c))

  -- `apiFetch`, with the request id that `crypto.randomUUID()` returns; `none` where it rejects.
  unfoldable pub api_fetch : Text → Request → Client World → Option Response × Client World
  api_fetch request_id request c = elim (with_csrf request c) [
    | threw ↦ (none, c)
    | returned r ↦ let r' = set_header "X-Request-Id" request_id r in answer r' (send r' c)
  ]
