-- ===== src/Web/Client/Requests.antt =====
-- The requests that a call of `apiFetch` of web/src/api/client.ts may send, and what its refresh sends.
use postal.Prelude.{
  Text, String, ◌≡◌, ◌≢◌, refl, ◌⊎◌, inl, inr, ◌∙◌, Option, none, some, List, [], ◌∷◌, ◌++◌, Bool,
  true, false, Bool-cases,
}
use postal.Web.Cookie.{Read, returned, threw, Read-cases}
use postal.Web.Http.{Request, Response, is_mutating, is_auth_flow, set_header, set_csrf, truthy}
use postal.Web.Client.{
  Net, Client, Slot, idle, settled, csrf_token, send, refresh_request, capture, finish_refresh,
  start_refresh, refresh_session, by_slot, resend,
}

-- A request with the caller's method and URL.
abbrev pub IsCopy : Request → Request → Type 0
IsCopy request r = (r.method ≡ request.method) × (r.url ≡ request.url)

-- No request, the caller's alone, the caller's and a refresh, or the retry behind both; the last two
-- only outside the auth endpoints.
pub data Traffic (net : Net) (request : Request) : List Request → Type 0 where
  nothing : Traffic net request []
  once : {r : Request} → IsCopy request r → Traffic net request (r ∷ [])
  refreshed :
      {r : Request} (csrf : Option Text)
      → IsCopy request r
      → is_auth_flow request.url ≡ false
      → Traffic net request (r ∷ refresh_request net csrf ∷ [])
  retried :
      {r r' : Request} (csrf : Option Text)
      → IsCopy request r
      → IsCopy request r'
      → is_auth_flow request.url ≡ false
      → Traffic net request (r ∷ refresh_request net csrf ∷ r' ∷ [])

pub set_csrf-IsCopy : (csrf : Option Text) (r : Request) → IsCopy r (set_csrf csrf r)
unfolding set_csrf
set_csrf-IsCopy none r = (refl, refl)
set_csrf-IsCopy (some t) r = (refl, refl)

pub set_header-IsCopy :
    (key : String) (value : Text) (request r : Request)
    → IsCopy request r
    → IsCopy request (set_header key value r)
unfolding set_header
set_header-IsCopy key value request r copy = copy

module _ (net : Net) where
  open net use {World}

  pub send-sent : (r : Request) (c : Client World) → (send net r c).1.sent ≡ c.sent ++ r ∷ []
  unfolding send
  send-sent r c = refl

  pub send-refreshing :
      (r : Request) (c : Client World) → (send net r c).1.refreshing ≡ c.refreshing
  unfolding send
  send-refreshing r c = refl

  -- A retry sends a copy, or nothing where the cookie cannot be read.
  pub resend-sent :
      (r : Request) (c : Client World)
      → ((resend net r c).1.sent ≡ c.sent)
        ⊎ ((r' : Request) × IsCopy r r' × ((resend net r c).1.sent ≡ c.sent ++ r' ∷ []))
  unfolding resend
  resend-sent r c = elim (Read-cases (csrf_token net c)) [
    | inl e ↦ inl (rw (e, resend))
    | inr (csrf, e) ↦ elim (Bool-cases (is_mutating r)) [
      | inl m ↦ inr (
        set_csrf (truthy csrf) r,
        set_csrf-IsCopy (truthy csrf) r,
        rw (e, resend, m) (send-sent _ c),
      )
      | inr m ↦ inr (r, (refl, refl), rw (e, resend, m) (send-sent r c))
    ]
  ]

  pub finish_refresh-sent :
      (x : Option Response × Client World) → (finish_refresh net x).1.sent ≡ x.1.sent
  unfolding finish_refresh capture
  finish_refresh-sent (none, c) = refl
  finish_refresh-sent (some res, c) = refl

  -- A refresh sends one request, or none; it answers true only behind a request.
  abbrev pub SentRefresh : Client World → Bool × Client World → Type 0
  SentRefresh c x =
      ((x.0 ≡ false) × (x.1.sent ≡ c.sent))
      ⊎ ((csrf : Option Text) × (x.1.sent ≡ c.sent ++ refresh_request net csrf ∷ []))

  pub start_refresh-sent :
      (r : Read (Option Text)) (c : Client World) → SentRefresh c (start_refresh net r c)
  unfolding start_refresh
  start_refresh-sent threw c = inl (refl, refl)
  start_refresh-sent (returned csrf) c =
      inr (csrf, finish_refresh-sent (send net (refresh_request net csrf) c) ∙ send-sent _ c)

  pub by_slot-sent :
      (slot : Slot) (c : Client World) → slot ≢ settled true → SentRefresh c (by_slot net slot c)
  by_slot-sent idle c h = start_refresh-sent (csrf_token net c) c
  by_slot-sent (settled false) c h = inl (refl, refl)
  by_slot-sent (settled true) c h = absurd (h refl)

  pub refresh_session-sent :
      (c : Client World) → c.refreshing ≢ settled true → SentRefresh c (refresh_session net c)
  unfolding refresh_session
  refresh_session-sent c h = by_slot-sent c.refreshing c h
