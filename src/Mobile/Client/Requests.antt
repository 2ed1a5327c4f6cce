-- ===== src/Mobile/Client/Requests.antt =====
-- The requests that a call of `apiFetch` or `authedFetch` of the mobile client may send, and what its refresh sends.
use postal.Prelude.{
  Text, String, ◌≡◌, refl, ◌⊎◌, inl, inr, ◌∙◌, Option, none, some, List, [], ◌∷◌, ◌++◌, Bool, false,
  arith,
}
use postal.Mobile.Session.{truthy, get_refresh_token}
use postal.Mobile.Client.{
  Net, Client, Request, Response, set_header, authorized, send, refresh_request, accept, save_pair,
  TokenPair, finish_refresh, refresh_with, refresh_session,
}

-- A request with the caller's method, URL and body.
abbrev pub IsCopy : Request → Request → Type 0
IsCopy request r = (r.method ≡ request.method) × (r.url ≡ request.url) × (r.body ≡ request.body)

-- The caller's request alone, that and one refresh with the token that the keystore held, or these and
-- one retry.
pub data Traffic (net : Net) (held : Option Text) (request : Request) : List Request → Type 0 where
  once : {r : Request} → IsCopy request r → Traffic net held request (r ∷ [])
  refreshed :
      {r : Request} (token : Text)
      → IsCopy request r
      → held ≡ some token
      → Traffic net held request (r ∷ refresh_request net token ∷ [])
  retried :
      {r r' : Request} (token : Text)
      → IsCopy request r
      → IsCopy request r'
      → held ≡ some token
      → Traffic net held request (r ∷ refresh_request net token ∷ r' ∷ [])

pub set_header-IsCopy :
    (key : String) (value : Text) (request r : Request)
    → IsCopy request r
    → IsCopy request (set_header key value r)
unfolding set_header
set_header-IsCopy key value request r copy = copy

pub authorized-IsCopy : (o : Option Text) (r : Request) → IsCopy r (authorized o r)
authorized-IsCopy none r = (refl, refl, refl)
authorized-IsCopy (some t) r = set_header-IsCopy _ _ r r (refl, refl, refl)

pub IsCopy-trans : (a b c : Request) → IsCopy a b → IsCopy b c → IsCopy a c
IsCopy-trans a b c (p, q, r) (p', q', r') = (p' ∙ p, q' ∙ q, r' ∙ r)

module _ (net : Net) where
  open net use {World}

  pub send-same :
      (r : Request) (c : Client World)
      → ((send net r c).1.sent ≡ c.sent ++ r ∷ []) × ((send net r c).1.session ≡ c.session)
  unfolding send
  send-same r c = (refl, refl)

  pub accept-sent : (o : Option TokenPair) (c : Client World) → (accept net o c).1.sent ≡ c.sent
  accept-sent none c = refl
  accept-sent (some pair) c = go (truthy pair.access)
    where
      go : (o : Option Text) → (save_pair net o pair.refresh c).1.sent ≡ c.sent
      go none = refl
      go (some access) = refl

  pub finish_refresh-sent :
      (x : Option Response × Client World) → (finish_refresh net x).1.sent ≡ x.1.sent
  finish_refresh-sent (none, c) = refl
  finish_refresh-sent (some res, c) = ground (arith, accept-sent res.json c)

  -- A refresh sends nothing and fails, or one request with the token that the keystore held.
  abbrev pub SentRefresh : Option Text → Client World → Bool × Client World → Type 0
  SentRefresh held c x =
      ((x.0 ≡ false) × (x.1.sent ≡ c.sent))
      ⊎ ((token : Text) × (held ≡ some token)
          × (x.1.sent ≡ c.sent ++ refresh_request net token ∷ []))

  pub refresh_with-sent :
      (o : Option Text) (c : Client World) → SentRefresh o c (refresh_with net o c)
  refresh_with-sent none c = inl (refl, refl)
  refresh_with-sent (some token) c = inr (
    token,
    refl,
    finish_refresh-sent (send net (refresh_request net token) c) ∙ (send-same _ c).0,
  )

  abbrev pub held_by : Client World → Option Text
  held_by c = truthy (get_refresh_token c.session)

  pub refresh_session-sent : (c : Client World) → SentRefresh (held_by c) c (refresh_session net c)
  unfolding refresh_session
  refresh_session-sent c = refresh_with-sent (held_by c) c
