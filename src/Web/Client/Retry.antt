-- ===== src/Web/Client/Retry.antt =====
-- What the caller of `apiFetch` gets where the session or the CSRF token has to be refreshed.
use postal.Prelude.{
  Text, ℕ, String, ◌≡◌, refl, ap, ◌∙◌, Option, none, some, List, [], ◌∷◌, ◌++◌, true, false, arith,
  codes, lookup, includes, strip_prefix, lookup-insert,
}
use mathlib.Core.List.{append_assoc}
use postal.Web.Cookie.{returned}
use postal.ApiError.{is_ok}
use postal.Web.Http.{
  Request, Response, Payload, Storage, working, is_mutating, is_auth_flow, set_header, set_csrf,
  capture_csrf, store_csrf,
}
use postal.Web.Client.Requests.{send-sent}
use postal.Web.Client.Traffic.{warn-sent}
use postal.Web.Client.{
  Net, Client, idle, csrf_token, send, refresh_request, capture, finish_refresh, start_refresh,
  refresh_session, with_csrf, resend, recoverable, recover, warn, api_fetch,
}

is_mutating-first :
    (id token : Text) (r : Request)
    → is_mutating r ≡ true
    → is_mutating (set_header "X-Request-Id" id (set_csrf (some token) r)) ≡ true
unfolding is_mutating set_header set_csrf
is_mutating-first id token r m = m

auth-first :
    (id token : Text) (r : Request)
    → is_auth_flow r.url ≡ false
    → is_auth_flow (set_header "X-Request-Id" id (set_csrf (some token) r)).url ≡ false
unfolding set_header set_csrf
auth-first id token r a = a

lookup-set_csrf :
    (token : Text) (r : Request)
    → lookup "X-CSRF-Token" (set_csrf (some token) r).headers ≡ some token
unfolding set_header set_csrf
lookup-set_csrf token r = simp (lookup-insert)

captures_refresh :
    (res : Response) (storage : Storage) (body : Payload)
    → is_ok res.status ≡ true
    → res.json ≡ some body
    → capture_csrf res (codes "/auth/refresh") storage ≡ store_csrf body.csrf_token storage
unfolding capture_csrf includes strip_prefix
captures_refresh res storage body h j = ground arith

captures_nothing :
    (res : Response) (url : Text) (storage : Storage)
    → is_ok res.status ≡ false
    → capture_csrf res url storage ≡ storage
unfolding capture_csrf
captures_nothing res url storage h = ground arith

module _ (net : Net) (warnings : List (Option String × ℕ × Text)) where
  open net use {World, fetch}

  -- A client at rest that holds a token.
  abbrev holding : Text → World → List Request → Client World
  holding token w sent = record {
    storage = working (some token);
    refreshing = idle;
    world = w;
    sent = sent;
    warnings = warnings;
  }

  module _ (x : ℕ) (xs : Text) (w : World) (sent : List Request) where
    with_csrf-holding :
        (r : Request)
        → is_mutating r ≡ true
        → with_csrf net r (holding (x ∷ xs) w sent) ≡ returned (set_csrf (some (x ∷ xs)) r)
    unfolding with_csrf csrf_token
    with_csrf-holding r m = rw m

    resend-holding :
        (r : Request)
        → is_mutating r ≡ true
        → resend net r (holding (x ∷ xs) w sent)
          ≡ send net (set_csrf (some (x ∷ xs)) r) (holding (x ∷ xs) w sent)
    unfolding resend csrf_token
    resend-holding r m = rw m

    send-holding :
        (r : Request) {o : Option Response} {w' : World}
        → fetch r w ≡ (o, w')
        → send net r (holding (x ∷ xs) w sent) ≡ (o, holding (x ∷ xs) w' (sent ++ r ∷ []))
    unfolding send
    send-holding r e = rw e

    refresh_session-holding :
        (y : ℕ) (ys : Text) (res : Response) (body : Payload) (w' : World)
        → fetch (refresh_request net (some (x ∷ xs))) w ≡ (some res, w')
        → is_ok res.status ≡ true
        → res.json ≡ some body
        → body.csrf_token ≡ some (y ∷ ys)
        → refresh_session net (holding (x ∷ xs) w sent)
          ≡ (true, holding (y ∷ ys) w' (sent ++ refresh_request net (some (x ∷ xs)) ∷ []))
    unfolding refresh_session start_refresh csrf_token finish_refresh capture store_csrf
    refresh_session-holding y ys res body w' e o j t =
        rw (send-holding _ e, captures_refresh res (working (some (x ∷ xs))) body o j, o, t)

  module _ (x y : ℕ) (xs ys : Text) (w1 w2 : World) (sent : List Request) where
    recover-expired :
        (r : Request) (res res2 : Response) (body : Payload)
        → is_mutating r ≡ true
        → recoverable net r res ≡ true
        → fetch (refresh_request net (some (x ∷ xs))) w1 ≡ (some res2, w2)
        → is_ok res2.status ≡ true
        → res2.json ≡ some body
        → body.csrf_token ≡ some (y ∷ ys)
        → recover net r res (holding (x ∷ xs) w1 sent)
          ≡ send net
              (set_csrf (some (y ∷ ys)) r)
              (holding (y ∷ ys) w2 (sent ++ refresh_request net (some (x ∷ xs)) ∷ []))
    unfolding recover
    recover-expired r res res2 body m e f o j t =
        rw (e, refresh_session-holding x xs w1 sent y ys res2 body w2 f o j t)
          (resend-holding y ys w2 _ r m)

  recoverable-expired :
      (r : Request) (res : Response)
      → is_auth_flow r.url ≡ false
      → res.status ≡ 401
      → recoverable net r res ≡ true
  unfolding recoverable
  recoverable-expired r res a e = ground arith

  send-answer : (r : Request) (c : Client World) → (send net r c).0 ≡ (fetch r c.world).0
  unfolding send
  send-answer r c = refl

  warn-answer : (url : Text) (x : Option Response × Client World) → (warn net url x).0 ≡ x.0
  unfolding warn
  warn-answer url (none, c) = refl
  warn-answer url (some res, c) = refl

-- A mutation outside the auth endpoints, with a stored token, is answered by 401; no refresh is
-- kept, the refresh is accepted and its body has a new token that is not empty. Then exactly three
-- requests were sent, the last is the first one with the new token in its header, and the caller
-- gets the answer to that one.
pub api_fetch-fresh_token :
    (net : Net) (id : Text) (request : Request) (w w1 w2 : net.World) (sent : List Request)
    (warnings : List (Option String × ℕ × Text)) (x : ℕ) (xs : Text) (y : ℕ) (ys : Text)
    (rid : Option String) (json : Option Payload) (res2 : Response) (code : Option String)
    → let old : Option Text = some (x ∷ xs) in
      let fresh : Option Text = some (y ∷ ys) in
      let first = set_header "X-Request-Id" id (set_csrf old request) in
      let retry = set_csrf fresh first in
      let c : Client net.World = record {
        storage = working old;
        refreshing = idle;
        world = w;
        sent = sent;
        warnings = warnings;
      } in
      is_mutating request ≡ true
      → is_auth_flow request.url ≡ false
      → net.fetch first w ≡ (some (record { status = 401; request_id = rid; json = json }), w1)
      → net.fetch (refresh_request net old) w1 ≡ (some res2, w2)
      → is_ok res2.status ≡ true
      → res2.json ≡ some (record { csrf_token = fresh; error_code = code })
      → ((api_fetch net id request c).1.sent ≡ sent ++ first ∷ refresh_request net old ∷ retry ∷ [])
        × ((api_fetch net id request c).0 ≡ (net.fetch retry w2).0)
        × (lookup "X-CSRF-Token" retry.headers ≡ fresh)
unfolding api_fetch capture
api_fetch-fresh_token net id request w w1 w2 sent warnings x xs y ys rid json res2 code m a f1 f2
      ok2 j =
    let old : Option Text = some (x ∷ xs) in
    let r0 = set_csrf old request in
    let first = set_header "X-Request-Id" id r0 in
    let retry = set_csrf (some (y ∷ ys)) first in
    let res : Response = record { status = 401; request_id = rid; json = json } in
    let start = holding net warnings (x ∷ xs) w sent in
    let m1 = is_mutating-first id (x ∷ xs) request m in
    let last =
      holding net warnings (y ∷ ys) w2 ((sent ++ first ∷ []) ++ refresh_request net old ∷ []) in
    let e : api_fetch net id request start ≡ warn net first.url (send net retry last) =
      rw (with_csrf-holding net warnings x xs w sent request m, api_fetch)
        (rw (send-holding net warnings x xs w sent first f1) (
          rw (captures_nothing res first.url (working old) refl, capture)
            (ap (warn net first.url) (
              recover-expired net warnings x y xs ys w1 w2 (sent ++ first ∷ []) first res res2 _ m1
                (recoverable-expired net warnings first res (auth-first id (x ∷ xs) request a) refl)
                f2 ok2 j refl)))) in
    (
      ap (λ p. p.1.sent) e
          ∙ (warn-sent net first.url (send net retry last)
              ∙ (send-sent net retry last
                  ∙ (append_assoc (sent ++ first ∷ []) _ _ ∙ append_assoc sent _ _))),
      ap (λ p. p.0) e
          ∙ warn-answer net warnings first.url (send net retry last)
          ∙ send-answer net warnings retry last,
      lookup-set_csrf (y ∷ ys) first,
    )
