-- ===== src/Web/Client/Traffic.antt =====
-- Which requests one call of `apiFetch` sends.
use postal.Prelude.{
  Text, ◌≡◌, ◌≢◌, refl, ◌⊎◌, inl, inr, ap, sym, ◌∙◌, Option, none, some, List, [], ◌∷◌, ◌++◌, Bool,
  true, false, arith, Bool-cases,
}
use mathlib.Core.List.{append_assoc, append-nil}
use postal.Web.Cookie.{returned, Read-cases}
use postal.Web.Http.{Request, Response, is_auth_flow, set_header, truthy}
use postal.Web.Client.{
  Net, Client, settled, csrf_token, send, refresh_request, capture, refresh_session, if_refreshed,
  answer, with_csrf, recoverable, recover, warn, api_fetch,
}
use postal.Web.Client.Requests.{
  IsCopy, Traffic, set_csrf-IsCopy, set_header-IsCopy, send-sent, send-refreshing, resend-sent,
  SentRefresh, refresh_session-sent, nothing, once, refreshed, retried,
}

module _ (net : Net) where
  open net use {World}

  -- What is sent behind the caller's request `r`.
  abbrev Follows : Request → Client World → Client World → Type 0
  Follows r c d =
      (d.sent ≡ c.sent)
      ⊎ (((csrf : Option Text) × (d.sent ≡ c.sent ++ refresh_request net csrf ∷ []))
          ⊎ ((csrf : Option Text) × (r' : Request) × IsCopy r r'
              × (d.sent ≡ c.sent ++ refresh_request net csrf ∷ r' ∷ [])))

  if_refreshed-sent :
      (r : Request) (res : Response) (c : Client World) (x : Bool × Client World)
      → SentRefresh net c x
      → Follows r c (if_refreshed net r res x).1
  if_refreshed-sent r res c (false, d) (inl (e, q)) = inl q
  if_refreshed-sent r res c (false, d) (inr (csrf, q)) = inr (inl (csrf, q))
  if_refreshed-sent r res c (true, d) (inl (e, q)) = cc
  if_refreshed-sent r res c (true, d) (inr (csrf, q)) = elim (resend-sent net r d) [
    | inl p ↦ inr (inl (csrf, p ∙ q))
    | inr (r', copy, p) ↦
        inr (inr (csrf, r', copy, p ∙ ap (λ l. l ++ r' ∷ []) q ∙ append_assoc c.sent _ _))
  ]

  recoverable-auth :
      (r : Request) (res : Response) → recoverable net r res ≡ true → is_auth_flow r.url ≡ false
  unfolding recoverable
  recoverable-auth r res h = ground arith

  recover-sent :
      (r : Request) (res : Response) (c : Client World)
      → c.refreshing ≢ settled true
      → ((recover net r res c).1.sent ≡ c.sent)
        ⊎ ((is_auth_flow r.url ≡ false) × Follows r c (recover net r res c).1)
  unfolding recover
  recover-sent r res c h = elim (Bool-cases (recoverable net r res)) [
    | inl e ↦ inr (
      recoverable-auth r res e,
      rw (e, recover)
          (if_refreshed-sent r res c (refresh_session net c) (refresh_session-sent net c h)),
    )
    | inr e ↦ inl (rw (e, recover))
  ]

  pub warn-sent :
      (url : Text) (x : Option Response × Client World) → (warn net url x).1.sent ≡ x.1.sent
  unfolding warn
  warn-sent url (none, c) = refl
  warn-sent url (some res, c) = ground arith

  capture-same :
      (res : Response) (url : Text) (c : Client World)
      → ((capture net res url c).sent ≡ c.sent)
        × ((capture net res url c).refreshing ≡ c.refreshing)
  unfolding capture
  capture-same res url c = (refl, refl)

  abbrev Sends : Request → Client World → Client World → Type 0
  Sends request c d = (l : List Request) × (d.sent ≡ c.sent ++ l) × Traffic net request l

  follow :
      (request r : Request) (c d e : Client World)
      → IsCopy request r
      → d.sent ≡ c.sent ++ r ∷ []
      → ((e.sent ≡ d.sent) ⊎ ((is_auth_flow r.url ≡ false) × Follows r d e))
      → Sends request c e
  follow request r c d e copy p (inl q) = (r ∷ [], q ∙ p, once copy)
  follow request r c d e copy p (inr (auth, inl q)) = (r ∷ [], q ∙ p, once copy)
  follow request r c d e copy p (inr (auth, inr (inl (csrf, q)))) = (
    r ∷ refresh_request net csrf ∷ [],
    q ∙ ap (λ l. l ++ refresh_request net csrf ∷ []) p ∙ append_assoc c.sent _ _,
    refreshed csrf copy (rw (← copy.1) auth),
  )
  follow request r c d e copy p (inr (auth, inr (inr (csrf, r', copy', q)))) = (
    r ∷ refresh_request net csrf ∷ r' ∷ [],
    q ∙ ap (λ l. l ++ refresh_request net csrf ∷ r' ∷ []) p ∙ append_assoc c.sent _ _,
    retried csrf copy (copy'.0 ∙ copy.0, copy'.1 ∙ copy.1) (rw (← copy.1) auth),
  )

  answer-sent :
      (request r : Request) (c : Client World) (x : Option Response × Client World)
      → IsCopy request r
      → x.1.sent ≡ c.sent ++ r ∷ []
      → x.1.refreshing ≢ settled true
      → Sends request c (answer net r x).1
  answer-sent request r c (none, d) copy p h = (r ∷ [], p, once copy)
  answer-sent request r c (some res, d) copy p h =
      let e = capture net res r.url d in
      let same = capture-same res r.url d in
      let (l, sent, traffic) =
        follow request r c e (recover net r res e).1 copy (same.0 ∙ p)
          (recover-sent r res e (λ q. h (sym same.1 ∙ q))) in
      (l, warn-sent r.url (recover net r res e) ∙ sent, traffic)

  with_csrf-IsCopy :
      (request : Request) (c : Client World) {r : Request}
      → with_csrf net request c ≡ returned r
      → IsCopy request r
  unfolding with_csrf
  with_csrf-IsCopy request c {r = r} e = elim (Read-cases (csrf_token net c)) [
    | inl t ↦ ground arith
    | inr (csrf, t) ↦ ground (arith, set_csrf-IsCopy (truthy csrf) request)
  ]

-- Where no earlier refresh has been kept as a success, one call of `apiFetch` sends nothing, the
-- caller's request, that and one refresh, or these two and one retry; the retry and the first
-- request keep the method and the URL, and an auth endpoint is never refreshed or retried.
pub api_fetch-Traffic :
    (net : Net) (request_id : Text) (request : Request) (c : Client net.World)
    → c.refreshing ≢ settled true
    → (l : List Request) × ((api_fetch net request_id request c).1.sent ≡ c.sent ++ l)
      × Traffic net request l
unfolding api_fetch
api_fetch-Traffic net request_id request c h = elim (Read-cases (with_csrf net request c)) [
  | inl e ↦ ([], rw (e, api_fetch) (sym (append-nil c.sent)), nothing)
  | inr (r, e) ↦
      let r' = set_header "X-Request-Id" request_id r in
      rw (e, api_fetch)
        (answer-sent net request r' c (send net r' c)
          (set_header-IsCopy "X-Request-Id" request_id request r (with_csrf-IsCopy net request c e))
          (send-sent net r' c) (λ q. h (sym (send-refreshing net r' c) ∙ q)))
]
