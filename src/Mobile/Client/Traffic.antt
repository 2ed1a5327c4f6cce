-- ===== src/Mobile/Client/Traffic.antt =====
-- Which requests one call of the mobile client's `apiFetch` or `authedFetch` sends.
use postal.Prelude.{
  Text, ℕ, ◌≡◌, refl, ◌⊎◌, inl, inr, ap, ◌∙◌, Option, none, some, List, [], ◌∷◌, ◌++◌, Bool, true,
  false, arith, Bool-cases, if◌then◌else◌, ◌==◌, not, ◌&&◌,
}
use mathlib.Core.List.{append_assoc}
use postal.Mobile.Session.{truthy, get_refresh_token}
use postal.Mobile.Client.{
  Net, Client, Request, Response, set_header, is_auth_flow, authorized, send, refresh_request,
  refresh_session, resend, warn, answer, api_fetch, run, rerun, after_run, authed_fetch,
}
use postal.Mobile.Client.Requests.{
  IsCopy, Traffic, set_header-IsCopy, authorized-IsCopy, IsCopy-trans, send-same, SentRefresh,
  held_by, refresh_session-sent, once, refreshed, retried,
}

module _ (net : Net) where
  open net use {World}

  -- What is sent behind the caller's request `r`.
  abbrev Follows : Option Text → Request → Client World → Client World → Type 0
  Follows held r c d =
      (d.sent ≡ c.sent)
      ⊎ (((token : Text) × (held ≡ some token)
            × (d.sent ≡ c.sent ++ refresh_request net token ∷ []))
          ⊎ ((token : Text) × (r' : Request) × (held ≡ some token)
              × IsCopy r r'
              × (d.sent ≡ c.sent ++ refresh_request net token ∷ r' ∷ [])))

  module _ (held : Option Text) (r r' : Request) (copy : IsCopy r r') where
    -- A second request behind a refresh.
    second :
        (c d : Client World) → SentRefresh net held c (true, d) → Follows held r c (send net r' d).1
    second c d (inl (e, q)) = cc
    second c d (inr (token, h, q)) = inr (
        inr (
          token,
          r',
          h,
          copy,
          (send-same net r' d).0 ∙ ap (λ l. l ++ r' ∷ []) q ∙ append_assoc c.sent _ _,
        ))

  failed :
      (held : Option Text) (r : Request) (c d : Client World)
      → SentRefresh net held c (false, d)
      → Follows held r c d
  failed held r c d (inl (e, q)) = inl q
  failed held r c d (inr (token, h, q)) = inr (inl (token, h, q))

  resend-sent :
      (held : Option Text) (r : Request) (res : Response) (c : Client World)
      (x : Bool × Client World)
      → SentRefresh net held c x
      → Follows held r c (resend net r res x).1
  resend-sent held r res c (false, d) h = failed held r c d h
  resend-sent held r res c (true, d) h =
      second held r _ (set_header-IsCopy _ _ r r (refl, refl, refl)) c d h

  rerun-sent :
      (held : Option Text) (r : Request) (res : Response) (c : Client World)
      (x : Bool × Client World)
      → SentRefresh net held c x
      → Follows held r c (rerun net r res x).1
  unfolding run
  rerun-sent held r res c (false, d) h = failed held r c d h
  rerun-sent held r res c (true, d) h =
      second held r _ (authorized-IsCopy (truthy d.session.access_token) r) c d h

  warn-sent : (x : Option Response × Client World) → (warn net x).1.sent ≡ x.1.sent
  unfolding warn
  warn-sent (none, c) = refl
  warn-sent (some res, c) = ground arith

  abbrev Sends : Option Text → Request → Client World → Client World → Type 0
  Sends held request c d = (l : List Request) × (d.sent ≡ c.sent ++ l) × Traffic net held request l

  follow :
      (held : Option Text) (request r : Request) (c d e : Client World)
      → IsCopy request r
      → d.sent ≡ c.sent ++ r ∷ []
      → Follows held request d e
      → Sends held request c e
  follow held request r c d e copy p (inl q) = (r ∷ [], q ∙ p, once copy)
  follow held request r c d e copy p (inr (inl (token, h, q))) = (
    r ∷ refresh_request net token ∷ [],
    q ∙ ap (λ l. l ++ refresh_request net token ∷ []) p ∙ append_assoc c.sent _ _,
    refreshed token copy h,
  )
  follow held request r c d e copy p (inr (inr (token, r', h, copy', q))) = (
    r ∷ refresh_request net token ∷ r' ∷ [],
    q ∙ ap (λ l. l ++ refresh_request net token ∷ r' ∷ []) p ∙ append_assoc c.sent _ _,
    retried token copy copy' h,
  )

  Follows-copy :
      (held : Option Text) (request r : Request) (c d : Client World)
      → IsCopy request r
      → Follows held r c d
      → Follows held request c d
  Follows-copy held request r c d copy (inl q) = inl q
  Follows-copy held request r c d copy (inr (inl h)) = inr (inl h)
  Follows-copy held request r c d copy (inr (inr (token, r', h, copy', q))) =
      inr (inr (token, r', h, IsCopy-trans request r r' copy copy', q))

  -- The refresh token that a call for this URL may use.
  abbrev pub usable : Text → Client World → Option Text
  usable url c = if is_auth_flow url then none else held_by net c

  may_refresh :
      (status : ℕ) (url : Text) (c : Client World)
      → (status == 401 && not (is_auth_flow url)) ≡ true
      → usable url c ≡ held_by net c
  may_refresh status url c h = ground arith

  warned :
      (held : Option Text) (r : Request) (c : Client World) (x : Option Response × Client World)
      → Follows held r c x.1
      → Follows held r c (warn net x).1
  warned held r c x h = rw (warn-sent x) h

  usable-same :
      (url url' : Text) (c d : Client World)
      → url' ≡ url
      → d.session ≡ c.session
      → usable url' d ≡ usable url c
  usable-same url url' c d e f = rw (e, f) refl

  held_by-same : (c d : Client World) → d.session ≡ c.session → held_by net d ≡ held_by net c
  held_by-same c d f = rw f refl

  answer-sent :
      (r : Request) (x : Option Response × Client World)
      → Follows (usable r.url x.1) r x.1 (answer net r x).1
  answer-sent r (none, c) = inl refl
  answer-sent r (some res, c) = elim (Bool-cases (res.status == 401 && not (is_auth_flow r.url))) [
    | inl e ↦
        rw (e, may_refresh res.status r.url c e)
          (warned (held_by net c) r c _ (
            resend-sent (held_by net c) r res c (refresh_session net c)
              (refresh_session-sent net c)))
    | inr e ↦ rw e (warned (usable r.url c) r c (some res, c) (inl refl))
  ]

  after_run-sent :
      (r : Request) (x : Option Response × Client World)
      → Follows (held_by net x.1) r x.1 (after_run net r x).1
  after_run-sent r (none, c) = inl refl
  after_run-sent r (some res, c) = elim (Bool-cases (res.status == 401)) [
    | inl e ↦
        rw e
          (rerun-sent (held_by net c) r res c (refresh_session net c) (refresh_session-sent net c))
    | inr e ↦ rw e (inl refl)
  ]

-- One call of `apiFetch` sends the caller's request alone, that and one refresh, or these and one
-- retry, and so does one call of `authedFetch`; the refresh has the token that the keystore held
-- before, `apiFetch` makes none for an auth endpoint, and the first request and the retry keep the
-- method, the URL and the body.
pub authed_fetch-Traffic :
    (net : Net) (id : Text) (request : Request) (c : Client net.World)
    → ((l : List Request) × ((api_fetch net id request c).1.sent ≡ c.sent ++ l)
        × Traffic net (usable net request.url c) request l)
      × ((l : List Request) × ((authed_fetch net request c).1.sent ≡ c.sent ++ l)
          × Traffic net (truthy (get_refresh_token c.session)) request l)
unfolding api_fetch authed_fetch run
authed_fetch-Traffic net id request c =
    let token = truthy c.session.access_token in
    let r = authorized token request in
    let r' = set_header "X-Request-Id" id r in
    let copy = authorized-IsCopy token request in
    let copy' = set_header-IsCopy "X-Request-Id" id request r copy in
    let (sent, session) = send-same net r' c in
    let follows = rw (usable-same net request.url r'.url c (send net r' c).1 copy'.1 session) at (
      Follows-copy net (usable net r'.url (send net r' c).1) request r' (send net r' c).1
        (answer net r' (send net r' c)).1 copy' (answer-sent net r' (send net r' c))) in
    let (ran, kept) = send-same net r c in
    let reruns =
      rw (held_by-same net c (send net r c).1 kept) at
        (after_run-sent net request (send net r c)) in
    let d = (send net r' c).1 in
    let e = (send net r c).1 in
    (
      follow net (usable net request.url c) request r' c d (answer net r' (send net r' c)).1 copy'
          sent follows,
      follow net (truthy (get_refresh_token c.session)) request r c e
          (after_run net request (send net r c)).1 copy ran reruns,
    )
