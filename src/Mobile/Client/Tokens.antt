-- ===== src/Mobile/Client/Tokens.antt =====
-- What the mobile client's calls do to the session: mobile/src/lib/secure-session.ts under
-- mobile/src/api/client.ts.
use postal.Prelude.{
  Text, ℕ, String, ◌≡◌, ◌≢◌, refl, ◌⊎◌, inl, inr, ap, sym, ◌∙◌, Option, none, some, List, [], ◌∷◌,
  ◌++◌, Bool, true, false, arith, Bool-cases, if◌then◌else◌, ◌==◌, not, ◌&&◌, value_or, includes,
  codes, strip_prefix, ◌||◌,
}
use postal.Mobile.Session.{
  Session, Keystore, unavailable, read_only, holds, truthy, stored, get_refresh_token, save_session,
  set_access_token, set_refresh_token, keep_refresh, clear_session,
}
use postal.Mobile.Client.{
  Net, Client, Request, Response, set_header, is_auth_flow, authorized, bearer, send,
  refresh_request, accept, save_pair, TokenPair, finish_refresh, refresh_with, refresh_session,
  resend, warn, answer, api_fetch, run, rerun, after_run, authed_fetch,
}

-- A refresh token is held, so the session can be refreshed.
abbrev pub IsSignedIn : Session → Type 0
IsSignedIn s = truthy (get_refresh_token s) ≢ none

keep_refresh-IsSignedIn :
    (refresh : Option Text) (s : Session)
    → IsSignedIn s
    → IsSignedIn (keep_refresh (truthy refresh) s)
unfolding get_refresh_token set_refresh_token
keep_refresh-IsSignedIn none s h = h
keep_refresh-IsSignedIn (some []) s h = h
keep_refresh-IsSignedIn (some (x ∷ t)) s h = written s.keystore h
  where
    written :
        (k : Keystore)
        → truthy (stored k) ≢ none
        → truthy (stored (postal.Mobile.Session.write (some (x ∷ t)) k)) ≢ none
    written unavailable h = h
    written (read_only o) h = h
    written (holds o) h = λ e. cc

save_session-IsSignedIn :
    (access : Text) (refresh : Option Text) (s : Session)
    → IsSignedIn s
    → IsSignedIn (save_session access refresh s)
unfolding save_session set_access_token get_refresh_token
save_session-IsSignedIn access refresh s h =
    keep_refresh-IsSignedIn refresh (record s { access_token = some access }) h

module _ (net : Net) where
  open net use {World}

  abbrev Keeps : Client World → Client World → Type 0
  Keeps c d = IsSignedIn c.session → IsSignedIn d.session

  send-Keeps : (r : Request) (c : Client World) → Keeps c (send net r c).1
  unfolding send
  send-Keeps r c h = h

  accept-Keeps : (o : Option TokenPair) (c : Client World) → Keeps c (accept net o c).1
  accept-Keeps none c h = h
  accept-Keeps (some pair) c h = go (truthy pair.access)
    where
      go : (o : Option Text) → IsSignedIn (save_pair net o pair.refresh c).1.session
      go none = h
      go (some access) = save_session-IsSignedIn access pair.refresh c.session h

  finish_refresh-Keeps : (x : Option Response × Client World) → Keeps x.1 (finish_refresh net x).1
  finish_refresh-Keeps (none, c) h = h
  finish_refresh-Keeps (some res, c) h = ground (arith, accept-Keeps res.json c h)

  refresh_with-Keeps : (o : Option Text) (c : Client World) → Keeps c (refresh_with net o c).1
  refresh_with-Keeps none c h = h
  refresh_with-Keeps (some token) c h =
      finish_refresh-Keeps (send net (refresh_request net token) c)
        (send-Keeps (refresh_request net token) c h)

  refresh_session-Keeps : (c : Client World) → Keeps c (refresh_session net c).1
  unfolding refresh_session
  refresh_session-Keeps c h = refresh_with-Keeps (truthy (get_refresh_token c.session)) c h

  resend-Keeps :
      (r : Request) (res : Response) (x : Bool × Client World) → Keeps x.1 (resend net r res x).1
  resend-Keeps r res (false, c) h = h
  resend-Keeps r res (true, c) h =
      send-Keeps (set_header "Authorization" (bearer (value_or c.session.access_token [])) r) c h

  rerun-Keeps :
      (r : Request) (res : Response) (x : Bool × Client World) → Keeps x.1 (rerun net r res x).1
  unfolding run
  rerun-Keeps r res (false, c) h = h
  rerun-Keeps r res (true, c) h = send-Keeps (authorized (truthy c.session.access_token) r) c h

  warn-Keeps : (x : Option Response × Client World) → Keeps x.1 (warn net x).1
  unfolding warn
  warn-Keeps (none, c) h = h
  warn-Keeps (some res, c) h = elim (Bool-cases (postal.Prelude.leb 500 res.status)) [
    | inl e ↦ rw e h
    | inr e ↦ rw e h
  ]

  answer-Keeps : (r : Request) (x : Option Response × Client World) → Keeps x.1 (answer net r x).1
  answer-Keeps r (none, c) h = h
  answer-Keeps r (some res, c) h =
      elim (Bool-cases (res.status == 401 && not (is_auth_flow r.url))) [
        | inl e ↦ rw e (
            warn-Keeps (resend net r res (refresh_session net c))
              (resend-Keeps r res (refresh_session net c) (refresh_session-Keeps c h)))
        | inr e ↦ rw e (warn-Keeps (some res, c) h)
      ]

  after_run-Keeps :
      (r : Request) (x : Option Response × Client World) → Keeps x.1 (after_run net r x).1
  after_run-Keeps r (none, c) h = h
  after_run-Keeps r (some res, c) h = elim (Bool-cases (res.status == 401)) [
    | inl e ↦ rw e (rerun-Keeps r res (refresh_session net c) (refresh_session-Keeps c h))
    | inr e ↦ rw e h
  ]

-- A call of `apiFetch` or of `authedFetch`, whatever the server answers and whether the refresh
-- succeeds, leaves a session that holds a refresh token with a refresh token.
pub authed_fetch-IsSignedIn :
    (net : Net) (id : Text) (request : Request) (c : Client net.World)
    → IsSignedIn c.session
    → IsSignedIn (api_fetch net id request c).1.session
      × IsSignedIn (authed_fetch net request c).1.session
unfolding api_fetch authed_fetch run
authed_fetch-IsSignedIn net id request c h = (
  answer-Keeps net
      (set_header "X-Request-Id" id (authorized (truthy c.session.access_token) request))
      (send net (set_header "X-Request-Id" id (authorized (truthy c.session.access_token) request))
        c)
      (send-Keeps net
        (set_header "X-Request-Id" id (authorized (truthy c.session.access_token) request)) c h),
  after_run-Keeps net request (send net (authorized (truthy c.session.access_token) request) c)
      (send-Keeps net (authorized (truthy c.session.access_token) request) c h),
)
