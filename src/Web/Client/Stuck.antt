-- ===== src/Web/Client/Stuck.antt =====
-- A cookie that `decodeURIComponent` refuses, with no token in session storage. `csrfToken()` then
-- throws before the first `await` of the refresh, so `finally` clears `refreshing` before `??=`
-- stores the promise, and that promise, settled on false, is never cleared.
use postal.Prelude.{
  Text, ◌≡◌, refl, ap, ◌∙◌, Option, none, some, List, [], ◌∷◌, false, arith, length, length-append,
  Bool-cases, ◌≤◌, ◌+◌, inl, inr,
}
use postal.Web.Cookie.{Read, threw, Read-cases}
use postal.Web.Http.{Request, Response, set_header}
use postal.Web.Client.{
  Net, Client, idle, settled, csrf_token, send, capture, start_refresh, refresh_session, by_slot,
  answer, with_csrf, recoverable, recover, warn, api_fetch,
}

module _ (net : Net) where
  open net use {World}

  -- Calls of `apiFetch`, one after another.
  abbrev pub run : List (Text × Request) → Client World → Client World
  run [] c = c
  run ((id, request) ∷ l) c = run l (api_fetch net id request c).1

  refresh_session-settled :
      (c : Client World) → c.refreshing ≡ settled false → refresh_session net c ≡ (false, c)
  unfolding refresh_session
  refresh_session-settled c h = ap (λ s. by_slot net s c) h

  recover-settled :
      (r : Request) (res : Response) (c : Client World)
      → c.refreshing ≡ settled false
      → recover net r res c ≡ (some res, c)
  unfolding recover
  recover-settled r res c h = elim (Bool-cases (recoverable net r res)) [
    | inl e ↦ rw (e, recover, refresh_session-settled c h)
    | inr e ↦ rw (e, recover)
  ]

  warn-same :
      (url : Text) (x : Option Response × Client World)
      → ((warn net url x).1.sent ≡ x.1.sent) × ((warn net url x).1.refreshing ≡ x.1.refreshing)
  unfolding warn
  warn-same url (none, c) = (refl, refl)
  warn-same url (some res, c) = ground arith

  answer-settled :
      (r : Request) (x : Option Response × Client World)
      → x.1.refreshing ≡ settled false
      → ((answer net r x).1.sent ≡ x.1.sent) × ((answer net r x).1.refreshing ≡ settled false)
  unfolding capture
  answer-settled r (none, c) h = (refl, h)
  answer-settled r (some res, c) h =
      let d = capture net res r.url c in
      let (sent, same) = warn-same r.url (recover net r res d) in
      (
        sent ∙ ap (λ p. p.1.sent) (recover-settled r res d h),
        same ∙ ap (λ p. p.1.refreshing) (recover-settled r res d h) ∙ h,
      )

  api_fetch-settled :
      (id : Text) (request : Request) (c : Client World)
      → c.refreshing ≡ settled false
      → ((api_fetch net id request c).1.refreshing ≡ settled false)
        × (length (api_fetch net id request c).1.sent ≤ length c.sent + 1)
  unfolding api_fetch send
  api_fetch-settled id request c h = elim (Read-cases (with_csrf net request c)) [
    | inl e ↦ rw (e, api_fetch) (h, omega arith)
    | inr (r, e) ↦
        let r' = set_header "X-Request-Id" id r in
        let (sent, kept) = answer-settled r' (send net r' c) h in
        rw (e, api_fetch) (kept, rw sent (omega (arith, length-append c.sent (r' ∷ []))))
  ]

  run-settled :
      (l : List (Text × Request)) (c : Client World)
      → c.refreshing ≡ settled false
      → ((run l c).refreshing ≡ settled false) × (length (run l c).sent ≤ length c.sent + length l)
  run-settled [] c h = (h, omega arith)
  run-settled ((id, request) ∷ l) c h =
      let (same, bound) = api_fetch-settled id request c h in
      let (later, total) = run-settled l (api_fetch net id request c).1 same in (later, omega arith)

  start_refresh-threw :
      (r : Read (Option Text)) (c : Client World)
      → r ≡ threw
      → start_refresh net r c ≡ (false, record c { refreshing = settled false })
  unfolding start_refresh
  start_refresh-threw r c e = rw e

-- Where `csrfToken()` throws while no refresh is kept, the refresh fails without a request, and no
-- sequence of `apiFetch` calls by a client that holds what it left in `refreshing` sends more than
-- one request a call: there is no refresh and no retry again, and the failed promise stays.
pub refresh_session-stuck :
    (net : Net) (c e : Client net.World) (l : List (Text × Request))
    → c.refreshing ≡ idle
    → csrf_token net c ≡ threw
    → e.refreshing ≡ (refresh_session net c).1.refreshing
    → ((refresh_session net c).0 ≡ false)
      × ((refresh_session net c).1.sent ≡ c.sent)
      × ((run net l e).refreshing ≡ settled false)
      × (length (run net l e).sent ≤ length e.sent + length l)
unfolding refresh_session
refresh_session-stuck net c e l h t same =
    let q : refresh_session net c ≡ (false, record c { refreshing = settled false }) =
      ap (λ s. by_slot net s c) h ∙ start_refresh-threw net (csrf_token net c) c t in
    let (stays, bound) = run-settled net l e (same ∙ ap (λ p. p.1.refreshing) q) in
    (ap (λ p. p.0) q, ap (λ p. p.1.sent) q, stays, bound)
