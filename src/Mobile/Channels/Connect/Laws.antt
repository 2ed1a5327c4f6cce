-- ===== src/Mobile/Channels/Connect/Laws.antt =====
-- When the flow connects an account.
use postal.Prelude.{String, Text, ◌≡◌, refl, Option, none, some, ◌↔◌}
use postal.Schema.{Channel}
use postal.Query.{Result, ok, thrown, type_error}
use postal.Mobile.Data.Channels.{oauth_redirect}
use postal.Mobile.Channels.Connect.{
  connected, Session, success, closed, rejected, Flow, param, completed, exchange, redirected,
  authorized, run,
}

-- The steps of a flow that connects `c`: the API's URL, the browser's redirect back from it, the state
-- and the code in that redirect, and the exchange of the two.
pub record Connects (f : Flow) (platform : String) (c : Channel) : Type 0 where
  pub url : Text
  pub redirect : Text
  pub state : Text
  pub code : Text
  pub authorizes : f.connect platform ≡ ok url
  pub returns : f.open_auth_session url oauth_redirect ≡ success redirect
  pub has_state : param "state" (f.parse redirect) ≡ some state
  pub has_code : param "code" (f.parse redirect) ≡ some code
  pub exchanges : f.complete (state, code) ≡ ok c

run-by :
    (f : Flow) (platform : String) (c : Channel)
    → Connects f platform c
    → run f platform ≡ connected c
unfolding run
run-by f platform c h = rw (h.authorizes, h.returns, h.has_state, h.has_code, h.exchanges) refl

completed-ok :
    (unknown : String) (r : Result Channel) (c : Channel)
    → completed unknown r ≡ connected c
    → r ≡ ok c
completed-ok unknown (ok d) c e = cc e
completed-ok unknown (thrown x) c e = cc e
completed-ok unknown type_error c e = cc e

exchange-Connects :
    (f : Flow) (platform : String) (c : Channel) (url redirect : Text) (state code : Option Text)
    → f.connect platform ≡ ok url
    → f.open_auth_session url oauth_redirect ≡ success redirect
    → param "state" (f.parse redirect) ≡ state
    → param "code" (f.parse redirect) ≡ code
    → exchange f state code ≡ connected c
    → Connects f platform c
exchange-Connects f platform c url redirect (some state) (some code) a r s k e = record {
  url = url;
  redirect = redirect;
  state = state;
  code = code;
  authorizes = a;
  returns = r;
  has_state = s;
  has_code = k;
  exchanges = completed-ok f.unknown (f.complete (state, code)) c e;
}
exchange-Connects f platform c url redirect none code a r s k e = cc e
exchange-Connects f platform c url redirect (some state) none a r s k e = cc e

redirected-Connects :
    (f : Flow) (platform : String) (c : Channel) (url : Text) (s : Session)
    → f.connect platform ≡ ok url
    → f.open_auth_session url oauth_redirect ≡ s
    → redirected f s ≡ connected c
    → Connects f platform c
redirected-Connects f platform c url (success redirect) a r e =
    let params = f.parse redirect in
    exchange-Connects f platform c url redirect (param "state" params) (param "code" params) a r
      refl refl e
redirected-Connects f platform c url closed a r e = cc e
redirected-Connects f platform c url (rejected m) a r e = cc e

authorized-Connects :
    (f : Flow) (platform : String) (c : Channel) (r : Result Text)
    → f.connect platform ≡ r
    → authorized f r ≡ connected c
    → Connects f platform c
authorized-Connects f platform c (ok url) a e =
    redirected-Connects f platform c url (f.open_auth_session url oauth_redirect) a refl e
authorized-Connects f platform c (thrown x) a e = cc e
authorized-Connects f platform c type_error a e = cc e

-- The flow connects an account exactly when the API gives a URL, the browser comes back from it with a
-- redirect that has one state and one code, and the exchange of these two gives that account;
-- otherwise it is cancelled or ends in an error.
pub run-Connects :
    (f : Flow) (platform : String) (c : Channel)
    → (run f platform ≡ connected c) ↔ Connects f platform c
unfolding run
run-Connects f platform c =
    (authorized-Connects f platform c (f.connect platform) refl, run-by f platform c)
