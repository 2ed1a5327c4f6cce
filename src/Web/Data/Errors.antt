-- ===== src/Web/Data/Errors.antt =====
-- What a reply makes of the signed-in user and of a login (web/src/data/auth.ts).
use postal.Prelude.{◌≡◌, ◌↔◌, ◌≢◌, ◌⊎◌, none, some, true, false, arith}
use postal.ApiError.{is_ok}
use postal.Schema.{Token}
use postal.Query.{Reply, ok, thrown, type_error}
use postal.Web.ApiError.{normalize_error}
use postal.Web.Data.Auth.{nobody, use_me, use_login}

-- Nobody is signed in exactly where the reply is 401; the normalized error is thrown exactly where
-- another status is not ok or there is no data; and a login ends in a `TypeError` exactly where an
-- accepted reply has no `data.data`.
pub auth_replies :
    (r : Reply postal.Schema.User) (t : Reply Token)
    → ((use_me.select r ≡ ok nobody) ↔ (r.status ≡ 401))
      × ((use_me.select r ≡ thrown (normalize_error r.status r.error))
          ↔ ((r.status ≢ 401) × ((is_ok r.status ≡ false) ⊎ (r.data_field ≡ none))))
      × ((use_login.select t ≡ type_error) ↔ ((is_ok t.status ≡ true) × (t.data_field ≡ some none)))
unfolding use_me use_login
auth_replies r t = (ground arith, ground arith, ground arith)
