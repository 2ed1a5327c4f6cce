-- ===== src/Mobile/Data/Auth.antt =====
-- mobile/src/data/auth.ts
use postal.Prelude.{Option, none, some, List, [], ◌∷◌, true, String, Text, ◌==◌, if◌then◌else◌}
use postal.Schema.{User, Token}
use postal.Query.{
  Key, text, get, post, str, txt, ApiCall, Reply, Result, ok, type_error, with_envelope, when_ok,
  user, Effect, set_data, remove_all, Query, Mutation,
}
use postal.Mobile.Session.{Session, save_session}
use postal.Mobile.ApiError.{normalize_error}

abbrev pub auth_me : Key
auth_me = text "auth" ∷ text "me" ∷ []

-- `null` for nobody, or `data.data as User`, which is `undefined` where the reply has no `data.data`.
pub data Me : Type 0 where
  nobody : Me
  somebody : Option User → Me

abbrev pub me_of : Reply User → Result Me
me_of r =
    if r.status == 401 then ok nobody else with_envelope normalize_error (λ u. ok (somebody u)) r

unfoldable pub use_me : Query User Me
use_me = record {
  key = auth_me;
  enabled = true;
  call = record { method = get; path = "/api/v1/auth/me"; path_params = []; query = []; body = [] };
  select = me_of;
}

-- `(data.data as Token).user`
abbrev pub user_of : Option Token → Result (Option User)
user_of none = type_error
user_of (some token) = ok token.user

pub record LoginRequest : Type 0 where
  pub email : String
  pub password : Text

abbrev pub post_auth : String → List (String × postal.Query.Field) → ApiCall
post_auth path body = record {
  method = post;
  path = path;
  path_params = [];
  query = [];
  body = body;
}

-- `setQueryData` ignores `undefined`.
abbrev pub set_me : Option User → List Effect
set_me none = []
set_me (some u) = set_data auth_me (user (some u)) ∷ []

unfoldable pub use_login : Mutation LoginRequest Token (Option User)
use_login = record {
  call = λ b.
      post_auth "/api/v1/auth/login" (("email", str b.email) ∷ ("password", txt b.password) ∷ []);
  select = with_envelope normalize_error user_of;
  on_success = λ u _. set_me u;
}

unfoldable pub use_signup : Mutation LoginRequest User (Option User)
use_signup = record {
  call = λ b.
      post_auth "/api/v1/auth/signup" (("email", str b.email) ∷ ("password", txt b.password) ∷ []);
  select = with_envelope normalize_error ok;
  on_success = λ _ _. [];
}

unfoldable pub use_resend_verification : Mutation String (Unit {0}) (Unit {0})
use_resend_verification = record {
  call = λ email. post_auth "/api/v1/auth/verify-email/resend" (("email", str email) ∷ []);
  select = when_ok normalize_error;
  on_success = λ _ _. [];
}

unfoldable pub use_request_reset : Mutation String (Unit {0}) (Unit {0})
use_request_reset = record {
  call = λ email. post_auth "/api/v1/auth/password-reset/request" (("email", str email) ∷ []);
  select = when_ok normalize_error;
  on_success = λ _ _. [];
}

pub record ConfirmReset : Type 0 where
  pub token : Text
  pub new_password : Text

unfoldable pub use_confirm_reset : Mutation ConfirmReset (Unit {0}) (Unit {0})
use_confirm_reset = record {
  call = λ b.
      post_auth "/api/v1/auth/password-reset/confirm"
        (("token", txt b.token) ∷ ("new_password", txt b.new_password) ∷ []);
  select = when_ok normalize_error;
  on_success = λ _ _. [];
}

-- `saveSession(token.access_token, token.refresh_token)`, before the user is read
unfoldable pub login_session : Token → Session → Session
unfolding save_session
login_session token s = save_session token.access_token token.refresh_token s

-- The status of the answer is not looked at. `clearSession` is in the client's `logout`.
unfoldable pub use_logout : Mutation (Unit {0}) (Unit {0}) (Unit {0})
use_logout = record {
  call = λ _. post_auth "/api/v1/auth/logout" [];
  select = λ r. ok tt;
  on_success = λ _ _. set_data auth_me (user none) ∷ remove_all ∷ [];
}
