-- ===== src/Mobile/Session.antt =====
-- mobile/src/lib/secure-session.ts: the access token in memory, the refresh token in the keystore.
use postal.Prelude.{Text, Option, none, some, [], ◌∷◌}

-- The secure store: every call throws, writes throw, or it works, with a refresh token or none.
pub data Keystore : Type 0 where
  unavailable : Keystore
  read_only holds : Option Text → Keystore

pub record Session : Type 0 where
  pub access_token : Option Text
  pub keystore : Keystore

-- An empty string is falsy.
abbrev pub truthy : Option Text → Option Text
truthy none = none
truthy (some []) = none
truthy (some (c ∷ s)) = some (c ∷ s)

unfoldable pub set_access_token : Option Text → Session → Session
set_access_token token s = record s { access_token = token }

abbrev pub stored : Keystore → Option Text
stored unavailable = none
stored (read_only token) = token
stored (holds token) = token

unfoldable pub get_refresh_token : Session → Option Text
get_refresh_token s = stored s.keystore

-- `setItemAsync` for a token, `deleteItemAsync` for `null` or the empty text
abbrev pub write : Option Text → Keystore → Keystore
write token unavailable = unavailable
write token (read_only old) = read_only old
write token (holds _) = holds (truthy token)

unfoldable pub set_refresh_token : Option Text → Session → Session
set_refresh_token token s = record s { keystore = write token s.keystore }

abbrev pub keep_refresh : Option Text → Session → Session
keep_refresh none s = s
keep_refresh (some token) s = set_refresh_token (some token) s

unfoldable pub save_session : Text → Option Text → Session → Session
unfolding set_access_token set_refresh_token
save_session access refresh s = keep_refresh (truthy refresh) (set_access_token (some access) s)

unfoldable pub clear_session : Session → Session
unfolding set_access_token set_refresh_token
clear_session s = set_refresh_token none (set_access_token none s)
