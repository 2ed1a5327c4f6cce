-- ===== src/Mobile/Client/Logout.antt =====
-- Logging out of the mobile client: `useLogout` of mobile/src/data/auth.ts with `clearSession` of
-- mobile/src/lib/secure-session.ts.
use postal.Prelude.{Text, ◌≡◌, ◌⊎◌, Option, none, some, Bool, true, false}
use postal.Mobile.Session.{Session, read_only, get_refresh_token}
use postal.Mobile.Client.{Client}

-- The session is over in memory, and in the keystore where that can be written; or nothing changed.
abbrev pub LeavesSession : Session → Bool × Session → Type 0
LeavesSession s (true, t) =
    (t.access_token ≡ none)
    × ((get_refresh_token t ≡ none) ⊎ ((o : Option Text) × (s.keystore ≡ read_only o)))
LeavesSession s (false, t) = t ≡ s

-- What a refresh leaves of a session without an access token.
abbrev pub Resumes : {World : Type 0} → Client World → Bool × Client World → Type 0
Resumes d (true, e) = (token : Text) × (e.session.access_token ≡ some token)
Resumes d (false, e) = e ≡ d
