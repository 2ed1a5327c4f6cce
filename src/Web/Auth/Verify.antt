-- ===== src/Web/Auth/Verify.antt =====
-- web/src/features/auth/verify-email-client.tsx
use postal.Prelude.{
  String, Text, List, [], ◌∷◌, ◌++◌, Bool, true, false, ◌||◌, is_empty, if◌then◌else◌,
}
use postal.Query.{Result, awaited}

pub data Status : Type 0 where
  verifying success error : Status

-- `sent` lists the tokens that were sent.
pub record Page : Type 0 where
  pub token : Text
  pub status : Status
  pub message : String
  pub ran : Bool
  pub sent : List Text

unfoldable pub mounted : Text → Page
mounted token = record {
  token = token;
  status = if is_empty token then error else verifying;
  message = if is_empty token then "This link is missing its token." else "";
  ran = false;
  sent = [];
}

-- One run of the effect.
unfoldable pub effect : Page → Page
effect p =
    if is_empty p.token || p.ran then p else record p { ran = true; sent = p.sent ++ p.token ∷ [] }

unfoldable pub answered : String → Result (Unit {0}) → Page → Page
answered unknown r p =
    awaited unknown r (λ _. record p { status = success })
      (λ m. record p { status = error; message = m })
