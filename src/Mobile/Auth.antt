-- ===== src/Mobile/Auth.antt =====
-- mobile/src/app/(auth)/login.tsx, signup.tsx and reset.tsx, with mobile/src/lib/schemas.ts and
-- mobile/src/features/auth/resend-verification.tsx. zod's test for an e-mail address is an argument.
use postal.Prelude.{
  ℕ, ◌-◌, String, Text, Option, none, some, List, [], ◌∷◌, ◌++◌, Bool, true, false, not, ◌||◌, leb,
  ltb, length, str_eq, if◌then◌else◌, head?, merge,
}
use postal.Query.{Result, ok, thrown, type_error, awaited}

-- The issues of a value, with the field and the message.
abbrev pub issue : Bool → String → String → List (String × String)
issue passes field message = if passes then [] else (field, message) ∷ []

module _ (is_email : String → Bool) where
  unfoldable pub login_schema : String → Text → List (String × String)
  login_schema email password =
      issue (is_email email) "email" "Enter a valid email address"
      ++ issue (leb 1 (length password)) "password" "Password is required"

  unfoldable pub signup_schema : String → Text → List (String × String)
  signup_schema email password =
      issue (is_email email) "email" "Enter a valid email address"
      ++ issue (leb 8 (length password)) "password" "Use at least 8 characters"

  unfoldable pub request_reset_schema : String → List (String × String)
  request_reset_schema email = issue (is_email email) "email" "Enter a valid email address"

-- What a screen shows, and where it goes.
pub record Screen : Type 0 where
  pub email : String
  pub password : Text
  pub errors : List (String × String)
  pub form_error : Option String
  pub waiting_email : Option String  -- `unverifiedEmail`, and `sentEmail`
  pub to_start : Bool

unfoldable pub mounted : Screen
mounted = record {
  email = "";
  password = [];
  errors = [];
  form_error = none;
  waiting_email = none;
  to_start = false;
}

-- `for (const issue of parsed.error.issues) fe[issue.path[0]] = issue.message;`, and whether the request
-- is sent.
abbrev pub checked : List (String × String) → Screen → Screen × Bool
checked [] s = (record s { form_error = none; errors = [] }, true)
checked (i ∷ is) s = (record s { form_error = none; errors = merge [] (i ∷ is) }, false)

unfoldable pub submit_login : (String → Bool) → Screen → Screen × Bool
unfolding login_schema
submit_login is_email s = checked (login_schema is_email s.email s.password) s

unfoldable pub submit_signup : (String → Bool) → Screen → Screen × Bool
unfolding signup_schema
submit_signup is_email s = checked (signup_schema is_email s.email s.password) s

-- `submit` of the login screen behind its await; `unknown` is the message of a `TypeError`, whose `code`
-- is undefined.
unfoldable pub logged_in {ℓ} : {A : Type ℓ} → String → Result A → Screen → Screen
logged_in unknown (ok user) s = record s { to_start = true }
logged_in unknown (thrown (err, _)) s =
    if str_eq err.code "email_not_verified"
    then record s { waiting_email = some s.email }
    else record s { form_error = some err.message }
logged_in unknown type_error s = record s { form_error = some unknown }

-- "Back to sign in"
unfoldable pub back : Screen → Screen
back s = record s { waiting_email = none }

-- `submit` of the signup screen behind its await.
unfoldable pub signed_up {ℓ} : {A : Type ℓ} → String → Result A → Screen → Screen
signed_up unknown r s =
    awaited unknown r (λ _. record s { waiting_email = some s.email })
      (λ m. record s { form_error = some m })

pub record Reset : Type 0 where
  pub email : String
  pub error : Option String
  pub done : Bool

abbrev pub message_of : Option (String × String) → Option String
message_of none = none
message_of (some (field, m)) = some m

abbrev pub asked : List (String × String) → Reset → Reset × Bool
asked [] r = (record r { error = none }, true)
asked (i ∷ is) r = (record r { error = message_of (head? (i ∷ is)) }, false)

unfoldable pub submit_reset : (String → Bool) → Reset → Reset × Bool
unfolding request_reset_schema
submit_reset is_email r = asked (request_reset_schema is_email r.email) r

unfoldable pub reset_answered {ℓ} : {A : Type ℓ} → String → Result A → Reset → Reset
reset_answered unknown a r =
    awaited unknown a (λ _. record r { done = true }) (λ m. record r { error = some m })

-- The button that sends the verification e-mail again; `pending` is the mutation's `isPending`.
pub record Resend : Type 0 where
  pub seconds_left : ℕ
  pub sent : Bool
  pub error : Option String
  pub pending : Bool

-- A second goes by: the effect has a timer while seconds are left.
unfoldable pub tick : Resend → Resend
tick r = if ltb 0 r.seconds_left then record r { seconds_left = r.seconds_left - 1 } else r

unfoldable pub on_press : Resend → Resend
on_press r = record r { error = none; pending = true }

-- `onPress` behind its await; `finally` starts the cooldown.
unfoldable pub resent : String → Result (Unit {0}) → Resend → Resend
resent unknown a r =
    awaited unknown a (λ _. record r { sent = true; pending = false; seconds_left = 60 })
      (λ m. record r { error = some m; pending = false; seconds_left = 60 })

unfoldable pub can_press : Resend → Bool
can_press r = not (ltb 0 r.seconds_left || r.pending)
