-- ===== src/Web/Auth/Forms.antt =====
-- web/src/features/auth: schemas.ts and the four forms. React Hook Form calls a form's handler with
-- values that its schema accepts; zod's test for an e-mail address is an argument.
pub mod Silent
use postal.Prelude.{
  ℕ, String, Text, Option, none, some, List, [], ◌∷◌, ◌++◌, Bool, true, false, not, leb, length,
  str_eq, if◌then◌else◌,
}
use postal.ApiError.{NormalizedError}
use postal.Query.{Result, ok, thrown, type_error}
use postal.Web.ApiError.{apply_server_errors}

-- The issues of a value, with the field and the message.
abbrev pub issue : Bool → String → String → List (String × String)
issue passes field message = if passes then [] else (field, message) ∷ []

module _ (is_email : String → Bool) where
  unfoldable pub login_schema : String → Text → List (String × String)
  login_schema email password =
      issue (is_email email) "email" "Enter a valid email address"
      ++ issue (leb 1 (length password)) "password" "Password is required"

  unfoldable pub signup_schema : String → Text → List (String × String)
  signup_schema email password =
      issue (is_email email) "email" "Enter a valid email address"
      ++ issue (leb 8 (length password)) "password" "Use at least 8 characters"

  unfoldable pub request_reset_schema : String → List (String × String)
  request_reset_schema email = issue (is_email email) "email" "Enter a valid email address"

unfoldable pub confirm_reset_schema : Text → List (String × String)
confirm_reset_schema password =
    issue (leb 8 (length password)) "new_password" "Use at least 8 characters"

-- What the promise of a mutation settles to: what the hook makes of a reply, or, where `fetch` rejects,
-- an error of the language with its message.
pub data Settled {ℓ} (A : Type ℓ) : Type ℓ where
  replied : Result A → Settled A
  unreachable : String → Settled A

-- What a form shows, and where the page goes. `rejected` is an error that the handler itself throws.
pub record Form : Type 0 where
  pub form_error : Option String
  pub field_errors : List (String × String)
  pub unverified_email : Option String
  pub done : Option String
  pub to_start : Bool
  pub rejected : Bool

unfoldable pub mounted : Form
mounted = record {
  form_error = none;
  field_errors = [];
  unverified_email = none;
  done = none;
  to_start = false;
  rejected = false;
}

-- `setFormError(null)`, with the errors of the fields cleared by React Hook Form before the call.
abbrev pub clear : Form → Form
clear f = record f { form_error = none; field_errors = [] }

-- `if (!applyServerErrors(err, setError)) setFormError(err.message)`
abbrev pub or_form_error : NormalizedError → List (String × String) × Bool → Form → Form
or_form_error err (fields, applied) f =
    if applied
    then record f { field_errors = fields }
    else record f { field_errors = fields; form_error = some err.message }

abbrev pub show_errors : NormalizedError → Form → Form
show_errors err f = or_form_error err (apply_server_errors err f.field_errors) f

-- The handler of the login form. An error of the language has no `fieldErrors`: `Object.entries` throws
-- again.
abbrev pub logged_in {ℓ} : {A : Type ℓ} → String → Settled A → Form → Form
logged_in email (replied (ok user)) f = record f { to_start = true }
logged_in email (replied (thrown (err, _))) f =
    if str_eq err.code "email_not_verified"
    then record f { unverified_email = some email }
    else show_errors err f
logged_in email (replied type_error) f = record f { rejected = true }
logged_in email (unreachable message) f = record f { rejected = true }

unfoldable pub login {ℓ} : {A : Type ℓ} → String → Settled A → Form → Form
unfolding apply_server_errors
login email r f = logged_in email r (clear f)

-- "Back to sign in"
unfoldable pub back : Form → Form
back f = record f { unverified_email = none }

abbrev pub or_errors {ℓ} : {A : Type ℓ} → (A → Form → Form) → Settled A → Form → Form
or_errors accepted (replied (ok a)) f = accepted a f
or_errors accepted (replied (thrown (err, _))) f = show_errors err f
or_errors accepted (replied type_error) f = record f { rejected = true }
or_errors accepted (unreachable message) f = record f { rejected = true }

unfoldable pub signup {ℓ} : {A : Type ℓ} → String → Settled A → Form → Form
unfolding apply_server_errors
signup email r f = or_errors (λ _ g. record g { done = some email }) r (clear f)

-- The handler of the form behind a reset link.
unfoldable pub confirm_reset {ℓ} : {A : Type ℓ} → Settled A → Form → Form
unfolding apply_server_errors
confirm_reset r f = or_errors (λ _ g. record g { done = some "" }) r (clear f)

-- The handler of the form that asks for a reset; `unknown` is the message of a `TypeError`.
abbrev pub asked {ℓ} : {A : Type ℓ} → String → Settled A → Form → Form
asked unknown (replied (ok a)) f = record f { done = some "" }
asked unknown (replied (thrown (err, _))) f = record f { form_error = some err.message }
asked unknown (replied type_error) f = record f { form_error = some unknown }
asked unknown (unreachable message) f = record f { form_error = some message }

unfoldable pub request_reset {ℓ} : {A : Type ℓ} → String → Settled A → Form → Form
request_reset unknown r f = asked unknown r (clear f)
