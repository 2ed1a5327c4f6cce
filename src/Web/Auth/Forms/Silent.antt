-- ===== src/Web/Auth/Forms/Silent.antt =====
-- What the forms show of a refusal.
use postal.Prelude.{Option, Bool, true, false, is_some, ◌||◌, ltb, length}
use postal.Schema.{User}
use postal.Query.{ok, thrown, type_error}
use postal.Web.Auth.Forms.{Settled, replied, unreachable, Form}

-- Something tells the user that the login failed: a message, the errors of fields, or the advice to verify
-- the e-mail address.
abbrev pub speaks : Form → Bool
speaks f = is_some f.form_error || (ltb 0 (length f.field_errors) || is_some f.unverified_email)

-- How a login ends: whether the user is told why it failed, and whether the page goes to the start.
abbrev pub ends : Settled (Option User) → Bool × Bool
ends (replied (ok u)) = (false, true)
ends (replied (thrown e)) = (true, false)
ends (replied type_error) = (false, false)
ends (unreachable message) = (false, false)
