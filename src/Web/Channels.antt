-- ===== src/Web/Channels.antt =====
-- web/src/features/channels: the button that starts a connection (connect-channel-button.tsx), the page
-- that finishes it (oauth-callback-client.tsx) and the form for Telegram
-- (manual-connect-channel.tsx).
pub mod Callback
use postal.Prelude.{
  String, Text, Option, none, some, List, [], ◌∷◌, Bool, true, false, not, ◌||◌, trim, is_empty,
}
use postal.Query.{Result, awaited}

-- `pending` is the mutation's `isPending`.
pub record Button : Type 0 where
  pub error : Option String
  pub pending : Bool

-- `onClick` up to its await.
unfoldable pub on_click : Button → Button
on_click b = record b { error = none; pending = true }

-- `onClick` behind its await, with the URL that the page goes to.
unfoldable pub clicked : String → Result Text → Button → Button × Option Text
clicked unknown r b =
    awaited unknown r (λ url. (record b { pending = false }, some url))
      (λ message. (record b { error = some message; pending = false }, none))

pub record Form : Type 0 where
  pub is_open : Bool
  pub bot_token : Text
  pub chat_id : Text
  pub error : Option String
  pub pending : Bool

unfoldable pub set_open : Bool → Form → Form
set_open is_open f = record f { is_open = is_open }

unfoldable pub set_bot_token : Text → Form → Form
set_bot_token t f = record f { bot_token = t }

unfoldable pub set_chat_id : Text → Form → Form
set_chat_id t f = record f { chat_id = t }

-- `onSubmit` up to its await, with what is sent.
unfoldable pub on_submit : Form → Form × (String × List (String × Text))
on_submit f = (
  record f { error = none; pending = true },
  ("telegram", ("bot_token", trim f.bot_token) ∷ ("chat_id", trim f.chat_id) ∷ []),
)

-- `onSubmit` behind its await.
unfoldable pub submitted : String → Result (Unit {0}) → Form → Form
submitted unknown r f =
    awaited unknown r
      (λ _. record f { is_open = false; bot_token = []; chat_id = []; pending = false })
      (λ message. record f { error = some message; pending = false })

unfoldable pub can_submit : Form → Bool
can_submit f = not (f.pending || (is_empty f.bot_token || is_empty f.chat_id))
