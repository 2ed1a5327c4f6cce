-- ===== src/Web/Integrations.antt =====
-- web/src/features/integrations/integrations-screen.tsx
use postal.Prelude.{
  ℕ, String, Option, none, some, List, Bool, true, false, not, ◌&&◌, ◌||◌, find, str_eq, is_some,
  length, [], value_or, if◌then◌else◌,
}
use postal.Schema.{Integration, Channel}
use postal.Query.{Result, awaited}
use postal.Web.Data.Integrations.{ConfigureIntegrationInput}

-- `pending` is the mutation's `isPending`.
pub record Card : Type 0 where
  pub api_key : String
  pub error : Option String
  pub saved : Bool
  pub pending : Bool

unfoldable pub mounted : Card
mounted = record { api_key = ""; error = none; saved = false; pending = false }

-- `integrations?.find((i) => i.provider === "ogshortener")`
unfoldable pub og : Option (List Integration) → Option Integration
og integrations = find (λ i. str_eq i.provider "ogshortener") (value_or integrations [])

abbrev pub is_enabled : Option Integration → Bool
is_enabled none = false
is_enabled (some i) = i.enabled

abbrev pub is_configured : Option Integration → Bool
is_configured none = false
is_configured (some i) = i.configured

pub data Pill : Type 0 where
  enabled configured not_connected : Pill

unfoldable pub pill : Option Integration → Pill
pill i = if is_enabled i then enabled else if is_configured i then configured else not_connected

-- `apiKey || undefined`
abbrev pub key_or_none : String → Option String
key_or_none key = if str_eq key "" then none else some key

-- `save` up to its await, with what is sent.
unfoldable pub save : Bool → Card → Card × ConfigureIntegrationInput
save on c = (
  record c { error = none; saved = false; pending = true },
  record { enabled = on; auto_apply = none; api_key = key_or_none c.api_key },
)

-- `save` behind its await.
unfoldable pub answered : String → Result Integration → Card → Card
answered unknown r c =
    awaited unknown r (λ _. record c { api_key = ""; saved = true; pending = false })
      (λ message. record c { error = some message; pending = false })

unfoldable pub set_api_key : String → Card → Card
set_api_key key c = record c { api_key = key }

-- The buttons that can be clicked.
unfoldable pub can_disable : Option Integration → Card → Bool
can_disable i c = is_enabled i && not c.pending

unfoldable pub can_update_key : Option Integration → Card → Bool
can_update_key i c = is_enabled i && (not (str_eq c.api_key "") && not c.pending)

unfoldable pub can_enable : Option Integration → Card → Bool
can_enable i c =
    not (is_enabled i) && not (c.pending || (str_eq c.api_key "" && not (is_configured i)))

unfoldable pub shows_saved : Card → Bool
shows_saved c = c.saved && not (is_some c.error)

abbrev pub count_of : Option (List Channel) → ℕ
count_of none = 0
count_of (some cs) = length cs

-- `channels?.length ?? 0`
unfoldable pub count : Option (List Channel) → ℕ
count channels = count_of channels
