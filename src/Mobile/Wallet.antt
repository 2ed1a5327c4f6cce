-- ===== src/Mobile/Wallet.antt =====
-- mobile/src/app/(tabs)/more/wallet.tsx
use postal.Prelude.{
  ℕ, ◌/◌, ◌%◌, String, Option, none, some, List, [], ◌∷◌, ◌==◌, if◌then◌else◌, lookup,
}
use postal.Schema.{Wallet, LedgerKind, topup, publish_charge, refund, adjustment}

unfoldable pub kind_label : LedgerKind → String
kind_label topup = "Top-up"
kind_label publish_charge = "X publish"
kind_label refund = "Refund"
kind_label adjustment = "Adjustment"

-- `Boolean(t.value)`: a price that is missing or 0 is left out.
abbrev pub tier : String → Option ℕ → List (String × ℕ) → List (String × ℕ)
tier label none rest = rest
tier label (some value) rest = if value == 0 then rest else (label, value) ∷ rest

abbrev pub costs_of : Option Wallet → List (String × ℕ)
costs_of none = []
costs_of (some w) = w.publish_costs

unfoldable pub tiers : Option Wallet → List (String × ℕ)
tiers wallet =
    let costs = costs_of wallet in
    tier "Plain X post" (lookup "twitter" costs) (
      tier "With media" (lookup "twitter_media" costs)
        (tier "With a link" (lookup "twitter_url" costs) []))

-- `(wallet.balance / 100).toFixed(2)`: the dollars and the cents
unfoldable pub publishing_power : Wallet → ℕ × ℕ
publishing_power w = (w.balance / 100, w.balance % 100)
