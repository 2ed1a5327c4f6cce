-- ===== src/Web/Wallet.antt =====
-- web/src/features/wallet/wallet-screen.tsx: buying credits. An amount is kept in hundredths of its
-- currency, as it is typed with at most two decimals; a text that is no number is 0, as
-- `Number.parseFloat(amount) || 0` has it. A double holds such an amount closely enough (up to a
-- billion) that `Math.round` gives the integer below.
pub mod Bounds
use postal.Prelude.{
  ℕ, ◌+◌, ◌*◌, ◌/◌, ◌%◌, String, Text, Option, none, some, List, [], ◌∷◌, Bool, true, false, not,
  ◌||◌, ltb, ◌==◌, if◌then◌else◌, lookup, value_or, is_some,
}
use postal.Schema.{Wallet, LedgerKind, LedgerEntry, topup, publish_charge, refund, adjustment}
use postal.Query.{Result, awaited}
use postal.Web.Data.Billing.{TopupProvider, stripe, paystack, dev}

abbrev pub credits_per_usd : ℕ
credits_per_usd = 100

abbrev pub ngn_per_usd : ℕ
ngn_per_usd = 1500

abbrev pub ngn_per_credit : ℕ
ngn_per_credit = ngn_per_usd / credits_per_usd

-- `Math.round` of a fraction
abbrev pub round : ℕ → ℕ → ℕ
round n d = (2 * n + d) / (2 * d)

pub data Code : Type 0 where
  usd ngn : Code

-- `min` and the presets are in whole units, the amount in hundredths.
pub record Currency : Type 0 where
  pub code : Code
  pub min : ℕ
  pub step : ℕ
  pub presets : List ℕ
  pub to_credits : ℕ → ℕ

abbrev pub dollars : Currency
dollars = record {
  code = usd;
  min = 1;
  step = 1;
  presets = 5 ∷ 10 ∷ 25 ∷ 50 ∷ [];
  to_credits = λ a. round (a * credits_per_usd) 100;
}

abbrev pub naira : Currency
naira = record {
  code = ngn;
  min = ngn_per_usd;
  step = 500;
  presets = 1500 ∷ 5000 ∷ 10000 ∷ 25000 ∷ [];
  to_credits = λ a. round a (100 * ngn_per_credit);
}

unfoldable pub currency : TopupProvider → Currency
currency stripe = dollars
currency paystack = naira
currency dev = dollars

-- `(credits / CREDITS_PER_USD).toFixed(2)`: the dollars and the cents
unfoldable pub credits_to_usd : ℕ → ℕ × ℕ
credits_to_usd credits = (credits / credits_per_usd, credits % credits_per_usd)

pub data Tone : Type 0 where
  success muted : Tone

pub record EntryStyle : Type 0 where
  pub tone : Tone
  pub label : String

unfoldable pub entry_style : LedgerKind → EntryStyle
entry_style topup = record { tone = success; label = "Top-up" }
entry_style publish_charge = record { tone = muted; label = "X publish" }
entry_style refund = record { tone = success; label = "Refund" }
entry_style adjustment = record { tone = muted; label = "Adjustment" }

-- What the form shows: nothing, the minimum of a currency, or a message.
pub data TopupError : Type 0 where
  minimum : Code → ℕ → TopupError
  message : String → TopupError

-- `pending` is the mutation's `isPending`.
pub record Screen : Type 0 where
  pub provider : TopupProvider
  pub amount : ℕ
  pub error : Option TopupError
  pub pending : Bool

unfoldable pub mounted : Screen
mounted = record { provider = stripe; amount = 500; error = none; pending = false }

unfoldable pub credits : Screen → ℕ
unfolding currency
credits s = (currency s.provider).to_credits s.amount

abbrev pub is_below : Currency → ℕ → Bool
is_below c amount = ltb amount (100 * c.min)

unfoldable pub below_min : Screen → Bool
unfolding currency
below_min s = is_below (currency s.provider) s.amount

unfoldable pub switch_provider : TopupProvider → Screen → Screen
unfolding currency
switch_provider next s = record s {
  provider = next;
  amount = 100 * (currency next).min;
  error = none;
}

-- A click on one of the currency's presets, and typing.
unfoldable pub set_amount : ℕ → Screen → Screen
set_amount amount s = record s { amount = amount }

-- `startTopup` up to its await, with what is sent.
unfoldable pub start_topup : TopupProvider → Screen → Screen × Option (TopupProvider × ℕ)
unfolding currency
start_topup chosen s =
    let c = currency chosen in
    if is_below c s.amount
    then (record s { error = some (minimum c.code c.min) }, none)
    else (record s { error = none; pending = true }, some (chosen, c.to_credits s.amount))

-- `startTopup` behind its await, with the URL that the page goes to.
unfoldable pub answered : String → Result Text → Screen → Screen × Option Text
answered unknown r s =
    awaited unknown r (λ url. (record s { pending = false }, some url))
      (λ m. (record s { pending = false; error = some (message m) }, none))

unfoldable pub can_buy : Screen → Bool
unfolding below_min
can_buy s = not (s.pending || below_min s)

-- `Boolean(t.value)`: a price that is missing or 0 is left out.
abbrev pub tier : String → Option ℕ → List (String × ℕ) → List (String × ℕ)
tier label none rest = rest
tier label (some value) rest = if value == 0 then rest else (label, value) ∷ rest

unfoldable pub tiers : List (String × ℕ) → List (String × ℕ)
tiers costs = tier "Plain X post" (lookup "twitter" costs) (
    tier "With media" (lookup "twitter_media" costs)
      (tier "With a link" (lookup "twitter_url" costs) []))
