-- ===== src/Web/Data/Billing.antt =====
-- web/src/data/billing.ts
use postal.Prelude.{Option, none, some, List, [], ◌∷◌, String, Text, ℕ, value_or}
use postal.Schema.{Wallet, LedgerEntry}
use postal.Query.{
  Key, text, in_workspace, get, post, str, num, Reply, Result, ok, thrown, is_given, or_empty,
  workspace_call, with_envelope, with_data, invalidate, Query, Mutation,
}
use postal.Web.ApiError.{normalize_error}

abbrev pub wallet_key : String → Key
wallet_key ws = in_workspace ws (text "billing" ∷ text "wallet" ∷ [])

abbrev pub ledger_key : String → Key
ledger_key ws = in_workspace ws (text "billing" ∷ text "ledger" ∷ [])

unfoldable pub use_wallet : Option String → Query Wallet Wallet
use_wallet ws = record {
  key = wallet_key (value_or ws "");
  enabled = is_given ws;
  call =
      workspace_call get "/api/v1/workspaces/{workspaceID}/billing/wallet" (value_or ws "") [] []
        [];
  select = with_data normalize_error ok;
}

unfoldable pub use_ledger : Option String → Query (List LedgerEntry) (List LedgerEntry)
use_ledger ws = record {
  key = ledger_key (value_or ws "");
  enabled = is_given ws;
  call =
      workspace_call get "/api/v1/workspaces/{workspaceID}/billing/ledger" (value_or ws "") [] []
        [];
  select = with_envelope normalize_error or_empty;
}

pub data TopupProvider : Type 0 where
  stripe paystack dev : TopupProvider

abbrev pub provider_name : TopupProvider → String
provider_name stripe = "stripe"
provider_name paystack = "paystack"
provider_name dev = "dev"

-- `!data?.data?.checkout_url`: a missing or empty URL is refused.
abbrev pub checkout_of : Reply (Option Text) → Option Text → Result Text
checkout_of r none = thrown (normalize_error r.status r.error)
checkout_of r (some []) = thrown (normalize_error r.status r.error)
checkout_of r (some (c ∷ url)) = ok (c ∷ url)

abbrev pub with_checkout : Reply (Option Text) → Result Text
with_checkout r = with_data normalize_error (checkout_of r) r

unfoldable pub use_topup : String → Mutation (TopupProvider × ℕ) (Option Text) Text
use_topup ws = record {
  call = λ i.
      workspace_call post "/api/v1/workspaces/{workspaceID}/billing/topup" ws [] []
        (("provider", str (provider_name i.0)) ∷ ("credits", num i.1) ∷ []);
  select = with_checkout;
  on_success = λ _ _. invalidate (wallet_key ws) ∷ invalidate (ledger_key ws) ∷ [];
}
