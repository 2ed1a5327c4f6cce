-- ===== src/Mobile/Data/Billing.antt =====
-- mobile/src/data/billing.ts
use postal.Prelude.{Option, List, [], ◌∷◌, String, value_or}
use postal.Schema.{Wallet, LedgerEntry}
use postal.Query.{
  Key, text, in_workspace, get, ok, is_given, or_empty, workspace_call, with_envelope, with_data,
  Query,
}
use postal.Mobile.ApiError.{normalize_error}

abbrev pub wallet_key : String → Key
wallet_key ws = in_workspace ws (text "billing" ∷ text "wallet" ∷ [])

abbrev pub ledger_key : String → Key
ledger_key ws = in_workspace ws (text "billing" ∷ text "ledger" ∷ [])

unfoldable pub use_wallet : Option String → Query Wallet Wallet
use_wallet ws = record {
  key = wallet_key (value_or ws "");
  enabled = is_given ws;
  call =
      workspace_call get "/api/v1/workspaces/{workspaceID}/billing/wallet" (value_or ws "") [] []
        [];
  select = with_data normalize_error ok;
}

unfoldable pub use_ledger : Option String → Query (List LedgerEntry) (List LedgerEntry)
use_ledger ws = record {
  key = ledger_key (value_or ws "");
  enabled = is_given ws;
  call =
      workspace_call get "/api/v1/workspaces/{workspaceID}/billing/ledger" (value_or ws "") [] []
        [];
  select = with_envelope normalize_error or_empty;
}
