-- ===== src/Web/Data/Integrations.antt =====
-- web/src/data/integrations.ts
use postal.Prelude.{Option, none, some, List, [], ◌∷◌, Bool, false, String, Text, value_or}
use postal.Schema.{Integration}
use postal.Query.{
  Key, text, in_workspace, get, post, put, Field, str, txt, bool, null, ok, is_given, or_empty,
  workspace_call, with_envelope, with_data, invalidate, Query, Mutation,
}
use postal.Web.ApiError.{normalize_error}

abbrev pub integration_list : String → Key
integration_list ws = in_workspace ws (text "integrations" ∷ [])

unfoldable pub use_integrations : Option String → Query (List Integration) (List Integration)
use_integrations ws = record {
  key = integration_list (value_or ws "");
  enabled = is_given ws;
  call =
      workspace_call get "/api/v1/workspaces/{workspaceID}/integrations/" (value_or ws "") [] [] [];
  select = with_envelope normalize_error or_empty;
}

-- `provider` is always "ogshortener".
pub record ConfigureIntegrationInput : Type 0 where
  pub enabled : Bool
  pub auto_apply : Option Bool
  pub api_key : Option String

-- `apiKey ?? null`
abbrev pub or_null : Option String → Field
or_null none = null
or_null (some s) = str s

unfoldable pub use_configure_integration :
    String → Mutation ConfigureIntegrationInput Integration Integration
use_configure_integration ws = record {
  call = λ i.
      workspace_call put "/api/v1/workspaces/{workspaceID}/integrations/{provider}" ws
        (("provider", "ogshortener") ∷ []) []
        (("enabled", bool i.enabled)
          ∷ ("auto_apply", bool (value_or i.auto_apply false))
          ∷ ("api_key", or_null i.api_key)
          ∷ []);
  select = with_data normalize_error ok;
  on_success = λ _ _. invalidate (integration_list ws) ∷ [];
}

unfoldable pub use_shorten_links : String → Mutation Text (Option Text) Text
use_shorten_links ws = record {
  call = λ t.
      workspace_call post "/api/v1/workspaces/{workspaceID}/integrations/ogshortener/shorten" ws []
        [] (("text", txt t) ∷ []);
  select = with_data normalize_error (λ t. ok (value_or t []));
  on_success = λ _ _. [];
}
