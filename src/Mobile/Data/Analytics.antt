-- ===== src/Mobile/Data/Analytics.antt =====
-- mobile/src/data/analytics.ts
use postal.Prelude.{Option, List, [], ◌∷◌, ◌&&◌, String, value_or}
use postal.Schema.{PostMetrics, ChannelMetrics}
use postal.Query.{
  Key, text, in_workspace, get, is_given, or_empty, workspace_call, with_data, Query,
}
use postal.Mobile.ApiError.{normalize_error}

abbrev pub overview_key : String → Key
overview_key ws = in_workspace ws (text "analytics" ∷ [])

abbrev pub post_metrics_key : String → String → Key
post_metrics_key ws id = in_workspace ws (text "analytics" ∷ text id ∷ [])

unfoldable pub use_analytics_overview :
    Option String → Query (Option (List PostMetrics)) (List PostMetrics)
use_analytics_overview ws = record {
  key = overview_key (value_or ws "");
  enabled = is_given ws;
  call = workspace_call get "/api/v1/workspaces/{workspaceID}/analytics/" (value_or ws "") [] [] [];
  select = with_data normalize_error or_empty;
}

unfoldable pub use_post_analytics :
    Option String → Option String → Query (Option (List ChannelMetrics)) (List ChannelMetrics)
use_post_analytics ws id = record {
  key = post_metrics_key (value_or ws "") (value_or id "");
  enabled = is_given ws && is_given id;
  call =
      workspace_call get "/api/v1/workspaces/{workspaceID}/analytics/posts/{postID}"
        (value_or ws "") (("postID", value_or id "") ∷ []) [] [];
  select = with_data normalize_error or_empty;
}
