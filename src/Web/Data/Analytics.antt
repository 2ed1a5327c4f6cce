-- ===== src/Web/Data/Analytics.antt =====
-- web/src/data/analytics.ts
use postal.Prelude.{Option, some, List, [], ◌∷◌, ◌&&◌, String, Text, ◌++◌, value_or}
use postal.Prelude.{codes}
use postal.Schema.{PostMetrics, ChannelMetrics, SeriesPoint}
use postal.Query.{
  Key, text, window, in_workspace, get, str, is_given, or_empty, opt_str, workspace_call, with_data,
  Query,
}
use postal.Web.ApiError.{normalize_error}

abbrev pub overview_key : String → Key
overview_key ws = in_workspace ws (text "analytics" ∷ [])

abbrev pub post_metrics_key : String → String → Key
post_metrics_key ws id = in_workspace ws (text "analytics" ∷ text id ∷ [])

abbrev pub series_key : String → String → String → String → Option String → Option String → Key
series_key ws id channel metric from to =
    in_workspace ws (text "analytics" ∷ text id ∷ text channel ∷ text metric ∷ window from to ∷ [])

unfoldable pub use_analytics_overview :
    Option String → Query (Option (List PostMetrics)) (List PostMetrics)
use_analytics_overview ws = record {
  key = overview_key (value_or ws "");
  enabled = is_given ws;
  call = workspace_call get "/api/v1/workspaces/{workspaceID}/analytics/" (value_or ws "") [] [] [];
  select = with_data normalize_error or_empty;
}

unfoldable pub use_post_analytics :
    Option String → Option String → Query (Option (List ChannelMetrics)) (List ChannelMetrics)
use_post_analytics ws id = record {
  key = post_metrics_key (value_or ws "") (value_or id "");
  enabled = is_given ws && is_given id;
  call =
      workspace_call get "/api/v1/workspaces/{workspaceID}/analytics/posts/{postID}"
        (value_or ws "") (("postID", value_or id "") ∷ []) [] [];
  select = with_data normalize_error or_empty;
}

-- The arguments of `useMetricSeries`.
pub record SeriesArgs : Type 0 where
  pub workspace_id : Option String
  pub post_id : Option String
  pub channel_id : Option String
  pub metric : String
  pub from : Option String
  pub to : Option String

unfoldable pub use_metric_series : SeriesArgs → Query (Option (List SeriesPoint)) (List SeriesPoint)
use_metric_series a = record {
  key =
      series_key (value_or a.workspace_id "") (value_or a.post_id "") (value_or a.channel_id "")
        a.metric a.from a.to;
  enabled =
      ((is_given a.workspace_id && is_given a.post_id) && is_given a.channel_id)
      && is_given (some a.metric);
  call =
      workspace_call get "/api/v1/workspaces/{workspaceID}/analytics/posts/{postID}/series"
        (value_or a.workspace_id "") (("postID", value_or a.post_id "") ∷ [])
        (("channel_id", str (value_or a.channel_id ""))
          ∷ ("metric", str a.metric)
          ∷ ("from", opt_str a.from)
          ∷ ("to", opt_str a.to)
          ∷ [])
        [];
  select = with_data normalize_error or_empty;
}

-- The export's URL below the API's origin.
unfoldable pub analytics_csv_url : Text → Text → Text
analytics_csv_url origin ws =
    origin ++ (codes "/api/v1/workspaces/" ++ (ws ++ codes "/analytics/export.csv"))
