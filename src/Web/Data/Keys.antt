-- ===== src/Web/Data/Keys.antt =====
-- The cache entries of the queries in web/src/data.
use postal.Prelude.{
  String, ◌≡◌, refl, sym, ap, ◌∙◌, Option, none, some, [], ◌∷◌, if◌then◌else◌, str_eq,
}
use postal.Query.{Key, text, window}
use postal.Web.Data.Auth.{use_me}
use postal.Web.Data.Posts.{use_posts, use_post, use_link_preview}
use postal.Web.Data.Schedule.{use_calendar, use_slots}
use postal.Web.Data.Channels.{use_channels}
use postal.Web.Data.Media.{use_media}
use postal.Web.Data.Workspaces.{use_workspaces, use_members}
use postal.Web.Data.Billing.{use_wallet, use_ledger}
use postal.Web.Data.Analytics.{use_analytics_overview, use_post_analytics, use_metric_series}
use postal.Web.Data.Integrations.{use_integrations}
use postal.Web.Data.Governance.{use_member_channels, use_activity}

-- Every query of the client, with the identifiers it is about.
pub data Asked : Type 0 where
  me workspaces : Asked
  posts channels media members wallet ledger overview integrations activity : String → Asked
  post slots post_metrics member_channels link_preview : String → String → Asked
  calendar : String → Option String → Option String → Asked
  series : String → String → String → String → Option String → Option String → Asked

unfoldable pub key_of : Asked → Key
unfolding use_me use_posts use_post use_link_preview use_calendar use_slots use_channels use_media
    use_workspaces use_members use_wallet use_ledger use_analytics_overview use_post_analytics
    use_metric_series use_integrations use_member_channels use_activity
key_of me = use_me.key
key_of workspaces = use_workspaces.key
key_of (posts ws) = (use_posts (some ws)).key
key_of (channels ws) = (use_channels (some ws)).key
key_of (media ws) = (use_media (some ws)).key
key_of (members ws) = (use_members (some ws)).key
key_of (wallet ws) = (use_wallet (some ws)).key
key_of (ledger ws) = (use_ledger (some ws)).key
key_of (overview ws) = (use_analytics_overview (some ws)).key
key_of (integrations ws) = (use_integrations (some ws)).key
key_of (activity ws) = (use_activity (some ws)).key
key_of (post ws id) = (use_post (some ws) (some id)).key
key_of (slots ws id) = (use_slots (some ws) (some id)).key
key_of (post_metrics ws id) = (use_post_analytics (some ws) (some id)).key
key_of (member_channels ws id) = (use_member_channels ws id).key
key_of (link_preview ws url) = (use_link_preview (some ws) (some url)).key
key_of (calendar ws from to) = (use_calendar (some ws) from to).key
key_of (series ws id channel metric from to) =
    (use_metric_series (record {
      workspace_id = some ws;
      post_id = some id;
      channel_id = some channel;
      metric = metric;
      from = from;
      to = to;
    })).key

-- The queries of one workspace, by the parts behind its identifier.
plain : String → String → Option Asked
plain ws name =
    if str_eq name "posts"
    then some (posts ws)
    else (if str_eq name "channels"
        then some (channels ws)
        else (if str_eq name "media"
            then some (media ws)
            else (if str_eq name "members"
                then some (members ws)
                else (if str_eq name "analytics"
                    then some (overview ws)
                    else (if str_eq name "integrations"
                        then some (integrations ws)
                        else (if str_eq name "activity" then some (activity ws) else none))))))

billing : String → String → Option Asked
billing ws view = if str_eq view "wallet" then some (wallet ws) else some (ledger ws)

about : String → String → String → Option Asked
unfolding billing
about ws name id =
    if str_eq name "posts"
    then some (post ws id)
    else (if str_eq name "slots"
        then some (slots ws id)
        else (if str_eq name "analytics"
            then some (post_metrics ws id)
            else (if str_eq name "billing"
                then billing ws id
                else (if str_eq name "member-channels"
                    then some (member_channels ws id)
                    else (if str_eq name "link-preview"
                        then some (link_preview ws id)
                        else none)))))

-- The query that a key belongs to.
asked : Key → Option Asked
unfolding plain about
asked (text root ∷ []) = some workspaces
asked (text root ∷ text a ∷ []) = some me
asked (text root ∷ text ws ∷ text name ∷ []) = plain ws name
asked (text root ∷ text ws ∷ text name ∷ text id ∷ []) = about ws name id
asked (text root ∷ text ws ∷ text name ∷ window from to ∷ []) = some (calendar ws from to)
asked
      (text root
        ∷ text ws
        ∷ text name
        ∷ text id
        ∷ text channel
        ∷ text metric
        ∷ window from to
        ∷ []) =
    some (series ws id channel metric from to)
asked _ = none

asked-key_of : (a : Asked) → asked (key_of a) ≡ some a
unfolding asked key_of
asked-key_of me = refl
asked-key_of workspaces = refl
asked-key_of (posts ws) = refl
asked-key_of (channels ws) = refl
asked-key_of (media ws) = refl
asked-key_of (members ws) = refl
asked-key_of (wallet ws) = refl
asked-key_of (ledger ws) = refl
asked-key_of (overview ws) = refl
asked-key_of (integrations ws) = refl
asked-key_of (activity ws) = refl
asked-key_of (post ws id) = refl
asked-key_of (slots ws id) = refl
asked-key_of (post_metrics ws id) = refl
asked-key_of (member_channels ws id) = refl
asked-key_of (link_preview ws url) = refl
asked-key_of (calendar ws from to) = refl
asked-key_of (series ws id channel metric from to) = refl

-- No two queries share a cache entry: those with the same key are the same query about the same
-- identifiers.
pub key_of-injective : (a b : Asked) → key_of a ≡ key_of b → a ≡ b
key_of-injective a b e =
    let p : some a ≡ some b = sym (asked-key_of a) ∙ ap asked e ∙ asked-key_of b in cc
