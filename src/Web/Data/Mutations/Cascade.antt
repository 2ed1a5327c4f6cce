-- ===== src/Web/Data/Mutations/Cascade.antt =====
-- What the database deletes along with a row, and the cache keeps: scheduled_jobs refers to posts and to
-- channels with `ON DELETE CASCADE` (db/migrations/00007_scheduling.sql).
use postal.Prelude.{String, ◌≡◌, refl, ◌∙◌, Option, some, false, eq_refl}
use postal.Query.{Key}
use postal.Query.Cache.{QueryCache, run_effects}
use postal.Web.Data.Posts.{use_posts}
use postal.Web.Data.Channels.{use_channels}
use postal.Web.Data.Schedule.{use_calendar}
use postal.Web.Data.Mutations.{Done, deleted_post, disconnected, effects}

-- The mutations that delete scheduled jobs by the cascade, with the list that they take a row from.
pub data Cascades (ws : String) : Done → Key → Type 0 where
  of_post :
      (id : String) {k : Key} → k ≡ (use_posts (some ws)).key → Cascades ws (deleted_post id) k
  of_channel :
      (id : String) {k : Key} → k ≡ (use_channels (some ws)).key → Cascades ws (disconnected id) k

-- Deleting a post and disconnecting a channel, which delete the jobs of the post or the channel in the
-- database, make the list that the row was in stale, and leave every window of the calendar as fresh
-- as it was, with the value that it had: the calendar goes on showing the deleted jobs.
pub effects-calendar :
    (q : QueryCache) (ws : String) (c : q.Cache) {d : Done} {k : Key} (from to : Option String)
    → Cascades ws d k
    → let after = run_effects q (effects ws d) c in
      let calendar = (use_calendar (some ws) from to).key in
      (q.fresh k after ≡ false)
      × (q.fresh calendar after ≡ q.fresh calendar c)
      × (q.value calendar after ≡ q.value calendar c)
unfolding effects use_posts use_channels use_calendar
effects-calendar q ws c from to (of_post id e) = rw e (
  q.fresh-invalidate _ _ c ∙ rw (eq_refl ws) refl,
  q.fresh-invalidate _ _ c ∙ rw (eq_refl ws) refl,
  q.value-invalidate _ _ c,
)
effects-calendar q ws c from to (of_channel id e) = rw e (
  q.fresh-invalidate _ _ c ∙ rw (eq_refl ws) refl,
  q.fresh-invalidate _ _ c ∙ rw (eq_refl ws) refl,
  q.value-invalidate _ _ c,
)
