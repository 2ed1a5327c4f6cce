-- ===== src/Web/Data/Mutations/Refetch.antt =====
-- What an update of a post leaves in the cache.
use postal.Prelude.{String, ◌≡◌, ◌∙◌, some, List, true, eq_refl}
use postal.Schema.{Post, VariantInput}
use postal.Query.{Cached}
use postal.Query.Cache.{QueryCache, run_effects}
use postal.Web.Data.Posts.{use_post}
use postal.Web.Data.Mutations.{updated_post, effects}

-- A post that was updated is served at once, fresh, with the value that the server returned.
pub updated_post-fresh :
    (q : QueryCache) (ws : String) (p : Post) (i : String × List VariantInput) (c : q.Cache)
    → let d = run_effects q (effects ws (updated_post p i)) c in
      let k = (use_post (some ws) (some p.id)).key in
      (q.fresh k d ≡ true) × (q.value k d ≡ some (Cached.post p))
unfolding effects use_post
updated_post-fresh q ws p i c = (
  q.fresh-set _ _ _ _ ∙ rw (eq_refl ws, eq_refl p.id),
  q.value-set _ _ _ _ ∙ rw (eq_refl ws, eq_refl p.id),
)
